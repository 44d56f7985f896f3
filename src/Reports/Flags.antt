-- ===== src/Reports/Flags.antt =====
-- The flags of a service record, manager/src/ReportBuilder.cpp.
use improved_process_manager.Base.{
  ℕ, ◌+◌, ◌*◌, ◌/◌, ◌%◌, ◌^◌, ◌<◌, ◌≡◌, Bool, refl, true, false, ◌&&◌, bit_or, arith,
}
use improved_process_manager.Reports.{flag, service_flags}
use improved_process_manager.Service.Status.{ServiceStatus}
use improved_process_manager.Wire.Bits.{bit_or_shifted}

abbrev pub bit : Bool → ℕ
bit true = 1
bit false = 0

bit_or-flag : (k f v : ℕ) (b : Bool) → v ≡ 1 * 2 ^ k → f < v → bit_or f (flag b v) ≡ f + bit b * v
bit_or-flag k f v true e h = rw e (omega (arith, bit_or_shifted k f 1 (omega (arith, e))))
bit_or-flag k f v false e h =
    let nothing : 0 * 2 ^ k ≡ 0 = omega arith in
    let zeroth = bit_or_shifted k f 0 (omega (arith, e)) in omega (arith, rw nothing at zeroth)

bit-lt : (b : Bool) → bit b < 2
bit-lt true = omega arith
bit-lt false = omega arith

flags_sum :
    (a b c d e f : Bool)
    → bit_or
        (bit_or
          (bit_or (bit_or (bit_or (bit_or 0 (flag a 1)) (flag b 2)) (flag c 4)) (flag d 8))
          (flag e 16))
        (flag f 32)
      ≡ 0 + bit a * 1 + bit b * 2 + bit c * 4 + bit d * 8 + bit e * 16 + bit f * 32
flags_sum a b c d e f =
    let t1 = 0 + bit a * 1 in
    let t2 = t1 + bit b * 2 in
    let t3 = t2 + bit c * 4 in
    let t4 = t3 + bit d * 8 in
    let t5 = t4 + bit e * 16 in
    rw
      (
        bit_or-flag 0 0 1 a (omega arith) (omega arith),
        bit_or-flag 1 t1 2 b (omega arith) (omega (arith, bit-lt a)),
        bit_or-flag 2 t2 4 c (omega arith) (omega (arith, bit-lt a, bit-lt b)),
        bit_or-flag 3 t3 8 d (omega arith) (omega (arith, bit-lt a, bit-lt b, bit-lt c)),
        bit_or-flag 4 t4 16 e (omega arith) (omega (arith, bit-lt a, bit-lt b, bit-lt c, bit-lt d)),
        bit_or-flag 5 t5 32 f (omega arith)
            (omega (arith, bit-lt a, bit-lt b, bit-lt c, bit-lt d, bit-lt e)),
      )
      refl

-- Each flag of a record can be read from its byte by itself, and there is no other.
pub service_flags_lem :
    (s : ServiceStatus)
    → (service_flags s % 2 ≡ bit s.autostart)
      × (service_flags s / 2 % 2 ≡ bit s.heartbeat)
      × (service_flags s / 4 % 2 ≡ bit (s.usage_valid && s.usage.cgroup))
      × (service_flags s / 8 % 2 ≡ bit s.usage_valid)
      × (service_flags s / 16 % 2 ≡ bit s.gpu_valid)
      × (service_flags s / 32 % 2 ≡ bit s.removing)
      × (service_flags s < 64)
unfolding service_flags
service_flags_lem s =
    let cgroup = s.usage_valid && s.usage.cgroup in
    let sum = flags_sum s.autostart s.heartbeat cgroup s.usage_valid s.gpu_valid s.removing in
    let b1 = bit-lt s.autostart in
    let b2 = bit-lt s.heartbeat in
    let b3 = bit-lt cgroup in
    let b4 = bit-lt s.usage_valid in
    let b5 = bit-lt s.gpu_valid in
    let b6 = bit-lt s.removing in
    (omega arith, omega arith, omega arith, omega arith, omega arith, omega arith, omega arith)
