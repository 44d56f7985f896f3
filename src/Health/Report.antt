-- ===== src/Health/Report.antt =====
-- The whole report: records back to back, and the two forms that `DecodeHealthRecords` tells apart.
use mathlib.Core.Path.{ap₂}
use improved_process_manager.Base.{
  ℕ, suc, ◌+◌, ◌*◌, ◌/◌, ◌%◌, ◌≤◌, ◌≡◌, refl, sym, ap, subst, ◌∙◌, inl, true, false, List, [], ◌∷◌,
  map, arith, ◌==◌, length, All, Bytes,
}
use improved_process_manager.Command.{DecodeCode}
use improved_process_manager.Health.{
  HealthRecord, encode_one, encode_loop, encode_health_records, decode_loop, is_prefixed,
  decode_health_records,
}
use improved_process_manager.Health.Codec.{
  IsRepresentable, carried_record, health_fields, encode_one-write_all, decode_one_lem,
}
use improved_process_manager.Wire.Writer.{zeros, length-zeros}
use improved_process_manager.Wire.Splice.{slice}
use improved_process_manager.Wire.Fields.{
  at, extent, length-write_all, slice-write_all_outside, Holds, write_all-Holds, is_layout-within,
}

length-encode_one :
    (r : HealthRecord) (writer : Bytes) (base : ℕ)
    → base + 128 ≤ length writer
    → length (encode_one r writer base) ≡ length writer
length-encode_one r writer base h =
    ap length (encode_one-write_all r writer base)
    ∙ length-write_all 128 base (health_fields r) writer refl h

slice-encode_one :
    (p n : ℕ) (r : HealthRecord) (writer : Bytes) (base : ℕ)
    → base + 128 ≤ length writer
    → p + n ≤ base
    → slice p n (encode_one r writer base) ≡ slice p n writer
slice-encode_one p n r writer base h before =
    ap (slice p n) (encode_one-write_all r writer base)
    ∙ slice-write_all_outside 128 base p n (health_fields r) writer refl h (inl before)

length-encode_loop :
    (i : ℕ) (rs : List HealthRecord) (writer : Bytes)
    → (i + length rs) * 128 ≤ length writer
    → length (encode_loop i rs writer) ≡ length writer
unfolding encode_loop
length-encode_loop i [] writer h = refl
length-encode_loop i (r ∷ rs) writer h =
    let same = length-encode_one r writer (i * 128) (omega arith) in
    length-encode_loop (i + 1) rs (encode_one r writer (i * 128)) (omega (arith, same)) ∙ same

-- Later records leave the earlier ones alone.
slice-encode_loop :
    (p n i : ℕ) (rs : List HealthRecord) (writer : Bytes)
    → (i + length rs) * 128 ≤ length writer
    → p + n ≤ i * 128
    → slice p n (encode_loop i rs writer) ≡ slice p n writer
unfolding encode_loop
slice-encode_loop p n i [] writer h before = refl
slice-encode_loop p n i (r ∷ rs) writer h before =
    let same = length-encode_one r writer (i * 128) (omega arith) in
    slice-encode_loop p n (i + 1) rs (encode_one r writer (i * 128)) (omega (arith, same))
      (omega arith)
    ∙ slice-encode_one p n r writer (i * 128) (omega arith) before

-- A buffer holds the records from number `i` on.
abbrev HoldsAll : ℕ → List HealthRecord → Bytes → Type 0
HoldsAll i [] bytes = Unit {0}
HoldsAll i (r ∷ rs) bytes = Holds (i * 128) (health_fields r) bytes × HoldsAll (i + 1) rs bytes

encode_loop-HoldsAll :
    (i : ℕ) (rs : List HealthRecord) (writer : Bytes)
    → (i + length rs) * 128 ≤ length writer
    → HoldsAll i rs (encode_loop i rs writer)
unfolding encode_loop
encode_loop-HoldsAll i [] writer h = tt
encode_loop-HoldsAll i (r ∷ rs) writer h =
    let same = length-encode_one r writer (i * 128) (omega arith) in
    let room : (i + 1 + length rs) * 128 ≤ length (encode_one r writer (i * 128)) =
      omega (arith, same) in
    (
      λ k f e.
          slice-encode_loop _ _ (i + 1) rs (encode_one r writer (i * 128)) room
            (omega (arith, is_layout-within 128 k (health_fields r) f refl e))
          ∙ ap (slice (i * 128 + at f) (extent f)) (encode_one-write_all r writer (i * 128))
          ∙ write_all-Holds 128 (i * 128) (health_fields r) writer refl (omega arith) k f e,
      encode_loop-HoldsAll (i + 1) rs (encode_one r writer (i * 128)) room,
    )

decode_loop_lem :
    (payload : Bytes) (i : ℕ) (rs : List HealthRecord)
    → (i + length rs) * 128 ≤ length payload
    → HoldsAll i rs payload
    → All IsRepresentable rs
    → decode_loop payload 0 i (length rs) ≡ map carried_record rs
unfolding decode_loop
decode_loop_lem payload i [] h holds v = refl
decode_loop_lem payload i (r ∷ rs) h holds v =
    let e : 0 + i * 128 ≡ i * 128 = omega arith in
    rw e (
      ap₂ ◌∷◌
        (decode_one_lem (record { bytes = payload; base = i * 128; part = 128 }) r (omega arith)
          refl holds.0 v.0)
        (decode_loop_lem payload (i + 1) rs (omega arith) holds.1 v.1))

-- A report with no count in front.
is_prefixed_multiple :
    (payload : Bytes) (n : ℕ) → length payload ≡ n * 128 → is_prefixed payload ≡ false
unfolding is_prefixed
is_prefixed_multiple payload n h = ground arith

decode_plain :
    (payload : Bytes) (n : ℕ)
    → length payload ≡ suc n * 128
    → decode_health_records payload ≡ (DecodeCode.ok, decode_loop payload 0 0 (suc n))
decode_plain [] n h = absurd (omega arith)
decode_plain (b ∷ bs) n h =
    let plain = is_prefixed_multiple (b ∷ bs) (suc n) h in
    let whole : (length (b ∷ bs) % 128 == 0) ≡ true = ground arith in
    let count : length (b ∷ bs) / 128 ≡ suc n = omega arith in
    unfold decode_health_records in ground (arith, plain, whole, count)

-- The health report survives the wire: decoding what was encoded gives every record back, in order,
-- with its name as the 64-byte field carries it, provided its numbers fit their C++ types.
pub decode_health_records-encode_health_records :
    (rs : List HealthRecord)
    → All IsRepresentable rs
    → decode_health_records (encode_health_records rs) ≡ (DecodeCode.ok, map carried_record rs)
decode_health_records-encode_health_records [] v =
    unfold decode_health_records encode_health_records in refl
decode_health_records-encode_health_records (r ∷ rs) v =
    decode_plain (encode_health_records (r ∷ rs)) (length rs) sized
    ∙ ap (λ out. (DecodeCode.ok, out))
        (decode_loop_lem (encode_health_records (r ∷ rs)) 0 (r ∷ rs) (omega (arith, sized)) stored
          v)
  where
    buffer : Bytes
    buffer = zeros (length (r ∷ rs) * 128)

    encoded : encode_health_records (r ∷ rs) ≡ encode_loop 0 (r ∷ rs) buffer
    encoded = unfold encode_health_records in refl

    sized : length (encode_health_records (r ∷ rs)) ≡ length (r ∷ rs) * 128
    sized =
        ap length encoded
        ∙ length-encode_loop 0 (r ∷ rs) buffer (omega (arith, length-zeros (length (r ∷ rs) * 128)))
        ∙ length-zeros (length (r ∷ rs) * 128)

    stored : HoldsAll 0 (r ∷ rs) (encode_health_records (r ∷ rs))
    stored = subst (HoldsAll 0 (r ∷ rs)) (sym encoded) (
        encode_loop-HoldsAll 0 (r ∷ rs) buffer
          (omega (arith, length-zeros (length (r ∷ rs) * 128))))
