-- ===== src/Service/Backoff.antt =====
-- `BackoffDelay`, in manager/src/Service.cpp.
use native.Mathlib.Nat.{pow-suc, one-le-pow}
use improved_process_manager.Base.{ℕ, zero, suc, ◌*◌, ◌^◌, ◌≤◌, min, ◌≡◌, ap, arith}
use improved_process_manager.Config.{ServiceConfig}
use improved_process_manager.Service.Operations.{backoff_loop, backoff_delay}

-- The loop doubles until it reaches the largest delay.
backoff_loop-min :
    (delay_max left delay : ℕ)
    → min (backoff_loop delay_max left delay) delay_max ≡ min (delay * 2 ^ left) delay_max
unfolding backoff_loop
backoff_loop-min delay_max zero delay = omega arith
backoff_loop-min delay_max (suc left) delay =
    let again = backoff_loop-min delay_max left (delay * 2) in
    let power : delay * 2 ^ suc left ≡ delay * 2 * 2 ^ left =
      omega (arith, ap (λ t. delay * t) (pow-suc 2 left)) in
    let grown : delay ≤ delay * 2 ^ suc left =
      let positive : 1 ≤ 2 ^ suc left = one-le-pow (suc left) 2 (omega arith) in grind arith in
    ground (arith, again, power, grown)

-- The delay before a restart doubles with every restart in the window, up to the largest delay.
pub backoff_delay_lem :
    (config : ServiceConfig) (previous : ℕ)
    → backoff_delay config previous
      ≡ min (config.restart_delay * 2 ^ previous) config.restart_delay_max
unfolding backoff_delay
backoff_delay_lem config previous =
    ground (arith, backoff_loop-min config.restart_delay_max previous config.restart_delay)
