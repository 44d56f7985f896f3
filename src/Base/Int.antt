-- ===== src/Base/Int.antt =====
-- Signed integers over the native numbers, and their two's complement words.
use Prim.Native.Nat.{ℕ, ◌+◌, ◌-◌, ◌%◌, ◌<◌}
use mathlib.Core.Path.{◌≡◌}
use mathlib.Core.Bool.{Bool}
use native.Mathlib.Nat.{mod-eq_of_lt}
use native.Mathlib.Omega.{arith}
use improved_process_manager.Base.Tests.{ltb, if◌then◌else◌}

-- `negsuc n` is -(n + 1).
pub data ℤ : Type 0 where
  pos : ℕ → ℤ
  negsuc : ℕ → ℤ

abbrev pub is_negative : ℤ → Bool
is_negative (pos n) = Bool.false
is_negative (negsuc n) = Bool.true

-- The pattern of an integer in a word of `m + m` values, as a cast to unsigned gives it.
abbrev pub to_word : ℕ → ℤ → ℕ
to_word m (pos n) = n % (m + m)
to_word m (negsuc n) = m + m - 1 - n % (m + m)

-- The integer that a word of `m + m` values stands for.
abbrev pub of_word : ℕ → ℕ → ℤ
of_word m w = if ltb w m then pos w else negsuc (m + m - 1 - w)

abbrev pub InRange : ℕ → ℤ → Type 0
InRange m (pos n) = n < m
InRange m (negsuc n) = n < m

pub of_word-to_word : (m : ℕ) (z : ℤ) → InRange m z → of_word m (to_word m z) ≡ z
of_word-to_word m (pos n) h =
    let small : n % (m + m) ≡ n = mod-eq_of_lt (omega arith) in ground arith
of_word-to_word m (negsuc n) h =
    let small : n % (m + m) ≡ n = mod-eq_of_lt (omega arith) in ground arith
