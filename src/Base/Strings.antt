-- ===== src/Base/Strings.antt =====
-- Text as bytes. The program's strings are UTF-8; its own literals are ASCII.
use Prim.Native.Nat.{ℕ, zero, suc, ◌+◌, ◌/◌, ◌%◌}
use Prim.Native.Char.{code}
use Prim.Native.String.{String}
use mathlib.Core.Path.{◌≡◌, refl}
use mathlib.Core.Logic.{◌↔◌}
use mathlib.Core.Bool.{Bool, true, false, ◌&&◌, ◌||◌}
use mathlib.Core.List.{List, [], ◌∷◌, ◌++◌}
use native.Mathlib.Omega.{arith}
use improved_process_manager.Base.Tests.{◌==◌, ltb, if◌then◌else◌}

abbrev pub Bytes : Type 0
Bytes = List ℕ

abbrev pub Text : Type 0
Text = Bytes

abbrev pub text : String → Text
text String.[] = []
text (String.◌∷◌ c s) = code c ∷ text s

-- `==` of strings.
unfoldable pub same_text : Text → Text → Bool
same_text [] [] = true
same_text (x ∷ xs) (y ∷ ys) = x == y && same_text xs ys
same_text _ _ = false

pub same_text_iff : (a b : Text) → (same_text a b ≡ true) ↔ (a ≡ b)
unfolding same_text
same_text_iff (x ∷ a) (y ∷ b) = ground (arith, same_text_iff a b)
same_text_iff _ _ = ground arith

pub same_text_self : (a : Text) → same_text a a ≡ true
same_text_self a = (same_text_iff a a).1 refl

-- `std::find` over names.
unfoldable pub contains : List Text → Text → Bool
unfolding same_text
contains [] name = false
contains (x ∷ xs) name = same_text x name || contains xs name

-- The decimal digits of a number, most significant first; `n + 1` rounds are enough.
unfoldable pub digits_of : ℕ → ℕ → Text
digits_of zero n = []
digits_of (suc fuel) n =
    let more = digits_of fuel (n / 10) in
    if ltb n 10 then (b'0' + n) ∷ [] else more ++ (b'0' + n % 10) ∷ []

-- `std::to_string` of a number that is not negative.
unfoldable pub to_string : ℕ → Text
unfolding digits_of
to_string n = digits_of (suc n) n
