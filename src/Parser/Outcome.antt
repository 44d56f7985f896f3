-- ===== src/Parser/Outcome.antt =====
-- Reasoning about `Parsed`: the steps of manager/src/ConfigParser.cpp that end in an error or a value.
use improved_process_manager.Base.{
  ℕ, Bool, true, false, Option, none, some, ◌≡◌, refl, if◌then◌else◌, Text,
}
use improved_process_manager.Parser.{Parsed, failed, parsed, ◌>>=◌}
use improved_process_manager.Parser.Keys.{require}

module _ {ℓ} {A : Type ℓ} where
  -- What holds of the value, if there is one.
  abbrev pub After {κ} : (A → Type κ) → Parsed A → Type κ
  After P (failed error) = Unit
  After P (parsed a) = P a

  pub After-parsed : (P : A → Type 0) (r : Parsed A) (a : A) → After P r → r ≡ parsed a → P a
  After-parsed P r a h e = rw e at h

  pub After-weaken :
      (P Q : A → Type 0) (r : Parsed A) → After P r → ((a : A) → P a → Q a) → After Q r
  After-weaken P Q (failed error) h f = tt
  After-weaken P Q (parsed a) h f = f a h

  pub After-if :
      (P : A → Type 0) (b : Bool) (x y : Parsed A)
      → After P x
      → After P y
      → After P (if b then x else y)
  After-if P true x y h k = h
  After-if P false x y h k = k

  -- Where the test counts.
  pub After-test :
      (P : A → Type 0) (b : Bool) (x y : Parsed A)
      → (b ≡ true → After P x)
      → (b ≡ false → After P y)
      → After P (if b then x else y)
  After-test P true x y h k = h refl
  After-test P false x y h k = k refl

  pub After-require :
      (P : A → Type 0) (o : Option A) (line : ℕ) (message : Text)
      → ((a : A) → o ≡ some a → P a)
      → After P (require o line message)
  unfolding require
  After-require P none line message f = tt
  After-require P (some a) line message f = f a refl

  pub After-any : (r : Parsed A) → After {0} (λ a. Unit) r
  After-any (failed error) = tt
  After-any (parsed a) = tt

pub After->>= {ℓ κ} :
    {A : Type ℓ} {B : Type κ} (P : A → Type 0) (Q : B → Type 0) (r : Parsed A) (next : A → Parsed B)
    → After P r
    → ((a : A) → P a → After Q (next a))
    → After Q (r >>= next)
After->>= P Q (failed error) next h f = tt
After->>= P Q (parsed a) next h f = f a h

-- A value that is read, and then put somewhere.
pub After-put {ℓ} :
    {A : Type ℓ} {B : Type 0} (P : B → Type 0) (o : Option A) (line : ℕ) (message : Text)
    (f : A → B)
    → ((a : A) → o ≡ some a → P (f a))
    → After P (require o line message >>= λ a. parsed (f a))
unfolding require
After-put P none line message f h = tt
After-put P (some a) line message f h = h a refl
