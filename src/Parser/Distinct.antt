-- ===== src/Parser/Distinct.antt =====
-- The services of a file while they are added and replaced, manager/src/ConfigParser.cpp.
use improved_process_manager.Base.{
  ℕ, zero, suc, true, false, ◌||◌, List, [], ◌∷◌, ◌++◌, some, ◌≡◌, refl, sym, ap, subst, ◌∙◌, arith,
  inl, inr, get_elem?, set, All, Text, same_text, same_text_iff, contains, Bool-cases,
}
use improved_process_manager.Config.{ServiceConfig, find_service}
use improved_process_manager.Parser.Sections.{is_none}

module _ {ℓ} {A : Type ℓ} (P : A → Type 0) where
  pub All-snoc : (xs : List A) (x : A) → All P xs → P x → All P (xs ++ x ∷ [])
  All-snoc [] x h p = (p, tt)
  All-snoc (y ∷ ys) x (q, h) p = (q, All-snoc ys x h p)

  pub All-set : (xs : List A) (i : ℕ) (x : A) → All P xs → P x → All P (set xs i x)
  All-set [] i x h p = tt
  All-set (y ∷ ys) zero x (q, h) p = (p, h)
  All-set (y ∷ ys) (suc i) x (q, h) p = (q, All-set ys i x h p)

  pub All-get : (xs : List A) (i : ℕ) (x : A) → All P xs → get_elem? xs i ≡ some x → P x
  All-get [] i x h e = absurd (ground arith)
  All-get (y ∷ ys) zero x (q, h) e = let same : y ≡ x = ground arith in subst P same q
  All-get (y ∷ ys) (suc i) x (q, h) e = All-get ys i x h e

abbrev pub names : List ServiceConfig → List Text
names [] = []
names (s ∷ ss) = s.name ∷ names ss

-- No name stands twice in the list.
abbrev pub Distinct : List Text → Type 0
Distinct [] = Unit
Distinct (n ∷ ns) = (contains ns n ≡ false) × Distinct ns

pub names-snoc :
    (ss : List ServiceConfig) (s : ServiceConfig) → names (ss ++ s ∷ []) ≡ names ss ++ s.name ∷ []
names-snoc [] s = refl
names-snoc (x ∷ xs) s = ap (◌∷◌ x.name) (names-snoc xs s)

pub names-set :
    (ss : List ServiceConfig) (i : ℕ) (s t : ServiceConfig)
    → get_elem? ss i ≡ some s
    → s.name ≡ t.name
    → names (set ss i t) ≡ names ss
names-set [] i s t e same = refl
names-set (x ∷ xs) zero s t e same =
    let first : x ≡ s = ground arith in
    let name : x.name ≡ s.name = ap (λ r. r.name) first in
    ap (λ n. n ∷ names xs) (sym (name ∙ same))
names-set (x ∷ xs) (suc i) s t e same = ap (◌∷◌ x.name) (names-set xs i s t e same)

contains-snoc :
    (ns : List Text) (n m : Text) → contains (ns ++ n ∷ []) m ≡ (contains ns m || same_text n m)
unfolding contains
contains-snoc [] n m = ground arith
contains-snoc (x ∷ xs) n m = ground (arith, contains-snoc xs n m)

pub Distinct-snoc :
    (ns : List Text) (n : Text) → Distinct ns → contains ns n ≡ false → Distinct (ns ++ n ∷ [])
unfolding contains
Distinct-snoc [] n h e = (refl, tt)
Distinct-snoc (x ∷ xs) n (new, h) e =
    let other : same_text n x ≡ false = ground (arith, same_text_iff n x, same_text_iff x n) in
    (ground (arith, contains-snoc xs n x), Distinct-snoc xs n h (ground arith))

pub find_service-contains :
    (ss : List ServiceConfig) (n : Text)
    → is_none (find_service ss n) ≡ true
    → contains (names ss) n ≡ false
unfolding find_service contains is_none
find_service-contains [] n e = refl
find_service-contains (s ∷ ss) n e = elim (Bool-cases (same_text s.name n)) [
  | inl here ↦ absurd (ground (arith, rw here at e))
  | inr away ↦ ground (arith, find_service-contains ss n (rw away at e))
]
