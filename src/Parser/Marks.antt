-- ===== src/Parser/Marks.antt =====
-- The marks of `FindCycle`, manager/src/ConfigParser.cpp: their list, and how many are still 0.
use improved_process_manager.Base.{
  ℕ, zero, suc, ◌≤◌, ◌<◌, ◌≡◌, ◌≢◌, inl, inr, refl, ap, arith, List, [], ◌∷◌, some, length, get_or,
  set, replicate, Text, Option-cases,
}
use improved_process_manager.Config.{ServiceConfig}
use improved_process_manager.Parser.Cycles.{
  Visit, finished, cycle, exhausted, missing, position, and_then,
}

-- What holds of the marks of a finished search; the fuel never runs out and no name is missing.
abbrev pub Post : (List ℕ → Type 0) → Visit → Type 0
Post B (finished marks) = B marks
Post B (cycle names) = Unit
Post B exhausted = ⊥
Post B missing = ⊥

pub Post-and_then :
    (A B : List ℕ → Type 0) (v : Visit) (next : List ℕ → Visit)
    → Post A v
    → ((marks : List ℕ) → A marks → Post B (next marks))
    → Post B (and_then v next)
Post-and_then A B (finished marks) next a f = f marks a
Post-and_then A B (cycle names) next a f = tt
Post-and_then A B exhausted next a f = a
Post-and_then A B missing next a f = a

pub Post-weaken :
    (A B : List ℕ → Type 0) (v : Visit)
    → Post A v
    → ((marks : List ℕ) → A marks → B marks)
    → Post B v
Post-weaken A B (finished marks) a f = f marks a
Post-weaken A B (cycle names) a f = tt
Post-weaken A B exhausted a f = a
Post-weaken A B missing a f = a

pub position-lt :
    (services : List ServiceConfig) (name : Text) (i : ℕ)
    → position services name ≡ some i
    → i < length services
unfolding position
position-lt [] name i e = absurd (ground arith)
position-lt (s ∷ ss) name i e = elim (Option-cases (position ss name)) [
  | inl absent ↦ ground (arith, rw absent at e)
  | inr (j, found) ↦
      let next : i ≡ suc j = ground (arith, rw found at e) in
      omega (arith, position-lt ss name j found)
]

pub get_or-set_self : (m : List ℕ) (i v : ℕ) → i < length m → get_or (set m i v) i 0 ≡ v
get_or-set_self [] i v h = absurd (omega arith)
get_or-set_self (x ∷ xs) zero v h = refl
get_or-set_self (x ∷ xs) (suc i) v h = get_or-set_self xs i v (omega arith)

pub get_or-set_other : (m : List ℕ) (i k v : ℕ) → i ≢ k → get_or (set m i v) k 0 ≡ get_or m k 0
get_or-set_other [] i k v h = refl
get_or-set_other (x ∷ xs) zero zero v h = absurd (h refl)
get_or-set_other (x ∷ xs) zero (suc k) v h = refl
get_or-set_other (x ∷ xs) (suc i) zero v h = refl
get_or-set_other (x ∷ xs) (suc i) (suc k) v h = get_or-set_other xs i k v (λ e. h (ap suc e))

-- How many services have no mark.
abbrev pub zeros : List ℕ → ℕ
zeros [] = 0
zeros (zero ∷ ms) = suc (zeros ms)
zeros (suc v ∷ ms) = zeros ms

pub zeros-set :
    (m : List ℕ) (i v : ℕ)
    → i < length m
    → get_or m i 0 ≡ 0
    → suc (zeros (set m i (suc v))) ≡ zeros m
zeros-set [] i v h e = absurd (omega arith)
zeros-set (zero ∷ xs) zero v h e = refl
zeros-set (suc x ∷ xs) zero v h e = absurd (omega arith)
zeros-set (zero ∷ xs) (suc i) v h e = ap suc (zeros-set xs i v (omega arith) e)
zeros-set (suc x ∷ xs) (suc i) v h e = zeros-set xs i v (omega arith) e

pub zeros-set_le : (m : List ℕ) (i v : ℕ) → zeros (set m i (suc v)) ≤ zeros m
zeros-set_le [] i v = omega arith
zeros-set_le (zero ∷ xs) zero v = omega arith
zeros-set_le (suc x ∷ xs) zero v = omega arith
zeros-set_le (zero ∷ xs) (suc i) v = omega (arith, zeros-set_le xs i v)
zeros-set_le (suc x ∷ xs) (suc i) v = zeros-set_le xs i v

pub zeros-replicate : (n : ℕ) → zeros (replicate n 0) ≡ n
zeros-replicate zero = refl
zeros-replicate (suc n) = ap suc (zeros-replicate n)

pub get_or-replicate : (n k : ℕ) → ◌≡◌ {A = ℕ} (get_or (replicate n 0) k 0) 0
get_or-replicate zero k = refl
get_or-replicate (suc n) zero = refl
get_or-replicate (suc n) (suc k) = get_or-replicate n k
