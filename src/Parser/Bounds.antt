-- ===== src/Parser/Bounds.antt =====
-- The ranges of the numbers that the parser of manager/src/ConfigParser.cpp reads.
use improved_process_manager.Base.{
  ℕ, zero, suc, ◌-◌, ◌*◌, ◌/◌, ◌^◌, ◌≤◌, ◌<◌, Bool, true, false, [], ◌∷◌, Option, none, some, ltb,
  ◌==◌, ◌≡◌, refl, arith, inl, inr, take, drop, ℤ, pos, negsuc, Text, text, same_text, Bool-cases,
}
use improved_process_manager.Parser.Keys.{read_number}
use improved_process_manager.Parser.ServiceKeys.{read_limit}
use improved_process_manager.Parser.Lexing.{trim}
use improved_process_manager.Parser.Outcome.{After, After-require}
use improved_process_manager.Parser.Values.{
  max_cpu_percent, in_range, parse_integer, scale, sized, power_of, parse_byte_size, parse_percent,
  leading_digits, lower_case, int64_of, read_natural,
}

pub in_range-bounds :
    (minimum maximum : ℕ) (o : Option ℤ) (n : ℕ)
    → in_range minimum maximum o ≡ some n
    → (minimum ≤ n) × (n ≤ maximum)
unfolding in_range
in_range-bounds minimum maximum none n e = absurd (ground arith)
in_range-bounds minimum maximum (some (negsuc k)) n e = absurd (ground arith)
in_range-bounds minimum maximum (some (pos k)) n e = ground arith

pub read_number-bounds :
    (key value : Text) (line minimum maximum : ℕ)
    → After (λ n. (minimum ≤ n) × (n ≤ maximum)) (read_number key value line minimum maximum)
unfolding read_number
read_number-bounds key value line minimum maximum =
    After-require _ (in_range minimum maximum (parse_integer value)) line _
      (in_range-bounds minimum maximum (parse_integer value))

scale-bound : (power bytes n : ℕ) → bytes < 2 ^ 64 → scale power bytes ≡ some n → n < 2 ^ 64
unfolding scale
scale-bound zero bytes n small e = ground arith
scale-bound (suc left) bytes n small e = elim (Bool-cases (ltb ((2 ^ 64 - 1) / 1024) bytes)) [
  | inl much ↦ absurd (ground (arith, rw much at e))
  | inr fits ↦
      let more : scale left (bytes * 1024) ≡ some n = rw fits at e in
      scale-bound left (bytes * 1024) n (ground arith) more
]

int64_of-bound :
    (minus : Bool) (o : Option ℕ) (n : ℕ) → int64_of minus o ≡ some (pos n) → n < 2 ^ 63
unfolding int64_of
int64_of-bound minus none n e = absurd (ground arith)
int64_of-bound true (some zero) n e = ground arith
int64_of-bound true (some (suc m)) n e = absurd (ground arith)
int64_of-bound false (some m) n e = ground arith

parse_integer-bound : (t : Text) (n : ℕ) → parse_integer t ≡ some (pos n) → n < 2 ^ 63
unfolding parse_integer
parse_integer-bound [] n e = absurd (ground arith)
parse_integer-bound (c ∷ cs) n e = elim (Bool-cases (c == b'-')) [
  | inl minus ↦ int64_of-bound true (read_natural cs) n (rw minus at e)
  | inr plus ↦ int64_of-bound false (read_natural (c ∷ cs)) n (rw plus at e)
]

sized-bound :
    (t : Text) (power : Option ℕ) (n : ℕ) → sized (parse_integer t) power ≡ some n → n < 2 ^ 64
unfolding sized
sized-bound t power n e = sized_in (parse_integer t) power (λ m k. parse_integer-bound t m k) e
  where
    sized_in :
        (z : Option ℤ) (p : Option ℕ)
        → ((m : ℕ) → z ≡ some (pos m) → m < 2 ^ 63)
        → sized z p ≡ some n
        → n < 2 ^ 64
    sized_in none p small e = absurd (ground arith)
    sized_in (some (pos m)) none small e = absurd (ground arith)
    sized_in (some (pos m)) (some p) small e = scale-bound p m n (omega (arith, small m refl)) e
    sized_in (some (negsuc m)) p small e = absurd (ground arith)

-- A size of bytes fits 64 bits.
pub parse_byte_size-bound : (t : Text) (n : ℕ) → parse_byte_size t ≡ some n → n < 2 ^ 64
unfolding parse_byte_size
parse_byte_size-bound untrimmed n e =
    let t = trim untrimmed in
    let digits = leading_digits t in
    elim (Bool-cases (digits == 0)) [
      | inl nothing ↦ absurd (ground (arith, rw nothing at e))
      | inr digit ↦
          sized-bound (take digits t) (power_of (lower_case (trim (drop digits t)))) n
            (rw digit at e)
    ]

pub parse_percent-bound : (t : Text) (n : ℕ) → parse_percent t ≡ some n → n ≤ max_cpu_percent
unfolding parse_percent
parse_percent-bound t n e = let (low, high) = in_range-bounds 0 max_cpu_percent _ n e in high

pub read_limit-bound :
    (read : Text → Option ℕ) (limit : ℕ) (value : Text) (n : ℕ)
    → ((m : ℕ) → read value ≡ some m → m ≤ limit)
    → read_limit read value ≡ some n
    → n ≤ limit
unfolding read_limit
read_limit-bound read limit value n f e = elim (Bool-cases (same_text value (text "none"))) [
  | inl nothing ↦ ground (arith, rw nothing at e)
  | inr size ↦ f n (rw size at e)
]
