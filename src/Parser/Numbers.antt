-- ===== src/Parser/Numbers.antt =====
-- Numbers as `std::to_string` writes them and `ParseInteger` of manager/src/ConfigParser.cpp reads them.
use improved_process_manager.Base.{
  ℕ, zero, suc, ◌+◌, ◌-◌, ◌*◌, ◌/◌, ◌%◌, ◌^◌, ◌≤◌, ◌<◌, true, false, [], ◌∷◌, ◌++◌, some, ltb, ◌==◌,
  ◌≡◌, refl, sym, ap, ◌∙◌, arith, inl, inr, append_assoc, append-nil, pos, Text, Bool-cases,
  to_string, digits_of,
}
use improved_process_manager.Parser.Values.{
  is_digit, read_digits, read_natural, int64_of, parse_integer, in_range,
}
use improved_process_manager.Parser.Keys.{read_number, require}
use improved_process_manager.Parser.{parsed}

read_digits-end : (n : ℕ) → read_digits n [] ≡ some n
unfolding read_digits
read_digits-end n = refl

read_digits-digits_of :
    (fuel n : ℕ) (u : Text) → n < fuel → read_digits 0 (digits_of fuel n ++ u) ≡ read_digits n u
unfolding read_digits digits_of
read_digits-digits_of zero n u enough = absurd (omega arith)
read_digits-digits_of (suc fuel) n u enough = elim (Bool-cases (ltb n 10)) [
  | inl small ↦
      let digit : is_digit (b'0' + n) ≡ true = ground arith in
      let value : 0 * 10 + (b'0' + n - b'0') ≡ n = omega arith in rw (small, digit, value) refl
  | inr large ↦
      let d = b'0' + n % 10 in
      let digit : is_digit d ≡ true = ground arith in
      let value : n / 10 * 10 + (d - b'0') ≡ n = omega arith in
      let more = read_digits-digits_of fuel (n / 10) (d ∷ u) (ground arith) in
      rw (large, append_assoc (digits_of fuel (n / 10)) (d ∷ []) u, more, digit, value) refl
]

snoc-cons : (t : Text) (c : ℕ) → (d : ℕ) × (u : Text) × (t ++ c ∷ [] ≡ d ∷ u)
snoc-cons [] c = (c, [], refl)
snoc-cons (x ∷ xs) c = (x, xs ++ c ∷ [], refl)

digits_of-cons : (fuel n : ℕ) → (d : ℕ) × (u : Text) × (digits_of (suc fuel) n ≡ d ∷ u)
unfolding digits_of
digits_of-cons fuel n = elim (Bool-cases (ltb n 10)) [
  | inl small ↦ (b'0' + n, [], rw small refl)
  | inr large ↦ rw large (snoc-cons (digits_of fuel (n / 10)) (b'0' + n % 10))
]

read_digits-digit :
    (c : ℕ) (cs : Text) (n : ℕ) → read_digits 0 (c ∷ cs) ≡ some n → is_digit c ≡ true
unfolding read_digits
read_digits-digit c cs n e = elim (Bool-cases (is_digit c)) [
  | inl digit ↦ digit
  | inr other ↦ absurd (ground (arith, rw other at e))
]

parse_integer-natural :
    (c : ℕ) (cs : Text) (n : ℕ)
    → read_digits 0 (c ∷ cs) ≡ some n
    → parse_integer (c ∷ cs) ≡ int64_of false (some n)
unfolding parse_integer read_natural
parse_integer-natural c cs n e =
    let digit = read_digits-digit c cs n e in
    let plus : (c == b'-') ≡ false = ground arith in rw (plus, e) refl

-- A number below 2^63 is read back from its decimal digits.
pub parse_integer-to_string : (n : ℕ) → n < 2 ^ 63 → parse_integer (to_string n) ≡ some (pos n)
unfolding to_string int64_of
parse_integer-to_string n small =
    let (c, cs, e) = digits_of-cons n n in
    let whole = read_digits-digits_of (suc n) n [] (omega arith) in
    let read : read_digits 0 (c ∷ cs) ≡ read_digits n [] =
      sym (ap (read_digits 0) (append-nil (digits_of (suc n) n) ∙ e)) ∙ whole in
    let ended : read_digits n [] ≡ some n = read_digits-end n in
    let fits : int64_of false (some n) ≡ some (pos n) = ground arith in
    rw e (parse_integer-natural c cs n (read ∙ ended) ∙ fits)

-- A number in its range is read back from its decimal digits.
pub read_number-to_string :
    (key : Text) (n line minimum maximum : ℕ)
    → minimum ≤ n
    → n ≤ maximum
    → maximum < 2 ^ 63
    → read_number key (to_string n) line minimum maximum ≡ parsed n
unfolding read_number in_range require
read_number-to_string key n line minimum maximum low high small =
    let below : ltb n minimum ≡ false = ground arith in
    let above : ltb maximum n ≡ false = ground arith in
    rw (parse_integer-to_string n (omega arith), below, above) refl
