-- ===== src/Wire/Splice.antt =====
-- A write at an offset as the replacement of a slice, and what a slice then holds.
use improved_process_manager.Base.{
  ℕ, zero, suc, ◌+◌, ◌≤◌, ◌≡◌, refl, sym, ap, ◌∙◌, ◌⊎◌, inl, inr, [], ◌∷◌, ◌++◌, arith, length, set,
  take, drop, append-nil, append_assoc, length-set, length-append, length-drop, take-length, Bytes,
}
use improved_process_manager.Wire.Writer.{copy_to}

abbrev pub slice : ℕ → ℕ → Bytes → Bytes
slice offset n bytes = take n (drop offset bytes)

pub overwrite : ℕ → Bytes → Bytes → Bytes
overwrite zero xs bytes = xs ++ drop (length xs) bytes
overwrite (suc o) xs [] = []
overwrite (suc o) xs (b ∷ bytes) = b ∷ overwrite o xs bytes

copy_to-cons :
    (o : ℕ) (xs : Bytes) (b : ℕ) (bytes : Bytes)
    → copy_to (suc o) xs (b ∷ bytes) ≡ b ∷ copy_to o xs bytes
unfolding copy_to
copy_to-cons o [] b bytes = refl
copy_to-cons o (x ∷ xs) b bytes =
    let shift : suc o + 1 ≡ suc (o + 1) = omega arith in
    rw shift (copy_to-cons (o + 1) xs b (set bytes o x))

copy_to-zero :
    (xs bytes : Bytes)
    → length xs ≤ length bytes
    → copy_to 0 xs bytes ≡ xs ++ drop (length xs) bytes
unfolding copy_to
copy_to-zero [] bytes h = refl
copy_to-zero (x ∷ xs) [] h = absurd (omega arith)
copy_to-zero (x ∷ xs) (b ∷ bytes) h =
    copy_to-cons 0 xs x bytes ∙ ap (◌∷◌ x) (copy_to-zero xs bytes (omega arith))

pub copy_to-overwrite :
    (o : ℕ) (xs bytes : Bytes)
    → o + length xs ≤ length bytes
    → copy_to o xs bytes ≡ overwrite o xs bytes
unfolding overwrite
copy_to-overwrite zero xs bytes h = copy_to-zero xs bytes (omega arith)
copy_to-overwrite (suc o) xs [] h = absurd (omega arith)
copy_to-overwrite (suc o) xs (b ∷ bytes) h =
    copy_to-cons o xs b bytes ∙ ap (◌∷◌ b) (copy_to-overwrite o xs bytes (omega arith))

pub length-copy_to : (o : ℕ) (xs bytes : Bytes) → length (copy_to o xs bytes) ≡ length bytes
unfolding copy_to
length-copy_to o [] bytes = refl
length-copy_to o (x ∷ xs) bytes = length-copy_to (o + 1) xs (set bytes o x) ∙ length-set bytes o x

pub length-overwrite :
    (o : ℕ) (xs bytes : Bytes)
    → o + length xs ≤ length bytes
    → length (overwrite o xs bytes) ≡ length bytes
length-overwrite o xs bytes h =
    ap length (sym (copy_to-overwrite o xs bytes h)) ∙ length-copy_to o xs bytes

-- The slice that was written.
pub slice-overwrite_self :
    (o : ℕ) (xs bytes : Bytes)
    → o + length xs ≤ length bytes
    → slice o (length xs) (overwrite o xs bytes) ≡ xs
unfolding overwrite
slice-overwrite_self zero xs bytes h = take-length xs (drop (length xs) bytes)
slice-overwrite_self (suc o) xs [] h = absurd (omega arith)
slice-overwrite_self (suc o) xs (b ∷ bytes) h = slice-overwrite_self o xs bytes (omega arith)

take-overwrite : (n o : ℕ) (xs bytes : Bytes) → n ≤ o → take n (overwrite o xs bytes) ≡ take n bytes
unfolding overwrite
take-overwrite zero o xs bytes h = refl
take-overwrite (suc n) zero xs bytes h = absurd (omega arith)
take-overwrite (suc n) (suc o) xs [] h = refl
take-overwrite (suc n) (suc o) xs (b ∷ bytes) h =
    ap (◌∷◌ b) (take-overwrite n o xs bytes (omega arith))

drop_past : (n : ℕ) (xs : Bytes) → length xs ≤ n → drop n xs ≡ []
drop_past zero [] h = refl
drop_past zero (x ∷ xs) h = absurd (omega arith)
drop_past (suc n) [] h = refl
drop_past (suc n) (x ∷ xs) h = drop_past n xs (omega arith)

drop-append_le :
    (n : ℕ) (xs ys : Bytes) → length xs ≤ n → drop n (xs ++ drop (length xs) ys) ≡ drop n ys
drop-append_le n [] ys h = refl
drop-append_le zero (x ∷ xs) ys h = absurd (omega arith)
drop-append_le (suc n) (x ∷ xs) [] h = rw append-nil (drop_past n xs (omega arith))
drop-append_le (suc n) (x ∷ xs) (y ∷ ys) h = drop-append_le n xs ys (omega arith)

drop-overwrite :
    (p o : ℕ) (xs bytes : Bytes) → o + length xs ≤ p → drop p (overwrite o xs bytes) ≡ drop p bytes
unfolding overwrite
drop-overwrite p zero xs bytes h = drop-append_le p xs bytes (omega arith)
drop-overwrite zero (suc o) xs bytes h = absurd (omega arith)
drop-overwrite (suc p) (suc o) xs [] h = refl
drop-overwrite (suc p) (suc o) xs (b ∷ bytes) h = drop-overwrite p o xs bytes (omega arith)

-- A slice before the write is unchanged.
slice-overwrite_before :
    (p n o : ℕ) (xs bytes : Bytes) → p + n ≤ o → slice p n (overwrite o xs bytes) ≡ slice p n bytes
unfolding overwrite
slice-overwrite_before zero n o xs bytes h = take-overwrite n o xs bytes (omega arith)
slice-overwrite_before (suc p) n zero xs bytes h = absurd (omega arith)
slice-overwrite_before (suc p) n (suc o) xs [] h = refl
slice-overwrite_before (suc p) n (suc o) xs (b ∷ bytes) h =
    slice-overwrite_before p n o xs bytes (omega arith)

-- A slice apart from the write is unchanged.
pub slice-overwrite_apart :
    (p n o : ℕ) (xs bytes : Bytes)
    → ((p + n ≤ o) ⊎ (o + length xs ≤ p))
    → slice p n (overwrite o xs bytes) ≡ slice p n bytes
slice-overwrite_apart p n o xs bytes (inl h) = slice-overwrite_before p n o xs bytes h
slice-overwrite_apart p n o xs bytes (inr h) = ap (take n) (drop-overwrite p o xs bytes h)

drop-append_inside : (k : ℕ) (zs ws : Bytes) → k ≤ length zs → drop k (zs ++ ws) ≡ drop k zs ++ ws
drop-append_inside zero zs ws h = refl
drop-append_inside (suc k) [] ws h = absurd (omega arith)
drop-append_inside (suc k) (z ∷ zs) ws h = drop-append_inside k zs ws (omega arith)

-- A shorter write over a longer one.
pub overwrite-overwrite :
    (o : ℕ) (xs zs bytes : Bytes)
    → length xs ≤ length zs
    → o + length zs ≤ length bytes
    → overwrite o xs (overwrite o zs bytes) ≡ overwrite o (xs ++ drop (length xs) zs) bytes
unfolding overwrite
overwrite-overwrite zero xs zs bytes h k =
    let whole : length (xs ++ drop (length xs) zs) ≡ length zs =
      omega (arith, length-append xs (drop (length xs) zs), length-drop (length xs) zs) in
    rw (whole, append_assoc xs (drop (length xs) zs))
      (ap (λ ws. xs ++ ws) (drop-append_inside (length xs) zs (drop (length zs) bytes) h))
overwrite-overwrite (suc o) xs zs [] h k = refl
overwrite-overwrite (suc o) xs zs (b ∷ bytes) h k =
    ap (◌∷◌ b) (overwrite-overwrite o xs zs bytes h (omega arith))
