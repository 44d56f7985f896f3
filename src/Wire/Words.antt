-- ===== src/Wire/Words.antt =====
-- The loops of `PutBytes` and `GetBytes` against the bytes of a word, lowest first.
use native.Mathlib.Nat.{one-le-pow, add-zero, zero-add, mod-lt, mod-one}
use native.Mathlib.Numerals.{towards_suc}
use improved_process_manager.Base.{
  ℕ, zero, suc, ◌+◌, ◌*◌, ◌/◌, ◌%◌, ◌^◌, ◌≤◌, ◌<◌, bit_or, ◌≡◌, refl, sym, ap, ◌∙◌, [], ◌∷◌, arith,
  length, get_or, Bytes,
}
use improved_process_manager.Wire.Bits.{bit_or_shifted, mod_next_byte}
use improved_process_manager.Wire.Splice.{slice, overwrite, copy_to-overwrite}
use improved_process_manager.Wire.Writer.{copy_to, put_loop, put_bytes}
use improved_process_manager.Wire.Reader.{WireReader, size, get_loop, get_bytes}

word_bytes_from : ℕ → ℕ → ℕ → Bytes
word_bytes_from value i zero = []
word_bytes_from value i (suc n) = (value / 2 ^ (8 * i) % 256) ∷ word_bytes_from value (i + 1) n

pub word_bytes : ℕ → ℕ → Bytes
word_bytes value count = word_bytes_from value 0 count

length-word_bytes_from : (value i n : ℕ) → length (word_bytes_from value i n) ≡ n
unfolding word_bytes_from
length-word_bytes_from value i zero = refl
length-word_bytes_from value i (suc n) = ap suc (length-word_bytes_from value (i + 1) n)

pub length-word_bytes : (value n : ℕ) → length (word_bytes value n) ≡ n
unfolding word_bytes
length-word_bytes value n = length-word_bytes_from value 0 n

put_loop-copy_to :
    (offset value i n : ℕ) (bytes : Bytes)
    → put_loop offset value i n bytes ≡ copy_to (offset + i) (word_bytes_from value i n) bytes
unfolding put_loop copy_to word_bytes_from
put_loop-copy_to offset value i zero bytes = refl
put_loop-copy_to offset value i (suc n) bytes =
    let shift : offset + i + 1 ≡ offset + (i + 1) = omega arith in
    rw (shift, copy_to) (put_loop-copy_to offset value (i + 1) n _)

-- Inside the buffer, `PutBytes` writes the bytes of the word.
pub put_bytes_lem :
    (offset value count : ℕ) (bytes : Bytes)
    → offset + count ≤ length bytes
    → put_bytes offset value count bytes ≡ overwrite offset (word_bytes value count) bytes
put_bytes_lem offset value count bytes h = inside ∙ loop
  where
    inside : put_bytes offset value count bytes ≡ put_loop offset value 0 count bytes
    inside = unfold put_bytes in ground arith

    loop : put_loop offset value 0 count bytes ≡ overwrite offset (word_bytes value count) bytes
    loop =
        put_loop-copy_to offset value 0 count bytes
        ∙ rw add-zero (
            unfold word_bytes in
            copy_to-overwrite offset (word_bytes value count) bytes
              (omega (arith, length-word_bytes value count)))

-- The sum that `GetBytes` builds from round `i` on.
word_of : ℕ → Bytes → ℕ → ℕ
word_of i [] value = value
word_of i (b ∷ bs) value = word_of (i + 1) bs (bit_or value (b * 2 ^ (8 * i)))

pub slice_cons :
    (p n : ℕ) (bytes : Bytes)
    → p < length bytes
    → slice p (suc n) bytes ≡ get_or bytes p 0 ∷ slice (suc p) n bytes
slice_cons p n [] h = absurd (omega arith)
slice_cons zero n (b ∷ bytes) h = refl
slice_cons (suc p) n (b ∷ bytes) h = slice_cons p n bytes (omega arith)

get_loop-word_of :
    (r : WireReader) (offset i n value : ℕ)
    → r.base + offset + i + n ≤ length r.bytes
    → get_loop r offset i n value ≡ word_of i (slice (r.base + offset + i) n r.bytes) value
unfolding get_loop word_of
get_loop-word_of r offset i zero value h = refl
get_loop-word_of r offset i (suc n) value h =
    let shift : suc (r.base + offset + i) ≡ r.base + offset + (i + 1) = omega arith in
    rw (slice_cons (r.base + offset + i) n r.bytes (omega arith), shift)
      (get_loop-word_of r offset (i + 1) n _ (omega arith))

pow_next : (i : ℕ) → 2 ^ (8 * (i + 1)) ≡ 2 ^ (8 * i) * 256
pow_next i = let e : 8 * (i + 1) ≡ 8 * i + 8 = omega arith in rw e (simp towards_suc (omega arith))

word_of-word_bytes_from :
    (value i n : ℕ)
    → word_of i (word_bytes_from value i n) (value % 2 ^ (8 * i)) ≡ value % 2 ^ (8 * (i + n))
unfolding word_of word_bytes_from
word_of-word_bytes_from value i zero = rw add-zero
word_of-word_bytes_from value i (suc n) =
    let positive : 0 < 2 ^ (8 * i) = one-le-pow (8 * i) 2 (omega arith) in
    let joined : bit_or (value % 2 ^ (8 * i)) (value / 2 ^ (8 * i) % 256 * 2 ^ (8 * i))
        ≡ value % 2 ^ (8 * (i + 1)) =
      bit_or_shifted (8 * i) _ _ (mod-lt value positive)
      ∙ mod_next_byte value (2 ^ (8 * i)) positive
      ∙ ap (λ t. value % t) (sym (pow_next i)) in
    let shift : i + suc n ≡ i + 1 + n = omega arith in
    rw shift (
      ap (word_of (i + 1) (word_bytes_from value (i + 1) n)) joined
      ∙ word_of-word_bytes_from value (i + 1) n)

-- A reader whose part lies in its buffer.
abbrev pub Inside : WireReader → Type 0
Inside r = r.base + r.part ≤ length r.bytes

pub size-Inside : (r : WireReader) → Inside r → 0 < r.part → size r ≡ r.part
unfolding size
size-Inside r h p = ground arith

-- A word that is stored where `GetBytes` looks is read back, as far as it fits its bytes.
pub get_bytes_lem :
    (r : WireReader) (offset value count : ℕ)
    → Inside r
    → 0 < count
    → offset + count ≤ r.part
    → slice (r.base + offset) count r.bytes ≡ word_bytes value count
    → get_bytes r offset count ≡ value % 2 ^ (8 * count)
get_bytes_lem r offset value count inside p h stored = bounded ∙ loop ∙ sum
  where
    bounded : get_bytes r offset count ≡ get_loop r offset 0 count 0
    bounded = unfold get_bytes in ground (arith, size-Inside r inside (omega arith))

    loop : get_loop r offset 0 count 0 ≡ word_of 0 (slice (r.base + offset) count r.bytes) 0
    loop = get_loop-word_of r offset 0 count 0 (omega arith) ∙ rw add-zero

    sum : word_of 0 (slice (r.base + offset) count r.bytes) 0 ≡ value % 2 ^ (8 * count)
    sum = rw stored (
        unfold word_bytes in
        ap (word_of 0 (word_bytes value count)) (sym (mod-one value))
        ∙ word_of-word_bytes_from value 0 count
        ∙ ap (λ k. value % 2 ^ (8 * k)) (zero-add count))
