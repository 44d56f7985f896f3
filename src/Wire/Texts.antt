-- ===== src/Wire/Texts.antt =====
-- `PutText` and `Text` against a field that holds a text and then NULs, and what `FitUtf8` keeps.
use native.Mathlib.Nat.{sub-zero, zero-sub, suc-sub-suc}
use improved_process_manager.Base.{
  ℕ, zero, suc, ◌+◌, ◌-◌, ◌≤◌, ◌<◌, ◌≡◌, ◌≢◌, refl, sym, ap, ◌∙◌, [], ◌∷◌, ◌++◌, arith, ◌==◌,
  if◌then◌else◌, length, drop, All, length-append, length-take_le, Bytes, Text,
}
use improved_process_manager.Wire.Splice.{
  slice, overwrite, copy_to-overwrite, length-overwrite, overwrite-overwrite,
}
use improved_process_manager.Wire.Writer.{
  zeros, length-zeros, copy_to, back_to_boundary, fit_utf8, put_text,
}
use improved_process_manager.Wire.Reader.{WireReader, text_loop, read_text}
use improved_process_manager.Wire.Words.{Inside, size-Inside, slice_cons}

-- A field of `n` bytes that holds a text.
abbrev pub padded : ℕ → Text → Bytes
padded n t = t ++ zeros (n - length t)

abbrev pub until_nul : Bytes → Text
until_nul [] = []
until_nul (c ∷ cs) = if c == 0 then [] else c ∷ until_nul cs

abbrev pub HasNoNul : Text → Type 0
HasNoNul = All (λ c. c ≢ 0)

pub length-padded : (n : ℕ) (t : Text) → length t ≤ n → length (padded n t) ≡ n
length-padded n t h =
    omega (arith, length-append t (zeros (n - length t)), length-zeros (n - length t))

back_to_boundary-le : (t : Text) (k : ℕ) → back_to_boundary t k ≤ k
unfolding back_to_boundary
back_to_boundary-le t zero = omega arith
back_to_boundary-le t (suc k) = ground (arith, back_to_boundary-le t k)

pub length-fit_utf8 : (t : Text) (n : ℕ) → length (fit_utf8 t n) ≤ n
unfolding fit_utf8
length-fit_utf8 t n =
    ground (arith, back_to_boundary-le t n, length-take_le (back_to_boundary t n) t)

drop-replicate : (k n : ℕ) → drop k (zeros n) ≡ zeros (n - k)
drop-replicate zero n = rw sub-zero
drop-replicate (suc k) zero = rw zero-sub
drop-replicate (suc k) (suc n) = drop-replicate k n ∙ ap zeros (sym (suc-sub-suc n k))

-- Inside the buffer, `PutText` fills its field.
pub put_text_lem :
    (offset n : ℕ) (t : Text) (bytes : Bytes)
    → 0 < n
    → offset + n ≤ length bytes
    → put_text offset n t bytes ≡ overwrite offset (padded n (fit_utf8 t (n - 1))) bytes
put_text_lem offset n t bytes p h = inside ∙ copied
  where
    fitted : Text
    fitted = fit_utf8 t (n - 1)

    short : length fitted < n
    short = omega (arith, length-fit_utf8 t (n - 1))

    inside : put_text offset n t bytes ≡ copy_to offset fitted (copy_to offset (zeros n) bytes)
    inside = unfold put_text in ground arith

    copied :
        copy_to offset fitted (copy_to offset (zeros n) bytes)
        ≡ overwrite offset (padded n fitted) bytes
    copied = rw (copy_to-overwrite offset (zeros n) bytes (omega (arith, length-zeros n))) (
        copy_to-overwrite offset fitted (overwrite offset (zeros n) bytes) (
          omega
            (arith, short, length-overwrite offset (zeros n) bytes (omega (arith, length-zeros n))))
        ∙ overwrite-overwrite offset fitted (zeros n) bytes (omega (arith, short, length-zeros n))
            (omega (arith, length-zeros n))
        ∙ ap (λ xs. overwrite offset (fitted ++ xs) bytes) (drop-replicate (length fitted) n))

text_loop-until_nul :
    (r : WireReader) (at n : ℕ)
    → Inside r
    → 0 < r.part
    → at + n ≤ r.part
    → text_loop r at n ≡ until_nul (slice (r.base + at) n r.bytes)
unfolding text_loop
text_loop-until_nul r at zero inside p h = refl
text_loop-until_nul r at (suc n) inside p h =
    let here = slice_cons (r.base + at) n r.bytes (omega arith) in
    let shift : suc (r.base + at) ≡ r.base + (at + 1) = omega arith in
    rw (here, shift)
      (ground
        (arith, size-Inside r inside p, text_loop-until_nul r (at + 1) n inside p (omega arith)))

until_nul-zeros : (n : ℕ) → until_nul (zeros n) ≡ []
until_nul-zeros zero = refl
until_nul-zeros (suc n) = refl

until_nul-append_zeros : (t : Text) (n : ℕ) → until_nul (t ++ zeros n) ≡ until_nul t
until_nul-append_zeros [] n = until_nul-zeros n
until_nul-append_zeros (c ∷ t) n = ground (arith, until_nul-append_zeros t n)

pub until_nul_self : (t : Text) → HasNoNul t → until_nul t ≡ t
until_nul_self [] h = refl
until_nul_self (c ∷ t) h = ground (arith, until_nul_self t h.1)

-- A text that is stored where `Text` looks is read back up to its first NUL.
pub read_text_lem :
    (r : WireReader) (offset n : ℕ) (t : Text)
    → Inside r
    → 0 < r.part
    → offset + n ≤ r.part
    → slice (r.base + offset) n r.bytes ≡ padded n t
    → read_text r offset n ≡ until_nul t
read_text_lem r offset n t inside p h stored =
    unfold read_text in
    text_loop-until_nul r offset n inside p h
    ∙ ap until_nul stored
    ∙ until_nul-append_zeros t (n - length t)

-- A text as a field of `n` bytes carries it: cut to fit with its NUL, and ended by the first NUL.
abbrev pub carried : ℕ → Text → Text
carried n t = until_nul (fit_utf8 t (n - 1))
