-- ===== src/Wire/Utf8.antt =====
-- About `FitUtf8`, in manager/src/WireWriter.cpp.
use native.Mathlib.Decide.{dec_le}
use improved_process_manager.Base.{
  ℕ, zero, suc, ◌≤◌, ◌<◌, ◌≡◌, refl, ap, ◌∙◌, ◌⊎◌, inl, inr, true, false, arith, length, get_or,
  take, length-take_le, Bool-cases, Text,
}
use improved_process_manager.Wire.Writer.{is_continuation, back_to_boundary, fit_utf8}

back_to_boundary-le : (t : Text) (k : ℕ) → back_to_boundary t k ≤ k
unfolding back_to_boundary
back_to_boundary-le t zero = omega arith
back_to_boundary-le t (suc k) = ground (arith, back_to_boundary-le t k)

back_to_boundary_stops :
    (t : Text) (k : ℕ)
    → (back_to_boundary t k ≡ 0) ⊎ (is_continuation (get_or t (back_to_boundary t k) 0) ≡ false)
unfolding back_to_boundary
back_to_boundary_stops t zero = inl refl
back_to_boundary_stops t (suc k) = elim (Bool-cases (is_continuation (get_or t (suc k) 0))) [
  | inl inside ↦ rw (inside, back_to_boundary) (back_to_boundary_stops t k)
  | inr boundary ↦ rw (boundary, back_to_boundary) (inr boundary)
]

back_to_boundary_skips :
    (t : Text) (k j : ℕ) → back_to_boundary t k < j → j ≤ k → is_continuation (get_or t j 0) ≡ true
unfolding back_to_boundary
back_to_boundary_skips t zero j h l = absurd (omega arith)
back_to_boundary_skips t (suc k) j h l = elim (Bool-cases (is_continuation (get_or t (suc k) 0))) [
  | inl inside ↦ elim (dec_le j k) [
    | yes earlier ↦ back_to_boundary_skips t k j (rw (inside, back_to_boundary) at h) earlier
    | no later ↦ let here : j ≡ suc k = omega arith in rw here inside
  ]
  | inr boundary ↦ absurd (omega (arith, rw (boundary, back_to_boundary) at h))
]

fit_utf8_cut :
    (t : Text) (n : ℕ)
    → n < length t
    → (fit_utf8 t n ≡ take (back_to_boundary t n) t)
      × (length (fit_utf8 t n) ≡ back_to_boundary t n)
fit_utf8_cut t n h =
    let cut : fit_utf8 t n ≡ take (back_to_boundary t n) t = unfold fit_utf8 in ground arith in
    (
      cut,
      ap length cut
          ∙ length-take_le (back_to_boundary t n) t (omega (arith, back_to_boundary-le t n)),
    )

-- A text of more than `n` bytes is cut to a prefix of at most `n` bytes, and the byte behind the
-- prefix does not continue a character, unless the prefix is empty.
pub fit_utf8_lem :
    (t : Text) (n : ℕ)
    → n < length t
    → (fit_utf8 t n ≡ take (length (fit_utf8 t n)) t)
      × (length (fit_utf8 t n) ≤ n)
      × ((length (fit_utf8 t n) ≡ 0)
          ⊎ (is_continuation (get_or t (length (fit_utf8 t n)) 0) ≡ false))
fit_utf8_lem t n h =
    let (cut, size) = fit_utf8_cut t n h in
    rw size (cut, back_to_boundary-le t n, back_to_boundary_stops t n)

-- The cut of a text of more than `n` bytes is the longest possible: any place up to `n` where no
-- character is split is inside the prefix or at its end.
pub fit_utf8_longest :
    (t : Text) (n j : ℕ)
    → n < length t
    → j ≤ n
    → is_continuation (get_or t j 0) ≡ false
    → j ≤ length (fit_utf8 t n)
fit_utf8_longest t n j h l boundary =
    let (cut, size) = fit_utf8_cut t n h in
    elim (dec_le j (back_to_boundary t n)) [
      | yes before ↦ omega (arith, size)
      | no after ↦
          let inside = back_to_boundary_skips t n j (omega arith) l in absurd (ground arith)
    ]
