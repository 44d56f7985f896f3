-- ===== src/Reports/Fitting.antt =====
-- Names of services in the fields of the reports (manager/src/ServiceConfig.cpp and WireWriter.cpp).
use improved_process_manager.Base.{
  ℕ, ◌-◌, ◌≤◌, ◌≡◌, ap, ◌∙◌, true, [], ◌∷◌, arith, inl, inr, length, Text, Bool-cases,
}
use improved_process_manager.Config.{
  is_name_character, name_characters, is_valid_service_name, max_service_name_length,
}
use improved_process_manager.Wire.Texts.{HasNoNul, until_nul, until_nul_self, carried}
use improved_process_manager.Wire.Writer.{fit_utf8}

name_characters-HasNoNul : (t : Text) → name_characters t ≡ true → HasNoNul t
unfolding name_characters is_name_character
name_characters-HasNoNul [] h = tt
name_characters-HasNoNul (c ∷ cs) h = elim (Bool-cases (is_name_character c)) [
  | inl good ↦ ((λ e. ground (arith, rw e at good)), name_characters-HasNoNul cs (rw good at h))
  | inr bad ↦ absurd (ground (arith, rw bad at h))
]

fit_utf8_short : (t : Text) (n : ℕ) → length t ≤ n → fit_utf8 t n ≡ t
unfolding fit_utf8
fit_utf8_short t n h = ground arith

is_valid-parts :
    (t : Text)
    → is_valid_service_name t ≡ true
    → (length t ≤ max_service_name_length) × (name_characters t ≡ true)
unfolding is_valid_service_name
is_valid-parts t h = ground arith

-- A valid name is carried whole by a field of at least 32 bytes.
pub carried-is_valid_service_name :
    (n : ℕ) (t : Text) → 32 ≤ n → is_valid_service_name t ≡ true → carried n t ≡ t
carried-is_valid_service_name n t room h =
    let (short, good) = is_valid-parts t h in
    ap until_nul (fit_utf8_short t (n - 1) (omega arith))
    ∙ until_nul_self t (name_characters-HasNoNul t good)
