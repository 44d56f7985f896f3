-- ===== src/Wire/Fields.antt =====
-- A fixed layout as a list of fields.
use improved_process_manager.Base.{
  ℕ, zero, suc, ◌+◌, ◌-◌, ◌*◌, ◌%◌, ◌^◌, ◌≤◌, ◌<◌, ◌≡◌, refl, ap, subst, ◌∙◌, ◌⊎◌, Bool, true, ◌&&◌,
  ◌||◌, List, [], ◌∷◌, some, arith, ltb, leb, length, get_elem?, and_true, Bytes, Text,
}
use improved_process_manager.Wire.Splice.{
  slice, overwrite, length-overwrite, slice-overwrite_self, slice-overwrite_apart,
}
use improved_process_manager.Wire.Writer.{put_bytes, put_text, fit_utf8}
use improved_process_manager.Wire.Reader.{WireReader, get_bytes, read_text}
use improved_process_manager.Wire.Words.{
  Inside, word_bytes, length-word_bytes, put_bytes_lem, get_bytes_lem,
}
use improved_process_manager.Wire.Texts.{
  padded, until_nul, length-padded, length-fit_utf8, put_text_lem, read_text_lem,
}

-- A word of some bytes, or a text in a field, at an offset.
pub data Field : Type 0 where
  word : ℕ → ℕ → ℕ → Field
  label : ℕ → ℕ → Text → Field

abbrev pub at : Field → ℕ
at (word o n v) = o
at (label o n t) = o

abbrev pub extent : Field → ℕ
extent (word o n v) = n
extent (label o n t) = n

pub contents : Field → Bytes
contents (word o n v) = word_bytes v n
contents (label o n t) = padded n (fit_utf8 t (n - 1))

abbrev pub write_field : ℕ → Field → Bytes → Bytes
write_field base (word o n v) = put_bytes (base + o) v n
write_field base (label o n t) = put_text (base + o) n t

abbrev pub write_all : ℕ → List Field → Bytes → Bytes
write_all base [] bytes = bytes
write_all base (f ∷ fs) bytes = write_all base fs (write_field base f bytes)

abbrev pub apart : ℕ → ℕ → List Field → Bool
apart p n [] = true
apart p n (f ∷ fs) = (leb (p + n) (at f) || leb (at f + extent f) p) && apart p n fs

-- Every field is inside the record, not empty, and apart from those behind it.
abbrev pub is_layout : ℕ → List Field → Bool
is_layout total [] = true
is_layout total (f ∷ fs) =
    (ltb 0 (extent f) && leb (at f + extent f) total)
    && (apart (at f) (extent f) fs && is_layout total fs)

length-contents : (f : Field) → 0 < extent f → length (contents f) ≡ extent f
unfolding contents
length-contents (word o n v) h = length-word_bytes v n
length-contents (label o n t) h =
    length-padded n (fit_utf8 t (n - 1)) (omega (arith, length-fit_utf8 t (n - 1)))

write_field_lem :
    (base : ℕ) (f : Field) (bytes : Bytes)
    → 0 < extent f
    → base + at f + extent f ≤ length bytes
    → write_field base f bytes ≡ overwrite (base + at f) (contents f) bytes
unfolding contents
write_field_lem base (word o n v) bytes p h = put_bytes_lem (base + o) v n bytes h
write_field_lem base (label o n t) bytes p h = put_text_lem (base + o) n t bytes p h

length-write_field :
    (base : ℕ) (f : Field) (bytes : Bytes)
    → 0 < extent f
    → base + at f + extent f ≤ length bytes
    → length (write_field base f bytes) ≡ length bytes
length-write_field base f bytes p h =
    ap length (write_field_lem base f bytes p h)
    ∙ length-overwrite (base + at f) (contents f) bytes (omega (arith, length-contents f p))

slice-write_field_apart :
    (p n base : ℕ) (f : Field) (bytes : Bytes)
    → 0 < extent f
    → base + at f + extent f ≤ length bytes
    → ((p + n ≤ base + at f) ⊎ (base + at f + extent f ≤ p))
    → slice p n (write_field base f bytes) ≡ slice p n bytes
slice-write_field_apart p n base f bytes e h d =
    ap (slice p n) (write_field_lem base f bytes e h)
    ∙ slice-overwrite_apart p n (base + at f) (contents f) bytes (rw (length-contents f e) d)

-- The parts of a layout test.
record Head (total : ℕ) (f : Field) (fs : List Field) : Type 0 where
  positive : 0 < extent f
  within : at f + extent f ≤ total
  distinct : apart (at f) (extent f) fs ≡ true
  rest : is_layout total fs ≡ true

is_layout-Head :
    (total : ℕ) (f : Field) (fs : List Field) → is_layout total (f ∷ fs) ≡ true → Head total f fs
is_layout-Head total f fs h = record {
  positive = ground arith;
  within = ground arith;
  distinct = ground arith;
  rest = ground arith;
}

module _ (total base : ℕ) where
  pub length-write_all :
      (fs : List Field) (bytes : Bytes)
      → is_layout total fs ≡ true
      → base + total ≤ length bytes
      → length (write_all base fs bytes) ≡ length bytes
  length-write_all [] bytes l h = refl
  length-write_all (f ∷ fs) bytes l h =
      let d = is_layout-Head total f fs l in
      let same = length-write_field base f bytes d.positive (omega arith) in
      length-write_all fs (write_field base f bytes) d.rest (omega (arith, same)) ∙ same

  -- What lies outside the record is left alone.
  pub slice-write_all_outside :
      (p n : ℕ) (fs : List Field) (bytes : Bytes)
      → is_layout total fs ≡ true
      → base + total ≤ length bytes
      → ((p + n ≤ base) ⊎ (base + total ≤ p))
      → slice p n (write_all base fs bytes) ≡ slice p n bytes
  slice-write_all_outside p n [] bytes l h o = refl
  slice-write_all_outside p n (f ∷ fs) bytes l h o =
      let d = is_layout-Head total f fs l in
      let same = length-write_field base f bytes d.positive (omega arith) in
      slice-write_all_outside p n fs (write_field base f bytes) d.rest (omega (arith, same)) o
      ∙ slice-write_field_apart p n base f bytes d.positive (omega arith) (omega arith)

  slice-write_all-apart :
      (p n : ℕ) (fs : List Field) (bytes : Bytes)
      → is_layout total fs ≡ true
      → base + total ≤ length bytes
      → apart p n fs ≡ true
      → slice (base + p) n (write_all base fs bytes) ≡ slice (base + p) n bytes
  slice-write_all-apart p n [] bytes l h o = refl
  slice-write_all-apart p n (f ∷ fs) bytes l h o =
      let d = is_layout-Head total f fs l in
      let same = length-write_field base f bytes d.positive (omega arith) in
      slice-write_all-apart p n fs (write_field base f bytes) d.rest (omega (arith, same))
        (and_true o).1
      ∙ slice-write_field_apart (base + p) n base f bytes d.positive (omega arith) (ground arith)

  -- Field `i` holds its contents when all are written.
  slice-write_all :
      (i : ℕ) (fs : List Field) (f : Field) (bytes : Bytes)
      → is_layout total fs ≡ true
      → base + total ≤ length bytes
      → get_elem? fs i ≡ some f
      → slice (base + at f) (extent f) (write_all base fs bytes) ≡ contents f
  slice-write_all i [] f bytes l h e = cc
  slice-write_all zero (g ∷ fs) f bytes l h e =
      let d = is_layout-Head total g fs l in
      let same = length-write_field base g bytes d.positive (omega arith) in
      let sized = length-contents g d.positive in
      subst
        (λ f.
          slice (base + at f) (extent f) (write_all base fs (write_field base g bytes))
          ≡ contents f)
        {x = g} (ground arith)
        (slice-write_all-apart (at g) (extent g) fs (write_field base g bytes) d.rest
            (omega (arith, same)) d.distinct
          ∙ ap (slice (base + at g) (extent g))
              (write_field_lem base g bytes d.positive (omega arith))
          ∙ rw (← sized)
              (slice-overwrite_self (base + at g) (contents g) bytes (omega (arith, sized))))
  slice-write_all (suc i) (g ∷ fs) f bytes l h e =
      let d = is_layout-Head total g fs l in
      let same = length-write_field base g bytes d.positive (omega arith) in
      slice-write_all i fs f (write_field base g bytes) d.rest (omega (arith, same)) e

-- A buffer holds a record at `base`: each field has its contents.
abbrev pub Holds : ℕ → List Field → Bytes → Type 0
Holds base fs bytes =
    (i : ℕ) (f : Field)
    → get_elem? fs i ≡ some f
    → slice (base + at f) (extent f) bytes ≡ contents f

pub write_all-Holds :
    (total base : ℕ) (fs : List Field) (bytes : Bytes)
    → is_layout total fs ≡ true
    → base + total ≤ length bytes
    → Holds base fs (write_all base fs bytes)
write_all-Holds total base fs bytes l h i f e = slice-write_all total base i fs f bytes l h e

-- Fields of a record that a reader stands on.
module _ (r : WireReader) (fs : List Field) (inside : Inside r)
    (holds : Holds r.base fs r.bytes) where
  pub get_bytes-field :
      (i o n v : ℕ)
      → get_elem? fs i ≡ some (word o n v)
      → 0 < n
      → o + n ≤ r.part
      → get_bytes r o n ≡ v % 2 ^ (8 * n)
  unfolding contents
  get_bytes-field i o n v e p h = get_bytes_lem r o v n inside p h (holds i (word o n v) e)

  pub read_text-field :
      (i o n : ℕ) (t : Text)
      → get_elem? fs i ≡ some (label o n t)
      → 0 < n
      → o + n ≤ r.part
      → read_text r o n ≡ until_nul (fit_utf8 t (n - 1))
  unfolding contents
  read_text-field i o n t e p h =
      read_text_lem r o n (fit_utf8 t (n - 1)) inside (omega arith) h (holds i (label o n t) e)

pub is_layout-within :
    (total i : ℕ) (fs : List Field) (f : Field)
    → is_layout total fs ≡ true
    → get_elem? fs i ≡ some f
    → at f + extent f ≤ total
is_layout-within total i [] f l e = cc
is_layout-within total zero (g ∷ fs) f l e =
    subst (λ f. at f + extent f ≤ total) {x = g} {y = f} (ground arith)
      (is_layout-Head total g fs l).within
is_layout-within total (suc i) (g ∷ fs) f l e =
    is_layout-within total i fs f (is_layout-Head total g fs l).rest e
