-- ===== src/Wire/Rows.antt =====
-- Records of one layout back to back, as the loops of the reports write them.
use improved_process_manager.Base.{
  ℕ, ◌+◌, ◌*◌, ◌≤◌, ◌≡◌, refl, inl, ◌∙◌, true, List, [], ◌∷◌, arith, length, Bytes,
}
use improved_process_manager.Wire.Fields.{
  Field, at, extent, is_layout, write_all, length-write_all, slice-write_all_outside, Holds,
  write_all-Holds, is_layout-within,
}
use improved_process_manager.Wire.Splice.{slice}

-- The same bytes up to a limit.
abbrev pub AgreeBelow : ℕ → Bytes → Bytes → Type 0
AgreeBelow limit a b = (p n : ℕ) → p + n ≤ limit → slice p n a ≡ slice p n b

module _ {A : Type 0} (total : ℕ) (fields : A → List Field)
    (layout : (a : A) → is_layout total (fields a) ≡ true) where
  abbrev pub write_rows : ℕ → List A → Bytes → Bytes
  write_rows base [] bytes = bytes
  write_rows base (a ∷ rows) bytes =
      write_rows (base + total) rows (write_all base (fields a) bytes)

  abbrev pub HoldsRows : ℕ → List A → Bytes → Type 0
  HoldsRows base [] bytes = Unit {0}
  HoldsRows base (a ∷ rows) bytes =
      Holds base (fields a) bytes × HoldsRows (base + total) rows bytes

  pub length-write_rows :
      (base : ℕ) (rows : List A) (bytes : Bytes)
      → base + length rows * total ≤ length bytes
      → length (write_rows base rows bytes) ≡ length bytes
  length-write_rows base [] bytes h = refl
  length-write_rows base (a ∷ rows) bytes h =
      let same = length-write_all total base (fields a) bytes (layout a) (ground arith) in
      length-write_rows (base + total) rows (write_all base (fields a) bytes) (ground (arith, same))
      ∙ same

  pub write_rows-AgreeBelow :
      (base : ℕ) (rows : List A) (bytes : Bytes)
      → base + length rows * total ≤ length bytes
      → AgreeBelow base (write_rows base rows bytes) bytes
  write_rows-AgreeBelow base [] bytes h p n before = refl
  write_rows-AgreeBelow base (a ∷ rows) bytes h p n before =
      let same = length-write_all total base (fields a) bytes (layout a) (ground arith) in
      write_rows-AgreeBelow (base + total) rows (write_all base (fields a) bytes)
        (ground (arith, same)) p n (omega arith)
      ∙ slice-write_all_outside total base p n (fields a) bytes (layout a) (ground arith)
          (inl before)

  pub HoldsRows-kept :
      (base : ℕ) (rows : List A) (a b : Bytes)
      → AgreeBelow (base + length rows * total) a b
      → HoldsRows base rows b
      → HoldsRows base rows a
  HoldsRows-kept base [] a b agree h = tt
  HoldsRows-kept base (r ∷ rows) a b agree (one, rest) = (
    λ i f e.
        agree (base + at f) (extent f)
          (ground (arith, is_layout-within total i (fields r) f (layout r) e))
        ∙ one i f e,
    HoldsRows-kept (base + total) rows a b (λ p n h. agree p n (ground arith)) rest,
  )

  pub write_rows-HoldsRows :
      (base : ℕ) (rows : List A) (bytes : Bytes)
      → base + length rows * total ≤ length bytes
      → HoldsRows base rows (write_rows base rows bytes)
  write_rows-HoldsRows base [] bytes h = tt
  write_rows-HoldsRows base (a ∷ rows) bytes h =
      let first = write_all base (fields a) bytes in
      let same = length-write_all total base (fields a) bytes (layout a) (ground arith) in
      let room : base + total + length rows * total ≤ length first = ground (arith, same) in
      (
        λ i f e.
            write_rows-AgreeBelow (base + total) rows first room (base + at f) (extent f)
              (omega (arith, is_layout-within total i (fields a) f (layout a) e))
            ∙ write_all-Holds total base (fields a) bytes (layout a) (ground arith) i f e,
        write_rows-HoldsRows (base + total) rows first room,
      )
