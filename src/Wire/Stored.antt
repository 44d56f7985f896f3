-- ===== src/Wire/Stored.antt =====
-- The fields of a record that a reader stands on, each read with the accessor of manager/src/WireReader.cpp.
use improved_process_manager.Base.{
  ℕ, ◌+◌, ◌*◌, ◌%◌, ◌^◌, ◌≤◌, ◌<◌, ◌≡◌, ap, ◌∙◌, List, some, arith, get_elem?, ℤ, to_word, of_word,
  InRange, of_word-to_word, Text,
}
use improved_process_manager.Wire.Fields.{
  Field, word, label, Holds, get_bytes-field, read_text-field,
}
use improved_process_manager.Wire.Reader.{
  WireReader, u8, u16, u32, u64, i32, i64, f64, get_bytes, read_text,
}
use improved_process_manager.Wire.Texts.{carried}
use improved_process_manager.Wire.Words.{Inside}

pub to_word-lt : (m : ℕ) (z : ℤ) → 0 < m → to_word m z < m + m
to_word-lt m (ℤ.pos n) h = omega arith
to_word-lt m (ℤ.negsuc n) h = omega arith

module _ (reader : WireReader) (fs : List Field) (inside : Inside reader)
    (holds : Holds reader.base fs reader.bytes) where
  stored_word :
      (i o n v : ℕ)
      → get_elem? fs i ≡ some (word o n v)
      → 0 < n
      → o + n ≤ reader.part
      → get_bytes reader o n ≡ v % 2 ^ (8 * n)
  stored_word i o n v e p h = get_bytes-field reader fs inside holds i o n v e p h

  pub stored_i32 :
      (i o : ℕ) (z : ℤ)
      → get_elem? fs i ≡ some (word o 4 (to_word (2 ^ 31) z))
      → o + 4 ≤ reader.part
      → InRange (2 ^ 31) z
      → i32 reader o ≡ z
  stored_i32 i o z e h fits =
      let kept : get_bytes reader o 4 % 2 ^ 32 ≡ to_word (2 ^ 31) z = omega (
        arith,
        stored_word i o 4 (to_word (2 ^ 31) z) e (omega arith) h,
        to_word-lt (2 ^ 31) z (omega arith),
      ) in
      unfold i32 in ap (of_word (2 ^ 31)) kept ∙ of_word-to_word (2 ^ 31) z fits

  pub stored_i64 :
      (i o : ℕ) (z : ℤ)
      → get_elem? fs i ≡ some (word o 8 (to_word (2 ^ 63) z))
      → o + 8 ≤ reader.part
      → InRange (2 ^ 63) z
      → i64 reader o ≡ z
  stored_i64 i o z e h fits =
      let kept : get_bytes reader o 8 ≡ to_word (2 ^ 63) z = omega (
        arith,
        stored_word i o 8 (to_word (2 ^ 63) z) e (omega arith) h,
        to_word-lt (2 ^ 63) z (omega arith),
      ) in
      unfold i64 in ap (of_word (2 ^ 63)) kept ∙ of_word-to_word (2 ^ 63) z fits

  pub stored_u64 :
      (i o v : ℕ)
      → get_elem? fs i ≡ some (word o 8 v)
      → o + 8 ≤ reader.part
      → v < 2 ^ 64
      → u64 reader o ≡ v
  stored_u64 i o v e h fits = unfold u64 in omega (arith, stored_word i o 8 v e (omega arith) h)

  pub stored_f64 :
      (i o v : ℕ)
      → get_elem? fs i ≡ some (word o 8 v)
      → o + 8 ≤ reader.part
      → v < 2 ^ 64
      → f64 reader o ≡ v
  stored_f64 i o v e h fits = unfold f64 in omega (arith, stored_word i o 8 v e (omega arith) h)

  pub stored_u32 :
      (i o v : ℕ)
      → get_elem? fs i ≡ some (word o 4 v)
      → o + 4 ≤ reader.part
      → v < 2 ^ 32
      → u32 reader o ≡ v
  stored_u32 i o v e h fits = unfold u32 in omega (arith, stored_word i o 4 v e (omega arith) h)

  pub stored_u16 :
      (i o v : ℕ)
      → get_elem? fs i ≡ some (word o 2 v)
      → o + 2 ≤ reader.part
      → v < 2 ^ 16
      → u16 reader o ≡ v
  stored_u16 i o v e h fits = unfold u16 in omega (arith, stored_word i o 2 v e (omega arith) h)

  pub stored_u8 :
      (i o v : ℕ)
      → get_elem? fs i ≡ some (word o 1 v)
      → o + 1 ≤ reader.part
      → v < 2 ^ 8
      → u8 reader o ≡ v
  stored_u8 i o v e h fits = unfold u8 in omega (arith, stored_word i o 1 v e (omega arith) h)

  pub stored_text :
      (i o n : ℕ) (t : Text)
      → get_elem? fs i ≡ some (label o n t)
      → 0 < n
      → o + n ≤ reader.part
      → read_text reader o n ≡ carried n t
  stored_text i o n t e p h = read_text-field reader fs inside holds i o n t e p h
