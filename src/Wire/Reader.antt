-- ===== src/Wire/Reader.antt =====
-- manager/src/WireReader.cpp. A reader is a buffer, the offset of its part and the part's size.
use improved_process_manager.Base.{
  ℕ, zero, suc, ◌+◌, ◌-◌, ◌*◌, ◌%◌, ◌^◌, min, bit_or, ◌||◌, [], ◌∷◌, ltb, leb, ◌==◌, if◌then◌else◌,
  length, get_or, ℤ, of_word, Bytes, Text,
}

pub record WireReader : Type 0 where
  pub bytes : Bytes
  pub base : ℕ
  pub part : ℕ

unfoldable pub size : WireReader → ℕ
size r = if leb (length r.bytes) r.base then 0 else min r.part (length r.bytes - r.base)

-- `for (i = 0; i < count; ++i) value |= (uint64_t)bytes[base + offset + i] << (8 * i)`; `count` is
-- at most 8, so no bit is shifted out.
unfoldable pub get_loop : WireReader → ℕ → ℕ → ℕ → ℕ → ℕ
get_loop r offset i zero value = value
get_loop r offset i (suc left) value =
    get_loop r offset (i + 1) left
      (bit_or value (get_or r.bytes (r.base + offset + i) 0 * 2 ^ (8 * i)))

unfoldable pub get_bytes : WireReader → ℕ → ℕ → ℕ
unfolding get_loop size
get_bytes r offset count =
    if ltb (size r) offset || ltb (size r - offset) count then 0 else get_loop r offset 0 count 0

unfoldable pub u8 : WireReader → ℕ → ℕ
unfolding get_bytes
u8 r offset = get_bytes r offset 1 % 2 ^ 8

unfoldable pub u16 : WireReader → ℕ → ℕ
unfolding get_bytes
u16 r offset = get_bytes r offset 2 % 2 ^ 16

unfoldable pub u32 : WireReader → ℕ → ℕ
unfolding get_bytes
u32 r offset = get_bytes r offset 4 % 2 ^ 32

unfoldable pub u64 : WireReader → ℕ → ℕ
unfolding get_bytes
u64 r offset = get_bytes r offset 8

unfoldable pub i32 : WireReader → ℕ → ℤ
unfolding get_bytes
i32 r offset = of_word (2 ^ 31) (get_bytes r offset 4 % 2 ^ 32)

unfoldable pub i64 : WireReader → ℕ → ℤ
unfolding get_bytes
i64 r offset = of_word (2 ^ 63) (get_bytes r offset 8)

-- A double is its 64-bit pattern.
unfoldable pub f64 : WireReader → ℕ → ℕ
unfolding get_bytes
f64 r offset = get_bytes r offset 8

-- The loop of `Text`: stops at the field's end, at the part's end and at a NUL.
unfoldable pub text_loop : WireReader → ℕ → ℕ → Text
unfolding size
text_loop r at zero = []
text_loop r at (suc left) =
    let rest = text_loop r (at + 1) left in
    if leb (size r) at
    then []
    else if get_or r.bytes (r.base + at) 0 == 0
    then []
    else get_or r.bytes (r.base + at) 0 ∷ rest

unfoldable pub read_text : WireReader → ℕ → ℕ → Text
unfolding text_loop
read_text r offset field_size = text_loop r offset field_size
