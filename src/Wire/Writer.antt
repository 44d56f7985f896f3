-- ===== src/Wire/Writer.antt =====
-- manager/src/WireWriter.cpp. A writer is its buffer; a `std::uint8_t` is a number below 256.
use improved_process_manager.Base.{
  ℕ, zero, suc, ◌+◌, ◌-◌, ◌*◌, ◌/◌, ◌%◌, ◌^◌, bit_and, ◌≡◌, Bool, ◌||◌, [], ◌∷◌, ltb, leb, ◌==◌,
  if◌then◌else◌, length, set, get_or, take, replicate, length-replicate, ℤ, to_word, Bytes, Text,
}

abbrev pub zeros : ℕ → Bytes
zeros n = replicate n 0

pub length-zeros : (n : ℕ) → length (zeros n) ≡ n
length-zeros n = length-replicate n 0

-- `WireWriter writer{size}`: a zero-filled buffer.
unfoldable pub new_writer : ℕ → Bytes
new_writer size = zeros size

-- `for (i = 0; i < count; ++i) bytes[offset + i] = (uint8_t)(value >> (8 * i))`, from round `i` on.
unfoldable pub put_loop : ℕ → ℕ → ℕ → ℕ → Bytes → Bytes
put_loop offset value i zero bytes = bytes
put_loop offset value i (suc left) bytes =
    put_loop offset value (i + 1) left (set bytes (offset + i) (value / 2 ^ (8 * i) % 256))

unfoldable pub put_bytes : ℕ → ℕ → ℕ → Bytes → Bytes
unfolding put_loop
put_bytes offset value count bytes =
    if ltb (length bytes) offset || ltb (length bytes - offset) count
    then bytes
    else put_loop offset value 0 count bytes

unfoldable pub put_u8 : ℕ → ℕ → Bytes → Bytes
unfolding put_bytes
put_u8 offset value = put_bytes offset value 1

unfoldable pub put_u16 : ℕ → ℕ → Bytes → Bytes
unfolding put_bytes
put_u16 offset value = put_bytes offset value 2

unfoldable pub put_u32 : ℕ → ℕ → Bytes → Bytes
unfolding put_bytes
put_u32 offset value = put_bytes offset value 4

unfoldable pub put_u64 : ℕ → ℕ → Bytes → Bytes
unfolding put_bytes
put_u64 offset value = put_bytes offset value 8

unfoldable pub put_i32 : ℕ → ℤ → Bytes → Bytes
unfolding put_bytes
put_i32 offset value = put_bytes offset (to_word (2 ^ 31) value) 4

unfoldable pub put_i64 : ℕ → ℤ → Bytes → Bytes
unfolding put_bytes
put_i64 offset value = put_bytes offset (to_word (2 ^ 63) value) 8

-- A double is its 64-bit pattern.
unfoldable pub put_f64 : ℕ → ℕ → Bytes → Bytes
unfolding put_bytes
put_f64 offset raw = put_bytes offset raw 8

-- A byte that continues a UTF-8 character: `(byte & 0xC0) == 0x80`.
unfoldable pub is_continuation : ℕ → Bool
is_continuation c = bit_and c 0xC0 == 0x80

-- `while (end > 0 && text[end] is a continuation byte) --end`
unfoldable pub back_to_boundary : Text → ℕ → ℕ
back_to_boundary t zero = zero
back_to_boundary t (suc k) =
    if is_continuation (get_or t (suc k) 0) then back_to_boundary t k else suc k

unfoldable pub fit_utf8 : Text → ℕ → Text
unfolding back_to_boundary
fit_utf8 t max_bytes = if leb (length t) max_bytes then t else take (back_to_boundary t max_bytes) t

-- `std::memcpy` of a text to an offset inside the buffer.
unfoldable pub copy_to : ℕ → Text → Bytes → Bytes
copy_to offset [] bytes = bytes
copy_to offset (c ∷ cs) bytes = copy_to (offset + 1) cs (set bytes offset c)

unfoldable pub put_text : ℕ → ℕ → Text → Bytes → Bytes
unfolding fit_utf8 copy_to
put_text offset field_size t bytes =
    if field_size == 0 || ltb (length bytes) offset || ltb (length bytes - offset) field_size
    then bytes
    else copy_to offset (fit_utf8 t (field_size - 1)) (copy_to offset (zeros field_size) bytes)
