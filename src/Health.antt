-- ===== src/Health.antt =====
-- manager/include/HealthRecord.hpp and manager/src/HealthRecord.cpp: the health report, 128 bytes for
-- each service.
pub mod Codec
pub mod Report
use improved_process_manager.Base.{
  ℕ, zero, suc, ◌+◌, ◌-◌, ◌*◌, ◌/◌, ◌%◌, Bool, ◌&&◌, List, [], ◌∷◌, ltb, leb, ◌==◌, if◌then◌else◌,
  length, ℤ, Bytes, Text,
}
use improved_process_manager.Command.{DecodeCode}
use improved_process_manager.Wire.Writer.{new_writer, put_u8, put_u64, put_i32, put_i64, put_text}
use improved_process_manager.Wire.Reader.{WireReader, u8, u32, u64, i32, i64, read_text}

pub data RuntimeState : Type 0 where
  unknown starting running stopped unhealthy : RuntimeState

abbrev pub runtime_byte : RuntimeState → ℕ
runtime_byte RuntimeState.unknown = 0
runtime_byte RuntimeState.starting = 1
runtime_byte RuntimeState.running = 2
runtime_byte RuntimeState.stopped = 3
runtime_byte RuntimeState.unhealthy = 4

pub record HealthRecord : Type 0 where
  pub process_name : Text
  pub pid : ℤ
  pub memory_usage_in_bytes : ℕ
  pub cpu_usage_in_usec : ℕ
  pub state : RuntimeState
  pub start_time : ℤ
  pub last_seen : ℤ
  pub missed_beats : ℤ
  pub restart_count : ℤ
  pub snapshot_time : ℤ

abbrev pub health_record_size : ℕ
health_record_size = 128

abbrev pub health_name_size : ℕ
health_name_size = 64

abbrev pub max_health_records : ℕ
max_health_records = 10000

abbrev pub count_prefix_size : ℕ
count_prefix_size = 4

-- `static_cast<RuntimeState>` of a value inside the enum.
runtime_cast : ℕ → RuntimeState
runtime_cast value =
    if value == 0
    then RuntimeState.unknown
    else if value == 1
    then RuntimeState.starting
    else if value == 2
    then RuntimeState.running
    else if value == 3
    then RuntimeState.stopped
    else RuntimeState.unhealthy

unfoldable pub runtime_state_from_byte : ℕ → RuntimeState
unfolding runtime_cast
runtime_state_from_byte value =
    if ltb (runtime_byte RuntimeState.unhealthy) value
    then RuntimeState.unknown
    else runtime_cast value

unfoldable pub encode_one : HealthRecord → Bytes → ℕ → Bytes
encode_one r writer base =
    let w1 = put_text (base + 0) health_name_size r.process_name writer in
    let w2 = put_i32 (base + 64) r.pid w1 in
    let w3 = put_u64 (base + 72) r.memory_usage_in_bytes w2 in
    let w4 = put_u64 (base + 80) r.cpu_usage_in_usec w3 in
    let w5 = put_u8 (base + 88) (runtime_byte r.state) w4 in
    let w6 = put_i64 (base + 96) r.start_time w5 in
    let w7 = put_i64 (base + 104) r.last_seen w6 in
    let w8 = put_i32 (base + 112) r.missed_beats w7 in
    let w9 = put_i32 (base + 116) r.restart_count w8 in put_i64 (base + 120) r.snapshot_time w9

unfoldable pub decode_one : WireReader → HealthRecord
decode_one reader = record {
  process_name = read_text reader 0 health_name_size;
  pid = i32 reader 64;
  memory_usage_in_bytes = u64 reader 72;
  cpu_usage_in_usec = u64 reader 80;
  state = runtime_state_from_byte (u8 reader 88);
  start_time = i64 reader 96;
  last_seen = i64 reader 104;
  missed_beats = i32 reader 112;
  restart_count = i32 reader 116;
  snapshot_time = i64 reader 120;
}

-- The loop of `EncodeHealthRecords`, from record `i` on.
unfoldable pub encode_loop : ℕ → List HealthRecord → Bytes → Bytes
unfolding encode_one
encode_loop i [] writer = writer
encode_loop i (r ∷ rs) writer =
    encode_loop (i + 1) rs (encode_one r writer (i * health_record_size))

unfoldable pub encode_health_records : List HealthRecord → Bytes
unfolding encode_loop new_writer
encode_health_records records =
    encode_loop 0 records (new_writer (length records * health_record_size))

-- The loop of `DecodeHealthRecords`: `left` more records, from record `i` on.
unfoldable pub decode_loop : Bytes → ℕ → ℕ → ℕ → List HealthRecord
decode_loop payload base i zero = []
decode_loop payload base i (suc left) =
    decode_one
      (record { bytes = payload; base = base + i * health_record_size; part = health_record_size })
    ∷ decode_loop payload base (i + 1) left

-- The count in front, if the message has one.
unfoldable pub declared_count : Bytes → ℕ
declared_count payload = u32 (record { bytes = payload; base = 0; part = count_prefix_size }) 0

unfoldable pub is_prefixed : Bytes → Bool
is_prefixed payload =
    leb count_prefix_size (length payload)
    && (ltb (declared_count payload) max_health_records
        && length payload - count_prefix_size == declared_count payload * health_record_size)

unfoldable pub decode_health_records : Bytes → DecodeCode × List HealthRecord
unfolding is_prefixed decode_loop
decode_health_records [] = (DecodeCode.ok, [])
decode_health_records (b ∷ bs) =
    let payload = b ∷ bs in
    if is_prefixed payload
    then (DecodeCode.ok, decode_loop payload count_prefix_size 0 (declared_count payload))
    else if length payload % health_record_size == 0
    then (DecodeCode.ok, decode_loop payload 0 0 (length payload / health_record_size))
    else (DecodeCode.bad_length, [])
