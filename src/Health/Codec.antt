-- ===== src/Health/Codec.antt =====
-- One record of manager/src/HealthRecord.cpp against a layout of fields.
use improved_process_manager.Base.{
  ℕ, ◌^◌, ◌<◌, ◌≡◌, refl, ap, ◌∙◌, List, [], ◌∷◌, arith, to_word, InRange, Bytes,
}
use improved_process_manager.Health.{
  HealthRecord, RuntimeState, runtime_byte, runtime_state_from_byte, encode_one, decode_one,
}
use improved_process_manager.Wire.Writer.{put_u8, put_u64, put_i32, put_i64}
use improved_process_manager.Wire.Reader.{WireReader, u8}
use improved_process_manager.Wire.Words.{Inside}
use improved_process_manager.Wire.Stored.{
  stored_u8, stored_u64, stored_i32, stored_i64, stored_text,
}
use improved_process_manager.Wire.Texts.{carried}
use improved_process_manager.Wire.Fields.{Field, word, label, write_all, Holds}

-- Every number fits its C++ type.
pub record IsRepresentable (r : HealthRecord) : Type 0 where
  pub pid_fits : InRange (2 ^ 31) r.pid
  pub memory_fits : r.memory_usage_in_bytes < 2 ^ 64
  pub cpu_fits : r.cpu_usage_in_usec < 2 ^ 64
  pub start_fits : InRange (2 ^ 63) r.start_time
  pub seen_fits : InRange (2 ^ 63) r.last_seen
  pub missed_fits : InRange (2 ^ 31) r.missed_beats
  pub restarts_fits : InRange (2 ^ 31) r.restart_count
  pub snapshot_fits : InRange (2 ^ 63) r.snapshot_time

-- The record with its name as the 64-byte field carries it.
abbrev pub carried_record : HealthRecord → HealthRecord
carried_record r = record r { process_name = carried 64 r.process_name }

abbrev pub health_fields : HealthRecord → List Field
health_fields r =
    label 0 64 r.process_name
    ∷ word 64 4 (to_word (2 ^ 31) r.pid)
    ∷ word 72 8 r.memory_usage_in_bytes
    ∷ word 80 8 r.cpu_usage_in_usec
    ∷ word 88 1 (runtime_byte r.state)
    ∷ word 96 8 (to_word (2 ^ 63) r.start_time)
    ∷ word 104 8 (to_word (2 ^ 63) r.last_seen)
    ∷ word 112 4 (to_word (2 ^ 31) r.missed_beats)
    ∷ word 116 4 (to_word (2 ^ 31) r.restart_count)
    ∷ word 120 8 (to_word (2 ^ 63) r.snapshot_time)
    ∷ []

pub encode_one-write_all :
    (r : HealthRecord) (writer : Bytes) (base : ℕ)
    → encode_one r writer base ≡ write_all base (health_fields r) writer
encode_one-write_all r writer base = unfold encode_one put_i32 put_i64 put_u64 put_u8 in refl

runtime_state_from_byte-runtime_byte :
    (s : RuntimeState) → runtime_state_from_byte (runtime_byte s) ≡ s
unfolding runtime_state_from_byte
runtime_state_from_byte-runtime_byte RuntimeState.unknown = refl
runtime_state_from_byte-runtime_byte _ = refl

runtime_byte-lt : (s : RuntimeState) → runtime_byte s < 256
runtime_byte-lt RuntimeState.unknown = omega arith
runtime_byte-lt _ = omega arith

-- A reader on a record that is stored at its base.
module _ (reader : WireReader) (r : HealthRecord) (inside : Inside reader)
    (whole : reader.part ≡ 128) (holds : Holds reader.base (health_fields r) reader.bytes) where
  stored_state : runtime_state_from_byte (u8 reader 88) ≡ r.state
  stored_state =
      ap runtime_state_from_byte (
        stored_u8 reader (health_fields r) inside holds 4 88 (runtime_byte r.state) refl
          (omega (arith, whole)) (runtime_byte-lt r.state))
      ∙ runtime_state_from_byte-runtime_byte r.state

  pub decode_one_lem : IsRepresentable r → decode_one reader ≡ carried_record r
  decode_one_lem v =
      let at_i32 = stored_i32 reader (health_fields r) inside holds in
      let at_i64 = stored_i64 reader (health_fields r) inside holds in
      let at_u64 = stored_u64 reader (health_fields r) inside holds in
      unfold decode_one in
      ground (
        arith,
        stored_text reader (health_fields r) inside holds 0 0 64 r.process_name refl (omega arith)
            (omega (arith, whole)),
        at_i32 1 64 r.pid refl (omega (arith, whole)) v.pid_fits,
        at_u64 2 72 r.memory_usage_in_bytes refl (omega (arith, whole)) v.memory_fits,
        at_u64 3 80 r.cpu_usage_in_usec refl (omega (arith, whole)) v.cpu_fits,
        stored_state,
        at_i64 5 96 r.start_time refl (omega (arith, whole)) v.start_fits,
        at_i64 6 104 r.last_seen refl (omega (arith, whole)) v.seen_fits,
        at_i32 7 112 r.missed_beats refl (omega (arith, whole)) v.missed_fits,
        at_i32 8 116 r.restart_count refl (omega (arith, whole)) v.restarts_fits,
        at_i64 9 120 r.snapshot_time refl (omega (arith, whole)) v.snapshot_fits,
      )
