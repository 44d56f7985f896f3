-- ===== src/Detailed/Records.antt =====
-- Each record of the detailed report, manager/src/DetailedReport.cpp, is read back where it is stored.
use improved_process_manager.Base.{◌^◌, ◌<◌, ◌≤◌, ◌≡◌, refl, ap, ◌∙◌, arith, some}
use improved_process_manager.Config.{RestartMode, restart_byte, restart_mode_from_byte}
use improved_process_manager.Detailed.{ServiceRecord, GpuRecord, decode_service, decode_gpu}
use improved_process_manager.Detailed.Layout.{service_fields, gpu_fields, ServiceFits, GpuFits}
use improved_process_manager.State.{ServiceState, state_byte, service_state_from_byte}
use improved_process_manager.Wire.Fields.{Holds}
use improved_process_manager.Wire.Reader.{WireReader, u8}
use improved_process_manager.Wire.Stored.{
  stored_u8, stored_u32, stored_u64, stored_f64, stored_i32, stored_i64, stored_text,
}
use improved_process_manager.Wire.Texts.{carried}
use improved_process_manager.Wire.Words.{Inside}

service_state_from_byte-state_byte :
    (s : ServiceState) → service_state_from_byte (state_byte s) ≡ some s
unfolding service_state_from_byte
service_state_from_byte-state_byte ServiceState.stopped = refl
service_state_from_byte-state_byte _ = refl

state_byte-lt : (s : ServiceState) → state_byte s < 2 ^ 8
state_byte-lt ServiceState.stopped = omega arith
state_byte-lt _ = omega arith

restart_mode_from_byte-restart_byte :
    (m : RestartMode) → restart_mode_from_byte (restart_byte m) ≡ some m
unfolding restart_mode_from_byte
restart_mode_from_byte-restart_byte RestartMode.never = refl
restart_mode_from_byte-restart_byte _ = refl

restart_byte-lt : (m : RestartMode) → restart_byte m < 2 ^ 8
restart_byte-lt RestartMode.never = omega arith
restart_byte-lt _ = omega arith

-- The texts as their fields carry them.
abbrev pub carried_service : ServiceRecord → ServiceRecord
carried_service r = record r {
  name = carried 32 r.name;
  binary = carried 128 r.binary;
  description = carried 64 r.description;
}

abbrev pub carried_gpu : GpuRecord → GpuRecord
carried_gpu r = record r { name = carried 64 r.name; uuid = carried 48 r.uuid }

-- A reader on a stored record.
module _ (reader : WireReader) (r : ServiceRecord) (inside : Inside reader)
    (whole : 368 ≤ reader.part) (holds : Holds reader.base (service_fields r) reader.bytes) where
  state_lem : service_state_from_byte (u8 reader 228) ≡ some r.state
  state_lem =
      ap service_state_from_byte (
        stored_u8 reader (service_fields r) inside holds 4 228 (state_byte r.state) refl
          (omega (arith, whole)) (state_byte-lt r.state))
      ∙ service_state_from_byte-state_byte r.state

  mode_lem : restart_mode_from_byte (u8 reader 229) ≡ some r.restart_mode
  mode_lem =
      ap restart_mode_from_byte (
        stored_u8 reader (service_fields r) inside holds 5 229 (restart_byte r.restart_mode) refl
          (omega (arith, whole)) (restart_byte-lt r.restart_mode))
      ∙ restart_mode_from_byte-restart_byte r.restart_mode

  pub decode_service_lem : ServiceFits r → decode_service reader ≡ carried_service r
  unfolding decode_service
  decode_service_lem v =
      let at_text = stored_text reader (service_fields r) inside holds in
      let at_i32 = stored_i32 reader (service_fields r) inside holds in
      let at_u8 = stored_u8 reader (service_fields r) inside holds in
      let at_i64 = stored_i64 reader (service_fields r) inside holds in
      let at_u64 = stored_u64 reader (service_fields r) inside holds in
      let at_f64 = stored_f64 reader (service_fields r) inside holds in
      let at_u32 = stored_u32 reader (service_fields r) inside holds in
      let e1 = at_text 0 0 32 r.name refl (omega (arith, whole)) (omega (arith, whole)) in
      let e2 = at_text 1 32 128 r.binary refl (omega (arith, whole)) (omega (arith, whole)) in
      let e3 = at_text 2 160 64 r.description refl (omega (arith, whole)) (omega (arith, whole)) in
      let e4 = at_i32 3 224 r.pid refl (omega (arith, whole)) v.pid_fits in
      let e5 = state_lem in
      let e6 = mode_lem in
      let e7 = at_u8 6 230 r.flags refl (omega (arith, whole)) v.flags_fits in
      let e8 = at_i32 7 232 r.restart_count refl (omega (arith, whole)) v.restart_count_fits in
      let e9 = at_i32 8 236 r.missed_beats refl (omega (arith, whole)) v.missed_beats_fits in
      let e10 = at_i32 9 240 r.last_exit_code refl (omega (arith, whole)) v.last_exit_code_fits in
      let e11 = at_i32 10 244 r.process_count refl (omega (arith, whole)) v.process_count_fits in
      let e12 = at_i32 11 248 r.thread_count refl (omega (arith, whole)) v.thread_count_fits in
      let e13 = at_i32 12 252 r.open_files refl (omega (arith, whole)) v.open_files_fits in
      let e14 = at_i64 13 256 r.start_time refl (omega (arith, whole)) v.start_time_fits in
      let e15 = at_i64 14 264 r.last_seen refl (omega (arith, whole)) v.last_seen_fits in
      let e16 = at_i64 15 272 r.last_exit_time refl (omega (arith, whole)) v.last_exit_time_fits in
      let e17 =
        at_i64 16 280 r.next_restart_time refl (omega (arith, whole)) v.next_restart_time_fits in
      let e18 = at_u64 17 288 r.cpu_time_usec refl (omega (arith, whole)) v.cpu_time_usec_fits in
      let e19 = at_f64 18 296 r.cpu_percent refl (omega (arith, whole)) v.cpu_percent_fits in
      let e20 = at_u64 19 304 r.memory_bytes refl (omega (arith, whole)) v.memory_bytes_fits in
      let e21 =
        at_u64 20 312 r.memory_peak_bytes refl (omega (arith, whole)) v.memory_peak_bytes_fits in
      let e22 =
        at_u64 21 320 r.memory_limit_bytes refl (omega (arith, whole)) v.memory_limit_bytes_fits in
      let e23 = at_u64 22 328 r.io_read_bytes refl (omega (arith, whole)) v.io_read_bytes_fits in
      let e24 = at_u64 23 336 r.io_write_bytes refl (omega (arith, whole)) v.io_write_bytes_fits in
      let e25 = at_f64 24 344 r.gpu_percent refl (omega (arith, whole)) v.gpu_percent_fits in
      let e26 =
        at_u64 25 352 r.gpu_memory_bytes refl (omega (arith, whole)) v.gpu_memory_bytes_fits in
      let e27 = at_u32 26 360 r.oom_kills refl (omega (arith, whole)) v.oom_kills_fits in
      let e28 =
        at_u32 27 364 r.cpu_limit_percent refl (omega (arith, whole)) v.cpu_limit_percent_fits in
      rw
        (
          e1, e2, e3, e4, e5, e6, e7, e8, e9, e10, e11, e12, e13, e14, e15, e16, e17, e18, e19, e20,
          e21, e22, e23, e24, e25, e26, e27, e28,
        )
        refl

-- A reader on a stored record.
module _ (reader : WireReader) (r : GpuRecord) (inside : Inside reader) (whole : 160 ≤ reader.part)
    (holds : Holds reader.base (gpu_fields r) reader.bytes) where
  pub decode_gpu_lem : GpuFits r → decode_gpu reader ≡ carried_gpu r
  unfolding decode_gpu
  decode_gpu_lem v =
      let at_text = stored_text reader (gpu_fields r) inside holds in
      let at_u32 = stored_u32 reader (gpu_fields r) inside holds in
      let at_f64 = stored_f64 reader (gpu_fields r) inside holds in
      let at_u64 = stored_u64 reader (gpu_fields r) inside holds in
      let e1 = at_text 0 0 64 r.name refl (omega (arith, whole)) (omega (arith, whole)) in
      let e2 = at_text 1 64 48 r.uuid refl (omega (arith, whole)) (omega (arith, whole)) in
      let e3 = at_u32 2 112 r.index refl (omega (arith, whole)) v.index_fits in
      let e4 = at_u32 3 116 r.temperature_c refl (omega (arith, whole)) v.temperature_c_fits in
      let e5 =
        at_f64 4 120 r.utilization_percent refl (omega (arith, whole)) v.utilization_percent_fits in
      let e6 =
        at_f64 5 128 r.memory_utilization_percent refl (omega (arith, whole))
          v.memory_utilization_percent_fits in
      let e7 =
        at_u64 6 136 r.memory_total_bytes refl (omega (arith, whole)) v.memory_total_bytes_fits in
      let e8 =
        at_u64 7 144 r.memory_used_bytes refl (omega (arith, whole)) v.memory_used_bytes_fits in
      let e9 =
        at_u32 8 152 r.power_milliwatts refl (omega (arith, whole)) v.power_milliwatts_fits in
      rw (e1, e2, e3, e4, e5, e6, e7, e8, e9) refl
