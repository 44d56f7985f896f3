-- ===== src/Detailed/Layout.antt =====
-- The fields of the header and of the records, as the offsets of manager/src/DetailedReport.cpp place them.
use improved_process_manager.Base.{
  ℕ, ◌^◌, ◌<◌, ◌≡◌, refl, ◌∷◌, [], true, List, length, to_word, InRange, Bytes,
}
use improved_process_manager.Config.{restart_byte}
use improved_process_manager.Detailed.{
  ServiceRecord, GpuRecord, DetailedReport, encode_service, encode_gpu, encode_header, report_magic,
  report_version, report_header_size, service_record_size, gpu_record_size,
}
use improved_process_manager.State.{state_byte}
use improved_process_manager.Wire.Fields.{Field, word, label, write_all, is_layout}
use improved_process_manager.Wire.Writer.{
  put_u8, put_u16, put_u32, put_u64, put_i32, put_i64, put_f64,
}

abbrev pub service_fields : ServiceRecord → List Field
service_fields r =
    label 0 32 r.name
    ∷ label 32 128 r.binary
    ∷ label 160 64 r.description
    ∷ word 224 4 (to_word (2 ^ 31) r.pid)
    ∷ word 228 1 (state_byte r.state)
    ∷ word 229 1 (restart_byte r.restart_mode)
    ∷ word 230 1 r.flags
    ∷ word 232 4 (to_word (2 ^ 31) r.restart_count)
    ∷ word 236 4 (to_word (2 ^ 31) r.missed_beats)
    ∷ word 240 4 (to_word (2 ^ 31) r.last_exit_code)
    ∷ word 244 4 (to_word (2 ^ 31) r.process_count)
    ∷ word 248 4 (to_word (2 ^ 31) r.thread_count)
    ∷ word 252 4 (to_word (2 ^ 31) r.open_files)
    ∷ word 256 8 (to_word (2 ^ 63) r.start_time)
    ∷ word 264 8 (to_word (2 ^ 63) r.last_seen)
    ∷ word 272 8 (to_word (2 ^ 63) r.last_exit_time)
    ∷ word 280 8 (to_word (2 ^ 63) r.next_restart_time)
    ∷ word 288 8 r.cpu_time_usec
    ∷ word 296 8 r.cpu_percent
    ∷ word 304 8 r.memory_bytes
    ∷ word 312 8 r.memory_peak_bytes
    ∷ word 320 8 r.memory_limit_bytes
    ∷ word 328 8 r.io_read_bytes
    ∷ word 336 8 r.io_write_bytes
    ∷ word 344 8 r.gpu_percent
    ∷ word 352 8 r.gpu_memory_bytes
    ∷ word 360 4 r.oom_kills
    ∷ word 364 4 r.cpu_limit_percent
    ∷ []

abbrev pub gpu_fields : GpuRecord → List Field
gpu_fields r =
    label 0 64 r.name
    ∷ label 64 48 r.uuid
    ∷ word 112 4 r.index
    ∷ word 116 4 r.temperature_c
    ∷ word 120 8 r.utilization_percent
    ∷ word 128 8 r.memory_utilization_percent
    ∷ word 136 8 r.memory_total_bytes
    ∷ word 144 8 r.memory_used_bytes
    ∷ word 152 4 r.power_milliwatts
    ∷ []

abbrev pub header_fields : DetailedReport → List Field
header_fields r =
    word 0 4 report_magic
    ∷ word 4 2 report_version
    ∷ word 6 2 report_header_size
    ∷ word 8 2 service_record_size
    ∷ word 10 2 gpu_record_size
    ∷ word 12 4 (length r.services)
    ∷ word 16 4 (length r.gpus)
    ∷ word 20 4 (to_word (2 ^ 31) r.manager_pid)
    ∷ word 24 8 (to_word (2 ^ 63) r.snapshot_time)
    ∷ word 32 8 (to_word (2 ^ 63) r.manager_start_time)
    ∷ word 40 4 r.publish_interval_ms
    ∷ word 44 4 r.flags
    ∷ word 48 8 r.system.cpu_percent
    ∷ word 56 8 r.system.memory_total_bytes
    ∷ word 64 8 r.system.memory_available_bytes
    ∷ word 72 8 r.system.load_average1
    ∷ word 80 8 r.system.load_average5
    ∷ word 88 8 r.system.load_average15
    ∷ word 96 8 r.system.uptime_seconds
    ∷ word 104 4 r.system.cpu_count
    ∷ label 112 64 r.host_name
    ∷ label 176 16 r.manager_version
    ∷ []

pub service_fields_lem : (r : ServiceRecord) → is_layout 368 (service_fields r) ≡ true
service_fields_lem r = refl

pub gpu_fields_lem : (r : GpuRecord) → is_layout 160 (gpu_fields r) ≡ true
gpu_fields_lem r = refl

pub header_fields_lem : (r : DetailedReport) → is_layout 192 (header_fields r) ≡ true
header_fields_lem r = refl

pub encode_service-write_all :
    (r : ServiceRecord) (writer : Bytes) (base : ℕ)
    → encode_service r writer base ≡ write_all base (service_fields r) writer
encode_service-write_all r writer base =
    unfold encode_service put_i32 put_i64 put_u64 put_u8 put_u32 put_f64 in refl

pub encode_gpu-write_all :
    (r : GpuRecord) (writer : Bytes) (base : ℕ)
    → encode_gpu r writer base ≡ write_all base (gpu_fields r) writer
encode_gpu-write_all r writer base = unfold encode_gpu put_u64 put_u32 put_f64 in refl

pub encode_header-write_all :
    (r : DetailedReport) (writer : Bytes)
    → encode_header r writer ≡ write_all 0 (header_fields r) writer
encode_header-write_all r writer =
    unfold encode_header put_i32 put_i64 put_u64 put_u16 put_u32 put_f64 in refl

-- Every number fits its C++ type.
pub record ServiceFits (r : ServiceRecord) : Type 0 where
  pub pid_fits : InRange (2 ^ 31) r.pid
  pub flags_fits : r.flags < 2 ^ 8
  pub restart_count_fits : InRange (2 ^ 31) r.restart_count
  pub missed_beats_fits : InRange (2 ^ 31) r.missed_beats
  pub last_exit_code_fits : InRange (2 ^ 31) r.last_exit_code
  pub process_count_fits : InRange (2 ^ 31) r.process_count
  pub thread_count_fits : InRange (2 ^ 31) r.thread_count
  pub open_files_fits : InRange (2 ^ 31) r.open_files
  pub start_time_fits : InRange (2 ^ 63) r.start_time
  pub last_seen_fits : InRange (2 ^ 63) r.last_seen
  pub last_exit_time_fits : InRange (2 ^ 63) r.last_exit_time
  pub next_restart_time_fits : InRange (2 ^ 63) r.next_restart_time
  pub cpu_time_usec_fits : r.cpu_time_usec < 2 ^ 64
  pub cpu_percent_fits : r.cpu_percent < 2 ^ 64
  pub memory_bytes_fits : r.memory_bytes < 2 ^ 64
  pub memory_peak_bytes_fits : r.memory_peak_bytes < 2 ^ 64
  pub memory_limit_bytes_fits : r.memory_limit_bytes < 2 ^ 64
  pub io_read_bytes_fits : r.io_read_bytes < 2 ^ 64
  pub io_write_bytes_fits : r.io_write_bytes < 2 ^ 64
  pub gpu_percent_fits : r.gpu_percent < 2 ^ 64
  pub gpu_memory_bytes_fits : r.gpu_memory_bytes < 2 ^ 64
  pub oom_kills_fits : r.oom_kills < 2 ^ 32
  pub cpu_limit_percent_fits : r.cpu_limit_percent < 2 ^ 32

pub record GpuFits (r : GpuRecord) : Type 0 where
  pub index_fits : r.index < 2 ^ 32
  pub temperature_c_fits : r.temperature_c < 2 ^ 32
  pub utilization_percent_fits : r.utilization_percent < 2 ^ 64
  pub memory_utilization_percent_fits : r.memory_utilization_percent < 2 ^ 64
  pub memory_total_bytes_fits : r.memory_total_bytes < 2 ^ 64
  pub memory_used_bytes_fits : r.memory_used_bytes < 2 ^ 64
  pub power_milliwatts_fits : r.power_milliwatts < 2 ^ 32

pub record HeaderFits (r : DetailedReport) : Type 0 where
  pub manager_pid_fits : InRange (2 ^ 31) r.manager_pid
  pub snapshot_time_fits : InRange (2 ^ 63) r.snapshot_time
  pub manager_start_time_fits : InRange (2 ^ 63) r.manager_start_time
  pub publish_interval_ms_fits : r.publish_interval_ms < 2 ^ 32
  pub flags_fits : r.flags < 2 ^ 32
  pub cpu_percent_fits : r.system.cpu_percent < 2 ^ 64
  pub memory_total_bytes_fits : r.system.memory_total_bytes < 2 ^ 64
  pub memory_available_bytes_fits : r.system.memory_available_bytes < 2 ^ 64
  pub load_average1_fits : r.system.load_average1 < 2 ^ 64
  pub load_average5_fits : r.system.load_average5 < 2 ^ 64
  pub load_average15_fits : r.system.load_average15 < 2 ^ 64
  pub uptime_seconds_fits : r.system.uptime_seconds < 2 ^ 64
  pub cpu_count_fits : r.system.cpu_count < 2 ^ 32
