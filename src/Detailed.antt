-- ===== src/Detailed.antt =====
-- manager/include/DetailedReport.hpp and manager/src/DetailedReport.cpp: the detailed report. A double
-- is its 64-bit pattern.
pub mod Layout
pub mod Records
pub mod Report
use improved_process_manager.Base.{
  ℕ, zero, suc, ◌+◌, ◌*◌, Bool, ◌||◌, not, List, [], ◌∷◌, Option, none, some, ltb, ◌==◌,
  if◌then◌else◌, length, ℤ, Bytes, Text, text,
}
use improved_process_manager.Command.{DecodeCode}
use improved_process_manager.Config.{RestartMode, restart_byte, restart_mode_from_byte}
use improved_process_manager.State.{ServiceState, state_byte, service_state_from_byte}
use improved_process_manager.Wire.Writer.{
  new_writer, put_u8, put_u16, put_u32, put_u64, put_i32, put_i64, put_f64, put_text,
}
use improved_process_manager.Wire.Reader.{WireReader, u8, u16, u32, u64, i32, i64, f64, read_text}

abbrev pub report_topic : Text
report_topic = text "report"

abbrev pub report_magic : ℕ
report_magic = 0x524D5042

abbrev pub report_version : ℕ
report_version = 1

abbrev pub report_header_size : ℕ
report_header_size = 192

abbrev pub service_record_size : ℕ
service_record_size = 368

abbrev pub gpu_record_size : ℕ
gpu_record_size = 160

abbrev pub max_report_records : ℕ
max_report_records = 100000

pub record SystemRecord : Type 0 where
  pub cpu_percent : ℕ
  pub cpu_count : ℕ
  pub memory_total_bytes : ℕ
  pub memory_available_bytes : ℕ
  pub load_average1 : ℕ
  pub load_average5 : ℕ
  pub load_average15 : ℕ
  pub uptime_seconds : ℕ

pub record ServiceRecord : Type 0 where
  pub name : Text
  pub binary : Text
  pub description : Text
  pub pid : ℤ
  pub state : ServiceState
  pub restart_mode : RestartMode
  pub flags : ℕ
  pub restart_count : ℤ
  pub missed_beats : ℤ
  pub last_exit_code : ℤ
  pub process_count : ℤ
  pub thread_count : ℤ
  pub open_files : ℤ
  pub start_time : ℤ
  pub last_seen : ℤ
  pub last_exit_time : ℤ
  pub next_restart_time : ℤ
  pub cpu_time_usec : ℕ
  pub cpu_percent : ℕ
  pub memory_bytes : ℕ
  pub memory_peak_bytes : ℕ
  pub memory_limit_bytes : ℕ
  pub io_read_bytes : ℕ
  pub io_write_bytes : ℕ
  pub gpu_percent : ℕ
  pub gpu_memory_bytes : ℕ
  pub oom_kills : ℕ
  pub cpu_limit_percent : ℕ

pub record GpuRecord : Type 0 where
  pub name : Text
  pub uuid : Text
  pub index : ℕ
  pub temperature_c : ℕ
  pub utilization_percent : ℕ
  pub memory_utilization_percent : ℕ
  pub memory_total_bytes : ℕ
  pub memory_used_bytes : ℕ
  pub power_milliwatts : ℕ

pub record DetailedReport : Type 0 where
  pub manager_pid : ℤ
  pub snapshot_time : ℤ
  pub manager_start_time : ℤ
  pub publish_interval_ms : ℕ
  pub flags : ℕ
  pub system : SystemRecord
  pub host_name : Text
  pub manager_version : Text
  pub services : List ServiceRecord
  pub gpus : List GpuRecord

unfoldable pub encode_service : ServiceRecord → Bytes → ℕ → Bytes
encode_service r writer base =
    let w1 = put_text (base + 0) 32 r.name writer in
    let w2 = put_text (base + 32) 128 r.binary w1 in
    let w3 = put_text (base + 160) 64 r.description w2 in
    let w4 = put_i32 (base + 224) r.pid w3 in
    let w5 = put_u8 (base + 228) (state_byte r.state) w4 in
    let w6 = put_u8 (base + 229) (restart_byte r.restart_mode) w5 in
    let w7 = put_u8 (base + 230) r.flags w6 in
    let w8 = put_i32 (base + 232) r.restart_count w7 in
    let w9 = put_i32 (base + 236) r.missed_beats w8 in
    let w10 = put_i32 (base + 240) r.last_exit_code w9 in
    let w11 = put_i32 (base + 244) r.process_count w10 in
    let w12 = put_i32 (base + 248) r.thread_count w11 in
    let w13 = put_i32 (base + 252) r.open_files w12 in
    let w14 = put_i64 (base + 256) r.start_time w13 in
    let w15 = put_i64 (base + 264) r.last_seen w14 in
    let w16 = put_i64 (base + 272) r.last_exit_time w15 in
    let w17 = put_i64 (base + 280) r.next_restart_time w16 in
    let w18 = put_u64 (base + 288) r.cpu_time_usec w17 in
    let w19 = put_f64 (base + 296) r.cpu_percent w18 in
    let w20 = put_u64 (base + 304) r.memory_bytes w19 in
    let w21 = put_u64 (base + 312) r.memory_peak_bytes w20 in
    let w22 = put_u64 (base + 320) r.memory_limit_bytes w21 in
    let w23 = put_u64 (base + 328) r.io_read_bytes w22 in
    let w24 = put_u64 (base + 336) r.io_write_bytes w23 in
    let w25 = put_f64 (base + 344) r.gpu_percent w24 in
    let w26 = put_u64 (base + 352) r.gpu_memory_bytes w25 in
    let w27 = put_u32 (base + 360) r.oom_kills w26 in put_u32 (base + 364) r.cpu_limit_percent w27

unfoldable pub encode_gpu : GpuRecord → Bytes → ℕ → Bytes
encode_gpu r writer base =
    let w1 = put_text (base + 0) 64 r.name writer in
    let w2 = put_text (base + 64) 48 r.uuid w1 in
    let w3 = put_u32 (base + 112) r.index w2 in
    let w4 = put_u32 (base + 116) r.temperature_c w3 in
    let w5 = put_f64 (base + 120) r.utilization_percent w4 in
    let w6 = put_f64 (base + 128) r.memory_utilization_percent w5 in
    let w7 = put_u64 (base + 136) r.memory_total_bytes w6 in
    let w8 = put_u64 (base + 144) r.memory_used_bytes w7 in
    put_u32 (base + 152) r.power_milliwatts w8

-- The header.
unfoldable pub encode_header : DetailedReport → Bytes → Bytes
encode_header r writer =
    let w1 = put_u32 0 report_magic writer in
    let w2 = put_u16 4 report_version w1 in
    let w3 = put_u16 6 report_header_size w2 in
    let w4 = put_u16 8 service_record_size w3 in
    let w5 = put_u16 10 gpu_record_size w4 in
    let w6 = put_u32 12 (length r.services) w5 in
    let w7 = put_u32 16 (length r.gpus) w6 in
    let w8 = put_i32 20 r.manager_pid w7 in
    let w9 = put_i64 24 r.snapshot_time w8 in
    let w10 = put_i64 32 r.manager_start_time w9 in
    let w11 = put_u32 40 r.publish_interval_ms w10 in
    let w12 = put_u32 44 r.flags w11 in
    let w13 = put_f64 48 r.system.cpu_percent w12 in
    let w14 = put_u64 56 r.system.memory_total_bytes w13 in
    let w15 = put_u64 64 r.system.memory_available_bytes w14 in
    let w16 = put_f64 72 r.system.load_average1 w15 in
    let w17 = put_f64 80 r.system.load_average5 w16 in
    let w18 = put_f64 88 r.system.load_average15 w17 in
    let w19 = put_u64 96 r.system.uptime_seconds w18 in
    let w20 = put_u32 104 r.system.cpu_count w19 in
    let w21 = put_text 112 64 r.host_name w20 in put_text 176 16 r.manager_version w21

-- The two loops of `EncodeReport`, from a base on.
unfoldable pub encode_services : ℕ → List ServiceRecord → Bytes → Bytes
unfolding encode_service
encode_services base [] writer = writer
encode_services base (r ∷ rs) writer =
    encode_services (base + service_record_size) rs (encode_service r writer base)

unfoldable pub encode_gpus : ℕ → List GpuRecord → Bytes → Bytes
unfolding encode_gpu
encode_gpus base [] writer = writer
encode_gpus base (r ∷ rs) writer =
    encode_gpus (base + gpu_record_size) rs (encode_gpu r writer base)

abbrev pub report_size : DetailedReport → ℕ
report_size r =
    report_header_size + length r.services * service_record_size + length r.gpus * gpu_record_size

unfoldable pub encode_report : DetailedReport → Bytes
unfolding encode_header encode_services encode_gpus new_writer
encode_report r =
    encode_gpus (report_header_size + length r.services * service_record_size) r.gpus
      (encode_services report_header_size r.services (encode_header r (new_writer (report_size r))))

unfoldable pub or_stopped : Option ServiceState → ServiceState
or_stopped none = ServiceState.stopped
or_stopped (some state) = state

unfoldable pub or_never : Option RestartMode → RestartMode
or_never none = RestartMode.never
or_never (some mode) = mode

unfoldable pub decode_service : WireReader → ServiceRecord
unfolding or_stopped or_never
decode_service reader = record {
  name = read_text reader 0 32;
  binary = read_text reader 32 128;
  description = read_text reader 160 64;
  pid = i32 reader 224;
  state = or_stopped (service_state_from_byte (u8 reader 228));
  restart_mode = or_never (restart_mode_from_byte (u8 reader 229));
  flags = u8 reader 230;
  restart_count = i32 reader 232;
  missed_beats = i32 reader 236;
  last_exit_code = i32 reader 240;
  process_count = i32 reader 244;
  thread_count = i32 reader 248;
  open_files = i32 reader 252;
  start_time = i64 reader 256;
  last_seen = i64 reader 264;
  last_exit_time = i64 reader 272;
  next_restart_time = i64 reader 280;
  cpu_time_usec = u64 reader 288;
  cpu_percent = f64 reader 296;
  memory_bytes = u64 reader 304;
  memory_peak_bytes = u64 reader 312;
  memory_limit_bytes = u64 reader 320;
  io_read_bytes = u64 reader 328;
  io_write_bytes = u64 reader 336;
  gpu_percent = f64 reader 344;
  gpu_memory_bytes = u64 reader 352;
  oom_kills = u32 reader 360;
  cpu_limit_percent = u32 reader 364;
}

unfoldable pub decode_gpu : WireReader → GpuRecord
decode_gpu reader = record {
  name = read_text reader 0 64;
  uuid = read_text reader 64 48;
  index = u32 reader 112;
  temperature_c = u32 reader 116;
  utilization_percent = f64 reader 120;
  memory_utilization_percent = f64 reader 128;
  memory_total_bytes = u64 reader 136;
  memory_used_bytes = u64 reader 144;
  power_milliwatts = u32 reader 152;
}

-- The two loops of `DecodeReport`: so many records of a size, from a base on.
unfoldable pub decode_services : Bytes → ℕ → ℕ → ℕ → List ServiceRecord
decode_services payload base record_size zero = []
decode_services payload base record_size (suc left) =
    decode_service (record { bytes = payload; base = base; part = record_size })
    ∷ decode_services payload (base + record_size) record_size left

unfoldable pub decode_gpus : Bytes → ℕ → ℕ → ℕ → List GpuRecord
decode_gpus payload base record_size zero = []
decode_gpus payload base record_size (suc left) =
    decode_gpu (record { bytes = payload; base = base; part = record_size })
    ∷ decode_gpus payload (base + record_size) record_size left

-- The report of a payload whose header and sizes are right.
unfoldable pub decode_body : Bytes → WireReader → ℕ → ℕ → ℕ → ℕ → ℕ → DetailedReport
decode_body payload reader header_size record_size gpu_size service_count gpu_count = record {
  manager_pid = i32 reader 20;
  snapshot_time = i64 reader 24;
  manager_start_time = i64 reader 32;
  publish_interval_ms = u32 reader 40;
  flags = u32 reader 44;
  host_name = read_text reader 112 64;
  manager_version = read_text reader 176 16;
  system = record {
    cpu_percent = f64 reader 48;
    memory_total_bytes = u64 reader 56;
    memory_available_bytes = u64 reader 64;
    load_average1 = f64 reader 72;
    load_average5 = f64 reader 80;
    load_average15 = f64 reader 88;
    uptime_seconds = u64 reader 96;
    cpu_count = u32 reader 104;
  };
  services = decode_services payload header_size record_size service_count;
  gpus = decode_gpus payload (header_size + service_count * record_size) gpu_size gpu_count;
}

unfoldable pub decode_report : Bytes → DetailedReport → DecodeCode × DetailedReport
decode_report payload out =
    let reader : WireReader = record { bytes = payload; base = 0; part = length payload } in
    let header_size = u16 reader 6 in
    let record_size = u16 reader 8 in
    let gpu_size = u16 reader 10 in
    let service_count = u32 reader 12 in
    let gpu_count = u32 reader 16 in
    if ltb (length payload) report_header_size
    then (DecodeCode.bad_length, out)
    else if not (u32 reader 0 == report_magic)
    then (DecodeCode.bad_magic, out)
    else if not (u16 reader 4 == report_version)
    then (DecodeCode.unsupported_version, out)
    else if ltb header_size report_header_size
        || ltb record_size service_record_size
        || ltb gpu_size gpu_record_size
    then (DecodeCode.bad_layout, out)
    else if ltb max_report_records service_count || ltb max_report_records gpu_count
    then (DecodeCode.bad_length, out)
    else if not (length payload == header_size + service_count * record_size + gpu_count * gpu_size)
    then (DecodeCode.bad_length, out)
    else (
      DecodeCode.ok,
      decode_body payload reader header_size record_size gpu_size service_count gpu_count,
    )
