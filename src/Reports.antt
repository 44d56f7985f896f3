-- ===== src/Reports.antt =====
-- manager/src/ReportBuilder.cpp and manager/src/ReportPublisher.cpp: the two reports made of the
-- statuses, and the messages that carry them. How a percentage is rounded to a double is a parameter.
pub mod Flags
pub mod Fitting
pub mod Published
use improved_process_manager.Base.{
  ℕ, ◌+◌, Bool, true, false, ◌&&◌, List, [], ◌∷◌, map, bit_or, if◌then◌else◌, ℤ, pos, negsuc, Bytes,
  Text, text,
}
use improved_process_manager.Detailed.{
  SystemRecord, ServiceRecord, GpuRecord, DetailedReport, encode_report, report_topic,
}
use improved_process_manager.Health.{HealthRecord, encode_health_records}
use improved_process_manager.Manager.Sampling.{GpuDevice, GpuSnapshot}
use improved_process_manager.Server.{Frame}
use improved_process_manager.Service.{Percent}
use improved_process_manager.Service.Status.{ServiceStatus}
use improved_process_manager.State.{is_alive, to_runtime_state}

abbrev pub service_flag_autostart : ℕ
service_flag_autostart = 0x01

abbrev pub service_flag_heartbeat : ℕ
service_flag_heartbeat = 0x02

abbrev pub service_flag_cgroup : ℕ
service_flag_cgroup = 0x04

abbrev pub service_flag_usage : ℕ
service_flag_usage = 0x08

abbrev pub service_flag_gpu : ℕ
service_flag_gpu = 0x10

abbrev pub service_flag_removing : ℕ
service_flag_removing = 0x20

abbrev pub manager_version : Text
manager_version = text "1.0.0"

-- What the host's monitor read (manager/include/SystemMonitor.hpp).
pub record SystemSnapshot : Type 0 where
  pub record_of : SystemRecord
  pub host_name : Text

abbrev pub flag : Bool → ℕ → ℕ
flag set value = if set then value else 0

unfoldable pub service_flags : ServiceStatus → ℕ
service_flags s =
    let f1 = bit_or 0 (flag s.autostart service_flag_autostart) in
    let f2 = bit_or f1 (flag s.heartbeat service_flag_heartbeat) in
    let f3 = bit_or f2 (flag (s.usage_valid && s.usage.cgroup) service_flag_cgroup) in
    let f4 = bit_or f3 (flag s.usage_valid service_flag_usage) in
    let f5 = bit_or f4 (flag s.gpu_valid service_flag_gpu) in
    bit_or f5 (flag s.removing service_flag_removing)

-- The 64-bit pattern of the double that a percentage is kept as.
abbrev pub Rounding : Type 0
Rounding = Percent → ℕ

module _ (pattern : Rounding) where
  -- Counts are unsigned here, and the fields of the records signed.
  unfoldable pub to_service_record : ServiceStatus → ServiceRecord
  to_service_record s =
      let u = s.usage in
      let known = s.usage_valid in
      record {
        name = s.name;
        binary = s.binary;
        description = s.description;
        pid = pos s.pid;
        state = s.state;
        restart_mode = s.restart_mode;
        flags = service_flags s;
        restart_count = pos s.restart_count;
        missed_beats = s.missed_beats;
        last_exit_code = s.last_exit_code;
        process_count = pos (if known then u.process_count else 0);
        thread_count = pos (if known then u.thread_count else 0);
        open_files = if known then u.open_files else negsuc 0;
        start_time = pos s.start_time;
        last_seen = pos s.last_seen;
        last_exit_time = pos s.last_exit_time;
        next_restart_time = pos s.next_restart_time;
        cpu_time_usec = if known then u.cpu_time_usec else 0;
        cpu_percent = pattern s.cpu_percent;
        memory_bytes = if known then u.memory_bytes else 0;
        memory_peak_bytes = if known then u.memory_peak_bytes else 0;
        memory_limit_bytes = s.memory_limit_bytes;
        io_read_bytes = if known then u.io_read_bytes else 0;
        io_write_bytes = if known then u.io_write_bytes else 0;
        gpu_percent = pattern (if s.gpu_valid then s.gpu_percent else Percent.unknown);
        gpu_memory_bytes = if s.gpu_valid then s.gpu_memory_bytes else 0;
        oom_kills = if known then u.oom_kills else 0;
        cpu_limit_percent = s.cpu_limit_percent;
      }

unfoldable pub to_gpu_record : GpuDevice → GpuRecord
to_gpu_record d = record {
  name = d.name;
  uuid = d.uuid;
  index = d.index;
  temperature_c = d.temperature_c;
  utilization_percent = d.utilization_percent;
  memory_utilization_percent = d.memory_utilization_percent;
  memory_total_bytes = d.memory_total_bytes;
  memory_used_bytes = d.memory_used_bytes;
  power_milliwatts = d.power_milliwatts;
}

-- The two fields of the builder.
pub record ReportBuilder : Type 0 where
  pub manager_pid : ℤ
  pub manager_start_time : ℤ

-- The body of the loop of `BuildHealth`.
unfoldable pub to_health_record : ℕ → ServiceStatus → HealthRecord
to_health_record snapshot_time s = record {
  process_name = s.name;
  pid = if is_alive s.state then pos s.pid else pos 0;
  memory_usage_in_bytes = if s.usage_valid then s.usage.memory_bytes else 0;
  cpu_usage_in_usec = if s.usage_valid then s.usage.cpu_time_usec else 0;
  state = to_runtime_state s.state;
  start_time = if is_alive s.state then pos s.start_time else pos 0;
  last_seen = pos s.last_seen;
  missed_beats = s.missed_beats;
  restart_count = pos s.restart_count;
  snapshot_time = pos snapshot_time;
}

unfoldable pub build_health : List ServiceStatus → ℕ → List HealthRecord
unfolding to_health_record
build_health statuses snapshot_time = map (to_health_record snapshot_time) statuses

unfoldable pub build_report :
    Rounding
    → ReportBuilder
    → List ServiceStatus
    → SystemSnapshot
    → GpuSnapshot
    → ℕ
    → ℕ
    → ℕ
    → DetailedReport
unfolding to_service_record to_gpu_record
build_report pattern builder statuses system gpu snapshot_time interval flags = record {
  manager_pid = builder.manager_pid;
  snapshot_time = pos snapshot_time;
  manager_start_time = builder.manager_start_time;
  publish_interval_ms = interval;
  flags = flags;
  system = system.record_of;
  host_name = system.host_name;
  manager_version = manager_version;
  services = map (to_service_record pattern) statuses;
  gpus = map to_gpu_record gpu.devices;
}

-- The messages that `Publish` hands to the two sockets.
unfoldable pub health_message : List HealthRecord → List Frame
health_message records = encode_health_records records ∷ []

unfoldable pub report_message : DetailedReport → List Frame
report_message report = report_topic ∷ encode_report report ∷ []
