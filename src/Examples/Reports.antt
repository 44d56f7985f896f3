-- ===== src/Examples/Reports.antt =====
-- The theorems on the detailed report and on what is published, applied to concrete inputs.
use improved_process_manager.Base.{◌≡◌, ◌<◌, ◌%◌, ◌/◌, refl, arith, true, map, [], ◌∷◌, pos, text}
use improved_process_manager.Command.{DecodeCode}
use improved_process_manager.Config.{is_valid_service_name, name_characters, is_name_character}
use improved_process_manager.Base.{same_text}
use improved_process_manager.Detailed.{SystemRecord, DetailedReport, encode_report, decode_report}
use improved_process_manager.Detailed.Report.{
  ReportFits, carried_report, decode_report-encode_report,
}
use improved_process_manager.Examples.Data.{running_service, needed_service}
use improved_process_manager.Health.{RuntimeState, decode_health_records, encode_health_records}
use improved_process_manager.Manager.Lookup.{statuses}
use improved_process_manager.Manager.Sampling.{GpuSnapshot, GpuDevice}
use improved_process_manager.Reports.{
  Rounding, ReportBuilder, SystemSnapshot, build_health, build_report, service_flags,
  to_service_record, to_gpu_record, to_health_record,
}
use improved_process_manager.Reports.Flags.{service_flags_lem}
use improved_process_manager.Reports.Published.{
  HasValidNames, report_line, health_line, report_lines_lem, health_lines_lem,
}
use improved_process_manager.Service.{new_service}
use improved_process_manager.Service.Operations.{heartbeat_enabled}
use improved_process_manager.Service.Status.{status, pid_of}
use improved_process_manager.State.{ServiceState, to_runtime_state, is_alive}

abbrev idle_system : SystemRecord
idle_system = record {
  cpu_percent = 0;
  cpu_count = 8;
  memory_total_bytes = 64;
  memory_available_bytes = 32;
  load_average1 = 0;
  load_average5 = 0;
  load_average15 = 0;
  uptime_seconds = 9;
}

-- The pattern of -1.0 for every figure.
abbrev pub minus_one : Rounding
minus_one p = 0xBFF0_0000_0000_0000

abbrev pub builder : ReportBuilder
builder = record { manager_pid = pos 7; manager_start_time = pos 1 }

abbrev pub snapshot : SystemSnapshot
snapshot = record { record_of = idle_system; host_name = text "robot" }

abbrev device : GpuDevice
device = record {
  index = 0;
  name = text "card";
  uuid = text "GPU-1";
  utilization_percent = 0;
  memory_utilization_percent = 0;
  memory_total_bytes = 100;
  memory_used_bytes = 10;
  temperature_c = 40;
  power_milliwatts = 9000;
}

abbrev pub cards : GpuSnapshot
cards = record { available = true; devices = device ∷ []; processes = [] }

abbrev a_report : DetailedReport
a_report =
    build_report minus_one builder (statuses (running_service ∷ needed_service ∷ [])) snapshot cards
      5 1000 2

a_report-ReportFits : ReportFits a_report
unfolding build_report statuses status pid_of to_service_record to_gpu_record service_flags
    new_service heartbeat_enabled
a_report-ReportFits = record {
  header_fits = record {
    manager_pid_fits = omega arith;
    snapshot_time_fits = omega arith;
    manager_start_time_fits = omega arith;
    publish_interval_ms_fits = omega arith;
    flags_fits = omega arith;
    cpu_percent_fits = omega arith;
    memory_total_bytes_fits = omega arith;
    memory_available_bytes_fits = omega arith;
    load_average1_fits = omega arith;
    load_average5_fits = omega arith;
    load_average15_fits = omega arith;
    uptime_seconds_fits = omega arith;
    cpu_count_fits = omega arith;
  };
  services_fit = (
    record {
      pid_fits = omega arith;
      flags_fits = omega arith;
      restart_count_fits = omega arith;
      missed_beats_fits = omega arith;
      last_exit_code_fits = omega arith;
      process_count_fits = omega arith;
      thread_count_fits = omega arith;
      open_files_fits = omega arith;
      start_time_fits = omega arith;
      last_seen_fits = omega arith;
      last_exit_time_fits = omega arith;
      next_restart_time_fits = omega arith;
      cpu_time_usec_fits = omega arith;
      cpu_percent_fits = omega arith;
      memory_bytes_fits = omega arith;
      memory_peak_bytes_fits = omega arith;
      memory_limit_bytes_fits = omega arith;
      io_read_bytes_fits = omega arith;
      io_write_bytes_fits = omega arith;
      gpu_percent_fits = omega arith;
      gpu_memory_bytes_fits = omega arith;
      oom_kills_fits = omega arith;
      cpu_limit_percent_fits = omega arith;
    },
    (
      record {
        pid_fits = omega arith;
        flags_fits = omega arith;
        restart_count_fits = omega arith;
        missed_beats_fits = omega arith;
        last_exit_code_fits = omega arith;
        process_count_fits = omega arith;
        thread_count_fits = omega arith;
        open_files_fits = omega arith;
        start_time_fits = omega arith;
        last_seen_fits = omega arith;
        last_exit_time_fits = omega arith;
        next_restart_time_fits = omega arith;
        cpu_time_usec_fits = omega arith;
        cpu_percent_fits = omega arith;
        memory_bytes_fits = omega arith;
        memory_peak_bytes_fits = omega arith;
        memory_limit_bytes_fits = omega arith;
        io_read_bytes_fits = omega arith;
        io_write_bytes_fits = omega arith;
        gpu_percent_fits = omega arith;
        gpu_memory_bytes_fits = omega arith;
        oom_kills_fits = omega arith;
        cpu_limit_percent_fits = omega arith;
      },
      tt,
    ),
  );
  gpus_fit = (
    record {
      index_fits = omega arith;
      temperature_c_fits = omega arith;
      utilization_percent_fits = omega arith;
      memory_utilization_percent_fits = omega arith;
      memory_total_bytes_fits = omega arith;
      memory_used_bytes_fits = omega arith;
      power_milliwatts_fits = omega arith;
    },
    tt,
  );
  few_services = omega arith;
  few_gpus = omega arith;
}

both_valid : HasValidNames (running_service ∷ needed_service ∷ [])
unfolding new_service is_valid_service_name same_text name_characters is_name_character
both_valid = (refl, (refl, tt))

decode_report_example :
    decode_report (encode_report a_report) a_report ≡ (DecodeCode.ok, carried_report a_report)
decode_report_example = decode_report-encode_report a_report a_report a_report-ReportFits

report_lines_example :
    map report_line (decode_report (encode_report a_report) a_report).1.services
    ≡ (text "a", ServiceState.running) ∷ (text "b", ServiceState.running) ∷ []
unfolding new_service
report_lines_example =
    report_lines_lem minus_one builder (running_service ∷ needed_service ∷ []) snapshot cards 5 1000
      2 a_report both_valid a_report-ReportFits

health_lines_example :
    map health_line
      (decode_health_records (
        encode_health_records
          (build_health (statuses (running_service ∷ needed_service ∷ [])) 5))).1
    ≡ (text "a", RuntimeState.running) ∷ (text "b", RuntimeState.running) ∷ []
unfolding new_service build_health to_health_record statuses status pid_of to_runtime_state is_alive
health_lines_example = health_lines_lem (running_service ∷ needed_service ∷ []) 5 both_valid (
  record {
    pid_fits = omega arith;
    memory_fits = omega arith;
    cpu_fits = omega arith;
    start_fits = omega arith;
    seen_fits = omega arith;
    missed_fits = omega arith;
    restarts_fits = omega arith;
    snapshot_fits = omega arith;
  },
  (
    record {
      pid_fits = omega arith;
      memory_fits = omega arith;
      cpu_fits = omega arith;
      start_fits = omega arith;
      seen_fits = omega arith;
      missed_fits = omega arith;
      restarts_fits = omega arith;
      snapshot_fits = omega arith;
    },
    tt,
  ),
)

service_flags_example :
    (service_flags (status running_service) % 2 ≡ 1)
    × (service_flags (status running_service) / 2 % 2 ≡ 0)
    × (service_flags (status running_service) / 4 % 2 ≡ 0)
    × (service_flags (status running_service) / 8 % 2 ≡ 0)
    × (service_flags (status running_service) / 16 % 2 ≡ 0)
    × (service_flags (status running_service) / 32 % 2 ≡ 0)
    × (service_flags (status running_service) < 64)
unfolding status new_service heartbeat_enabled
service_flags_example = service_flags_lem (status running_service)
