-- ===== src/Reports/Published.antt =====
-- What a subscriber reads of the reports that manager/src/ReportBuilder.cpp makes of the statuses.
use mathlib.Core.Path.{ap₂}
use improved_process_manager.Base.{ℕ, ◌≡◌, refl, ap, true, List, [], ◌∷◌, map, arith, All, Text}
use improved_process_manager.Config.{is_valid_service_name}
use improved_process_manager.Detailed.{DetailedReport, ServiceRecord, encode_report, decode_report}
use improved_process_manager.Detailed.Records.{carried_service}
use improved_process_manager.Detailed.Report.{ReportFits, decode_report-encode_report}
use improved_process_manager.Health.{
  HealthRecord, RuntimeState, encode_health_records, decode_health_records,
}
use improved_process_manager.Health.Codec.{IsRepresentable, carried_record}
use improved_process_manager.Health.Report.{decode_health_records-encode_health_records}
use improved_process_manager.Manager.Lookup.{statuses}
use improved_process_manager.Manager.Sampling.{GpuSnapshot}
use improved_process_manager.Reports.{
  Rounding, ReportBuilder, SystemSnapshot, to_service_record, to_health_record, build_health,
  build_report,
}
use improved_process_manager.Reports.Fitting.{carried-is_valid_service_name}
use improved_process_manager.Service.{Service}
use improved_process_manager.Service.Status.{status}
use improved_process_manager.State.{ServiceState, to_runtime_state}

-- What the reports tell of each service.
abbrev pub report_line : ServiceRecord → Text × ServiceState
report_line r = (r.name, r.state)

abbrev pub health_line : HealthRecord → Text × RuntimeState
health_line r = (r.process_name, r.state)

abbrev pub HasValidNames : List Service → Type 0
HasValidNames = All (λ s. is_valid_service_name s.config.name ≡ true)

report_lines :
    (pattern : Rounding) (services : List Service)
    → HasValidNames services
    → map report_line (map carried_service (map (to_service_record pattern) (statuses services)))
      ≡ map (λ s. (s.config.name, s.state)) services
unfolding statuses to_service_record status
report_lines pattern [] h = refl
report_lines pattern (s ∷ ss) (valid, h) =
    ap₂ ◌∷◌
      (ap (λ n. (n, s.state)) (carried-is_valid_service_name 32 s.config.name (omega arith) valid))
      (report_lines pattern ss h)

health_lines :
    (now : ℕ) (services : List Service)
    → HasValidNames services
    → map health_line (map carried_record (build_health (statuses services) now))
      ≡ map (λ s. (s.config.name, to_runtime_state s.state)) services
unfolding statuses build_health to_health_record status
health_lines now [] h = refl
health_lines now (s ∷ ss) (valid, h) =
    ap₂ ◌∷◌
      (ap (λ n. (n, to_runtime_state s.state))
        (carried-is_valid_service_name 64 s.config.name (omega arith) valid))
      (health_lines now ss h)

-- A subscriber reads the whole name and the state of every service, in the order of the manager, from
-- the detailed report that is built of its statuses, provided the names are valid and the numbers fit.
pub report_lines_lem :
    (pattern : Rounding) (builder : ReportBuilder) (services : List Service)
    (system : SystemSnapshot) (gpu : GpuSnapshot) (now interval flags : ℕ) (out : DetailedReport)
    → HasValidNames services
    → ReportFits (build_report pattern builder (statuses services) system gpu now interval flags)
    → map report_line
        (decode_report
          (encode_report
            (build_report pattern builder (statuses services) system gpu now interval flags))
          out).1.services
      ≡ map (λ s. (s.config.name, s.state)) services
unfolding build_report
report_lines_lem pattern builder services system gpu now interval flags out valid fits =
    rw
      (decode_report-encode_report
        (build_report pattern builder (statuses services) system gpu now interval flags) out fits)
      (report_lines pattern services valid)

-- A subscriber reads the whole name of every service, and the state that the health report shows for
-- its state, from the health report that is built of the statuses, provided the names are valid and the
-- numbers fit.
pub health_lines_lem :
    (services : List Service) (now : ℕ)
    → HasValidNames services
    → All IsRepresentable (build_health (statuses services) now)
    → map health_line
        (decode_health_records (encode_health_records (build_health (statuses services) now))).1
      ≡ map (λ s. (s.config.name, to_runtime_state s.state)) services
health_lines_lem services now valid fits =
    rw (decode_health_records-encode_health_records (build_health (statuses services) now) fits)
      (health_lines now services valid)
