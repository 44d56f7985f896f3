-- ===== src/Detailed/Report.antt =====
-- The whole detailed report of manager/src/DetailedReport.cpp, written and read back.
use mathlib.Core.Path.{ap₂}
use improved_process_manager.Base.{
  ℕ, ◌+◌, ◌*◌, ◌≤◌, ◌≡◌, refl, ap, ◌∙◌, arith, List, [], ◌∷◌, map, length, All, Bytes, true, false,
  ◌==◌, ltb,
}
use improved_process_manager.Command.{DecodeCode}
use improved_process_manager.Detailed.{
  ServiceRecord, GpuRecord, DetailedReport, encode_services, encode_gpus, encode_report,
  report_size, decode_services, decode_gpus, decode_body, decode_report, max_report_records,
}
use improved_process_manager.Detailed.Layout.{
  service_fields, gpu_fields, header_fields, service_fields_lem, gpu_fields_lem, header_fields_lem,
  encode_service-write_all, encode_gpu-write_all, encode_header-write_all, ServiceFits, GpuFits,
  HeaderFits,
}
use improved_process_manager.Detailed.Records.{
  carried_service, carried_gpu, decode_service_lem, decode_gpu_lem,
}
use improved_process_manager.Wire.Fields.{
  Holds, write_all, length-write_all, write_all-Holds, at, extent, is_layout-within,
}
use improved_process_manager.Wire.Reader.{WireReader}
use improved_process_manager.Wire.Rows.{
  AgreeBelow, write_rows, HoldsRows, length-write_rows, write_rows-AgreeBelow, HoldsRows-kept,
  write_rows-HoldsRows,
}
use improved_process_manager.Wire.Stored.{
  stored_u16, stored_u32, stored_u64, stored_f64, stored_i32, stored_i64, stored_text,
}
use improved_process_manager.Wire.Texts.{carried}
use improved_process_manager.Wire.Writer.{zeros, length-zeros, new_writer}

abbrev service_rows : ℕ → List ServiceRecord → Bytes → Bytes
service_rows = write_rows 368 service_fields service_fields_lem

abbrev gpu_rows : ℕ → List GpuRecord → Bytes → Bytes
gpu_rows = write_rows 160 gpu_fields gpu_fields_lem

abbrev HoldsServices : ℕ → List ServiceRecord → Bytes → Type 0
HoldsServices = HoldsRows 368 service_fields service_fields_lem

abbrev HoldsGpus : ℕ → List GpuRecord → Bytes → Type 0
HoldsGpus = HoldsRows 160 gpu_fields gpu_fields_lem

encode_services_lem :
    (base : ℕ) (rs : List ServiceRecord) (writer : Bytes)
    → encode_services base rs writer ≡ service_rows base rs writer
unfolding encode_services
encode_services_lem base [] writer = refl
encode_services_lem base (r ∷ rs) writer =
    rw (encode_service-write_all r writer base)
      (encode_services_lem (base + 368) rs (write_all base (service_fields r) writer))

encode_gpus_lem :
    (base : ℕ) (rs : List GpuRecord) (writer : Bytes)
    → encode_gpus base rs writer ≡ gpu_rows base rs writer
unfolding encode_gpus
encode_gpus_lem base [] writer = refl
encode_gpus_lem base (r ∷ rs) writer =
    rw (encode_gpu-write_all r writer base)
      (encode_gpus_lem (base + 160) rs (write_all base (gpu_fields r) writer))

decode_services_lem :
    (payload : Bytes) (base : ℕ) (rs : List ServiceRecord)
    → base + length rs * 368 ≤ length payload
    → HoldsServices base rs payload
    → All ServiceFits rs
    → decode_services payload base 368 (length rs) ≡ map carried_service rs
unfolding decode_services
decode_services_lem payload base [] h holds v = refl
decode_services_lem payload base (r ∷ rs) h (one, rest) (fits, all) =
    ap₂ ◌∷◌
      (decode_service_lem (record { bytes = payload; base = base; part = 368 }) r (omega arith)
        (omega arith) one fits)
      (decode_services_lem payload (base + 368) rs (omega arith) rest all)

decode_gpus_lem :
    (payload : Bytes) (base : ℕ) (rs : List GpuRecord)
    → base + length rs * 160 ≤ length payload
    → HoldsGpus base rs payload
    → All GpuFits rs
    → decode_gpus payload base 160 (length rs) ≡ map carried_gpu rs
unfolding decode_gpus
decode_gpus_lem payload base [] h holds v = refl
decode_gpus_lem payload base (r ∷ rs) h (one, rest) (fits, all) =
    ap₂ ◌∷◌
      (decode_gpu_lem (record { bytes = payload; base = base; part = 160 }) r (omega arith)
        (omega arith) one fits)
      (decode_gpus_lem payload (base + 160) rs (omega arith) rest all)

-- The report with its texts as their fields carry them.
abbrev pub carried_report : DetailedReport → DetailedReport
carried_report r = record r {
  host_name = carried 64 r.host_name;
  manager_version = carried 16 r.manager_version;
  services = map carried_service r.services;
  gpus = map carried_gpu r.gpus;
}

-- Every number fits its C++ type, and there are not more records than a reader accepts.
pub record ReportFits (r : DetailedReport) : Type 0 where
  pub header_fits : HeaderFits r
  pub services_fit : All ServiceFits r.services
  pub gpus_fit : All GpuFits r.gpus
  pub few_services : length r.services ≤ max_report_records
  pub few_gpus : length r.gpus ≤ max_report_records

module _ (r : DetailedReport) where
  abbrev services_end : ℕ
  services_end = 192 + length r.services * 368

  abbrev after_header : Bytes
  after_header = write_all 0 (header_fields r) (zeros (report_size r))

  abbrev after_services : Bytes
  after_services = service_rows 192 r.services after_header

  abbrev payload : Bytes
  payload = gpu_rows services_end r.gpus after_services

  encode_report_lem : encode_report r ≡ payload
  unfolding encode_report new_writer
  encode_report_lem =
      rw
        (
          encode_header-write_all r (zeros (report_size r)),
          encode_services_lem 192 r.services after_header,
        )
        (encode_gpus_lem services_end r.gpus after_services)

  length-after_header : length after_header ≡ report_size r
  length-after_header =
      length-write_all 192 0 (header_fields r) (zeros (report_size r)) (header_fields_lem r)
        (omega (arith, length-zeros (report_size r)))
      ∙ length-zeros (report_size r)

  length-after_services : length after_services ≡ report_size r
  length-after_services =
      length-write_rows 368 service_fields service_fields_lem 192 r.services after_header
        (omega (arith, length-after_header))
      ∙ length-after_header

  length-payload : length payload ≡ report_size r
  length-payload =
      length-write_rows 160 gpu_fields gpu_fields_lem services_end r.gpus after_services
        (omega (arith, length-after_services))
      ∙ length-after_services

  payload-AgreeBelow : AgreeBelow services_end payload after_services
  payload-AgreeBelow =
      write_rows-AgreeBelow 160 gpu_fields gpu_fields_lem services_end r.gpus after_services
        (omega (arith, length-after_services))

  payload-HoldsGpus : HoldsGpus services_end r.gpus payload
  payload-HoldsGpus =
      write_rows-HoldsRows 160 gpu_fields gpu_fields_lem services_end r.gpus after_services
        (omega (arith, length-after_services))

  payload-HoldsServices : HoldsServices 192 r.services payload
  payload-HoldsServices =
      HoldsRows-kept 368 service_fields service_fields_lem 192 r.services payload after_services
        payload-AgreeBelow
        (write_rows-HoldsRows 368 service_fields service_fields_lem 192 r.services after_header
          (omega (arith, length-after_header)))

  payload-Holds : Holds 0 (header_fields r) payload
  payload-Holds i f e =
      let within = is_layout-within 192 i (header_fields r) f (header_fields_lem r) e in
      payload-AgreeBelow (0 + at f) (extent f) (omega (arith, within))
      ∙ (write_rows-AgreeBelow 368 service_fields service_fields_lem 192 r.services after_header
            (omega (arith, length-after_header)) (0 + at f) (extent f) (omega (arith, within))
          ∙ write_all-Holds 192 0 (header_fields r) (zeros (report_size r)) (header_fields_lem r)
              (omega (arith, length-zeros (report_size r))) i f e)

  abbrev header : WireReader
  header = record { bytes = payload; base = 0; part = length payload }

  decode_body_lem :
      ReportFits r
      → decode_body payload header 192 368 160 (length r.services) (length r.gpus)
        ≡ carried_report r
  unfolding decode_body
  decode_body_lem v =
      let sized = length-payload in
      let at_i32 = stored_i32 header (header_fields r) (omega arith) payload-Holds in
      let at_i64 = stored_i64 header (header_fields r) (omega arith) payload-Holds in
      let at_u64 = stored_u64 header (header_fields r) (omega arith) payload-Holds in
      let at_f64 = stored_f64 header (header_fields r) (omega arith) payload-Holds in
      let at_u32 = stored_u32 header (header_fields r) (omega arith) payload-Holds in
      let at_text = stored_text header (header_fields r) (omega arith) payload-Holds in
      let e1 =
        at_i32 7 20 r.manager_pid refl (omega (arith, sized)) v.header_fits.manager_pid_fits in
      let e2 =
        at_i64 8 24 r.snapshot_time refl (omega (arith, sized)) v.header_fits.snapshot_time_fits in
      let e3 =
        at_i64 9 32 r.manager_start_time refl (omega (arith, sized))
          v.header_fits.manager_start_time_fits in
      let e4 =
        at_u32 10 40 r.publish_interval_ms refl (omega (arith, sized))
          v.header_fits.publish_interval_ms_fits in
      let e5 = at_u32 11 44 r.flags refl (omega (arith, sized)) v.header_fits.flags_fits in
      let e6 =
        at_f64 12 48 r.system.cpu_percent refl (omega (arith, sized))
          v.header_fits.cpu_percent_fits in
      let e7 =
        at_u64 13 56 r.system.memory_total_bytes refl (omega (arith, sized))
          v.header_fits.memory_total_bytes_fits in
      let e8 =
        at_u64 14 64 r.system.memory_available_bytes refl (omega (arith, sized))
          v.header_fits.memory_available_bytes_fits in
      let e9 =
        at_f64 15 72 r.system.load_average1 refl (omega (arith, sized))
          v.header_fits.load_average1_fits in
      let e10 =
        at_f64 16 80 r.system.load_average5 refl (omega (arith, sized))
          v.header_fits.load_average5_fits in
      let e11 =
        at_f64 17 88 r.system.load_average15 refl (omega (arith, sized))
          v.header_fits.load_average15_fits in
      let e12 =
        at_u64 18 96 r.system.uptime_seconds refl (omega (arith, sized))
          v.header_fits.uptime_seconds_fits in
      let e13 =
        at_u32 19 104 r.system.cpu_count refl (omega (arith, sized)) v.header_fits.cpu_count_fits in
      let e14 = at_text 20 112 64 r.host_name refl (omega arith) (omega (arith, sized)) in
      let e15 = at_text 21 176 16 r.manager_version refl (omega arith) (omega (arith, sized)) in
      let services =
        decode_services_lem payload 192 r.services (omega (arith, sized)) payload-HoldsServices
          v.services_fit in
      let gpus =
        decode_gpus_lem payload services_end r.gpus (omega (arith, sized)) payload-HoldsGpus
          v.gpus_fit in
      rw (e1, e2, e3, e4, e5, e6, e7, e8, e9, e10, e11, e12, e13, e14, e15, services, gpus) refl

  decode_payload :
      ReportFits r
      → (out : DetailedReport) → decode_report payload out ≡ (DecodeCode.ok, carried_report r)
  unfolding decode_report
  decode_payload v out =
      let sized = length-payload in
      let at_u16 = stored_u16 header (header_fields r) (omega arith) payload-Holds in
      let at_u32 = stored_u32 header (header_fields r) (omega arith) payload-Holds in
      let e0 = at_u32 0 0 0x524D5042 refl (omega (arith, sized)) (omega arith) in
      let e1 = at_u16 1 4 1 refl (omega (arith, sized)) (omega arith) in
      let e2 = at_u16 2 6 192 refl (omega (arith, sized)) (omega arith) in
      let e3 = at_u16 3 8 368 refl (omega (arith, sized)) (omega arith) in
      let e4 = at_u16 4 10 160 refl (omega (arith, sized)) (omega arith) in
      let e5 =
        at_u32 5 12 (length r.services) refl (omega (arith, sized))
          (omega (arith, v.few_services)) in
      let e6 =
        at_u32 6 16 (length r.gpus) refl (omega (arith, sized)) (omega (arith, v.few_gpus)) in
      let long : ltb (length payload) 192 ≡ false = ground (arith, sized) in
      let services : ltb max_report_records (length r.services) ≡ false =
        ground (arith, v.few_services) in
      let gpus : ltb max_report_records (length r.gpus) ≡ false = ground (arith, v.few_gpus) in
      let whole : (length payload == 192 + length r.services * 368 + length r.gpus * 160) ≡ true =
        ground (arith, sized) in
      rw (e0, e1, e2, e3, e4, e5, e6, long, services, gpus, whole, decode_body_lem v) refl

-- Decoding an encoded report gives it back, its texts as their fields carry them, provided its numbers
-- fit their C++ types and there are not more records than a reader accepts.
pub decode_report-encode_report :
    (r : DetailedReport) (out : DetailedReport)
    → ReportFits r
    → decode_report (encode_report r) out ≡ (DecodeCode.ok, carried_report r)
decode_report-encode_report r out v =
    ap (λ p. decode_report p out) (encode_report_lem r) ∙ decode_payload r v out
