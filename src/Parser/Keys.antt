-- ===== src/Parser/Keys.antt =====
-- The keys of [manager], [defaults] and [service] sections, in manager/src/ConfigParser.cpp.
use improved_process_manager.Base.{
  ℕ, not, ◌||◌, ◌++◌, Option, none, some, if◌then◌else◌, Text, text, same_text, to_string,
}
use improved_process_manager.Config.{ServiceConfig, OutputMode}
use improved_process_manager.Parser.{ConfigCode, Parsed, parsed, ◌>>=◌, fail, Paths}
use improved_process_manager.Parser.Lexing.{is_empty, unquote}
use improved_process_manager.Parser.Settings.{ManagerSettings, CgroupMode, GpuMode, parse_log_level}
use improved_process_manager.Parser.Values.{parse_integer, in_range}

abbrev pub max_duration_ms : ℕ
max_duration_ms = 86_400_000

abbrev pub max_window_s : ℕ
max_window_s = 86_400

abbrev pub max_count : ℕ
max_count = 1_000_000

abbrev pub min_publish_ms : ℕ
min_publish_ms = 100

abbrev pub max_publish_ms : ℕ
max_publish_ms = 60_000

-- What was read, or the failure of a value.
unfoldable pub require {ℓ} : {A : Type ℓ} → Option A → ℕ → Text → Parsed A
require none line message = fail ConfigCode.invalid_value line message
require (some a) line message = parsed a

unfoldable pub read_number : Text → Text → ℕ → ℕ → ℕ → Parsed ℕ
read_number key value line minimum maximum =
    require (in_range minimum maximum (parse_integer value)) line (
      key
      ++ (text " must be a whole number from "
          ++ (to_string minimum ++ (text " to " ++ to_string maximum))))

unfoldable pub read_cgroups : Text → Option CgroupMode
read_cgroups value =
    if same_text value (text "auto")
    then some CgroupMode.auto
    else if same_text value (text "off")
    then some CgroupMode.off
    else if same_text value (text "required")
    then some CgroupMode.required
    else none

unfoldable pub read_gpu : Text → Option GpuMode
read_gpu value =
    if same_text value (text "auto")
    then some GpuMode.auto
    else if same_text value (text "off")
    then some GpuMode.off
    else none

unfoldable pub set_endpoint : ManagerSettings → Text → Text → ManagerSettings
set_endpoint m key endpoint =
    if same_text key (text "health_endpoint")
    then record m { health_endpoint = endpoint }
    else if same_text key (text "report_endpoint")
    then record m { report_endpoint = endpoint }
    else record m { command_endpoint = endpoint }

unfoldable pub apply_manager_key : ManagerSettings → Text → Text → ℕ → Parsed ManagerSettings
apply_manager_key m key value line =
    let is = same_text key in
    if is (text "health_endpoint") || is (text "report_endpoint") || is (text "command_endpoint")
    then (if is_empty (unquote value)
        then fail ConfigCode.missing_value line (key ++ text " needs an endpoint")
        else parsed (set_endpoint m key (unquote value)))
    else if is (text "publish_interval_ms")
    then (do
      ms ← read_number key value line min_publish_ms max_publish_ms
      parsed (record m { publish_interval = ms }))
    else if is (text "log_level")
    then (do
      level ←
          require (parse_log_level value) line
            (text "log_level must be error, warning, info or debug")
      parsed (record m { log_level = level }))
    else if is (text "cgroups")
    then (do
      mode ← require (read_cgroups value) line (text "cgroups must be auto, off or required")
      parsed (record m { cgroups = mode }))
    else if is (text "gpu")
    then (do
      mode ← require (read_gpu value) line (text "gpu must be auto or off")
      parsed (record m { gpu = mode }))
    else fail ConfigCode.unknown_key line (text "unknown key '" ++ (key ++ text "' in [manager]"))

unfoldable pub apply_output : Paths → ServiceConfig → Text → ℕ → Parsed ServiceConfig
apply_output paths s value line =
    if same_text value (text "auto")
    then parsed (record s { output = OutputMode.auto })
    else if same_text value (text "journal")
    then parsed (record s { output = OutputMode.journal })
    else if same_text value (text "inherit")
    then parsed (record s { output = OutputMode.inherit })
    else if same_text value (text "null")
    then parsed (record s { output = OutputMode.null })
    else if is_empty (unquote value) || not (paths.is_absolute (unquote value))
    then fail ConfigCode.invalid_value line
        (text "output must be auto, journal, inherit, null or an absolute file path")
    else parsed (record s { output = OutputMode.file; output_path = unquote value })

unfoldable pub apply_duration : Text → Text → ℕ → Parsed ℕ
apply_duration key value line = read_number key value line 0 max_duration_ms
