-- ===== src/Invocation.antt =====
-- manager/include/CommandLine.hpp and manager/src/CommandLine.cpp: the arguments of the program. What
-- DefaultConfigPath returns, which one operating system computes, is an argument.
pub mod Acceptance
pub mod Modes
pub mod Endpoints
use improved_process_manager.Base.{
  ℕ, ◌+◌, ◌-◌, Bool, true, false, not, ◌&&◌, ◌||◌, List, [], ◌∷◌, ◌++◌, Option, none, some, ltb,
  ◌==◌, if◌then◌else◌, take, drop, Text, text, same_text, to_string,
}
use improved_process_manager.Config.{is_valid_service_name}
use improved_process_manager.Parser.ServiceKeys.{find_equals}
use improved_process_manager.Parser.Settings.{LogLevel, parse_log_level}
use improved_process_manager.Parser.Values.{parse_integer, in_range}

pub data Mode : Type 0 where
  run status start stop restart reload heartbeat check help version : Mode

-- The number of an enumerator.
abbrev pub mode_number : Mode → ℕ
mode_number Mode.run = 0
mode_number Mode.status = 1
mode_number Mode.start = 2
mode_number Mode.stop = 3
mode_number Mode.restart = 4
mode_number Mode.reload = 5
mode_number Mode.heartbeat = 6
mode_number Mode.check = 7
mode_number Mode.help = 8
mode_number Mode.version = 9

pub record Options : Type 0 where
  pub mode : Mode
  pub service_name : Text
  pub config_path : Text
  pub config_given : Bool
  pub command_endpoint : Text
  pub report_endpoint : Text
  pub timeout : ℕ
  pub timeout_given : Bool
  pub watch : Bool
  pub wide : Bool
  pub log_level : Option LogLevel

pub data ParseCode : Type 0 where
  ok unknown_option missing_value conflicting_modes invalid_value : ParseCode

-- A code other than `ParseCode::Ok` with its text, or what was read.
pub data Accepted (A : Type 0) : Type 0 where
  refused : ParseCode → Text → Accepted A
  accepted : A → Accepted A

infixl 1 ◌>>=◌
abbrev pub ◌>>=◌ : {A B : Type 0} → Accepted A → (A → Accepted B) → Accepted B
refused code error >>= f = refused code error
accepted a >>= f = f a

-- The local variables of the loop.
pub record Choice : Type 0 where
  pub options : Options
  pub mode_set : Bool

abbrev pub max_timeout_ms : ℕ
max_timeout_ms = 600_000

unfoldable pub set_mode : Choice → Mode → Text → Accepted Choice
set_mode c mode flag =
    if c.mode_set && not (mode_number c.options.mode == mode_number mode)
    then refused ParseCode.conflicting_modes (flag ++ text " cannot be combined with another mode")
    else accepted (record { options = record c.options { mode = mode }; mode_set = true })

unfoldable pub set_service_mode : Choice → Mode → Text → Text → Accepted Choice
set_service_mode c mode flag value =
    if not (same_text value (text "*")) && not (is_valid_service_name value)
    then refused ParseCode.invalid_value (
        text "'"
        ++ (value ++ text "' is not a service name (1 to 31 of A-Z a-z 0-9 _ . -, or '*' for all)"))
    else set_mode (record c { options = record c.options { service_name = value } }) mode flag

-- An argument taken apart: `--flag=value`, or a flag alone.
pub record Flag : Type 0 where
  pub name : Text
  pub value : Text
  pub has_inline_value : Bool

unfoldable pub split_at_equals : Text → Option ℕ → Flag
split_at_equals t none = record { name = t; value = []; has_inline_value = false }
split_at_equals t (some k) = record {
  name = take k t;
  value = drop (k + 1) t;
  has_inline_value = true;
}

unfoldable pub split_flag : Text → Flag
split_flag t =
    if same_text (take 2 t) (text "--")
    then split_at_equals t (find_equals t)
    else split_at_equals t none

unfoldable pub wants_value : Text → Bool
wants_value flag =
    let is = same_text flag in
    is (text "-c")
    || is (text "--config")
    || is (text "-s")
    || is (text "--start")
    || is (text "-k")
    || is (text "--stop")
    || is (text "-r")
    || is (text "--restart")
    || is (text "--heartbeat")
    || is (text "--command")
    || is (text "--report")
    || is (text "--timeout")
    || is (text "--log-level")

unfoldable pub set_heartbeat : Choice → Text → Text → Accepted Choice
set_heartbeat c flag value =
    if same_text value (text "*")
    then refused ParseCode.invalid_value (text "--heartbeat names one service")
    else set_service_mode c Mode.heartbeat flag value

unfoldable pub set_timeout : Choice → Option ℕ → Accepted Choice
set_timeout c none =
    refused ParseCode.invalid_value
      (text "--timeout must be a number of milliseconds from 1 to " ++ to_string max_timeout_ms)
set_timeout c (some ms) =
    accepted (record c { options = record c.options { timeout = ms; timeout_given = true } })

unfoldable pub set_log_level : Choice → Option LogLevel → Accepted Choice
set_log_level c none =
    refused ParseCode.invalid_value (text "--log-level must be error, warning, info or debug")
set_log_level c (some level) =
    accepted (record c { options = record c.options { log_level = some level } })

-- The chain of flags, with the argument as it was given.
unfoldable pub apply_flag : Choice → Text → Text → Text → Accepted Choice
apply_flag c argument flag value =
    let is = same_text flag in
    if is (text "-h") || is (text "--help")
    then set_mode c Mode.help flag
    else if is (text "-V") || is (text "--version")
    then set_mode c Mode.version flag
    else if is (text "-c") || is (text "--config")
    then accepted
        (record c { options = record c.options { config_path = value; config_given = true } })
    else if is (text "-l") || is (text "--status")
    then set_mode c Mode.status flag
    else if is (text "-w") || is (text "--watch")
    then set_mode (record c { options = record c.options { watch = true } }) Mode.status flag
    else if is (text "--wide")
    then accepted (record c { options = record c.options { wide = true } })
    else if is (text "-s") || is (text "--start")
    then set_service_mode c Mode.start flag value
    else if is (text "-k") || is (text "--stop")
    then set_service_mode c Mode.stop flag value
    else if is (text "-r") || is (text "--restart")
    then set_service_mode c Mode.restart flag value
    else if is (text "--heartbeat")
    then set_heartbeat c flag value
    else if is (text "--reload")
    then set_mode c Mode.reload flag
    else if is (text "--check")
    then set_mode c Mode.check flag
    else if is (text "--command")
    then accepted (record c { options = record c.options { command_endpoint = value } })
    else if is (text "--report")
    then accepted (record c { options = record c.options { report_endpoint = value } })
    else if is (text "--timeout")
    then set_timeout c (in_range 1 max_timeout_ms (parse_integer value))
    else if is (text "--log-level")
    then set_log_level c (parse_log_level value)
    else if is (text "-v") || is (text "--verbose")
    then accepted (record c { options = record c.options { log_level = some LogLevel.debug } })
    else refused ParseCode.unknown_option
        (text "unknown option " ++ (argument ++ text " (see --help)"))

-- `TakeValue` reads the next argument exactly then.
abbrev pub takes_next : Flag → Bool
takes_next f = wants_value f.name && not f.has_inline_value

-- The loop.
unfoldable pub parse_arguments : List Text → Choice → Accepted Choice
parse_arguments [] c = accepted c
parse_arguments (a ∷ []) c =
    let f = split_flag a in
    if takes_next f
    then refused ParseCode.missing_value (f.name ++ text " needs a value")
    else apply_flag c a f.name f.value
parse_arguments (a ∷ (b ∷ rest)) c =
    let f = split_flag a in
    elim (takes_next f) [
      | true ↦ apply_flag c a f.name b >>= parse_arguments rest
      | false ↦ apply_flag c a f.name f.value >>= parse_arguments (b ∷ rest)
    ]

abbrev pub default_options : Text → Options
default_options default_config_path = record {
  mode = Mode.run;
  service_name = [];
  config_path = default_config_path;
  config_given = false;
  command_endpoint = [];
  report_endpoint = [];
  timeout = 3000;
  timeout_given = false;
  watch = false;
  wide = false;
  log_level = none;
}

unfoldable pub parse_command_line : Text → List Text → Accepted Options
parse_command_line default_config_path arguments = do
  c ←
      parse_arguments arguments
        (record { options = default_options default_config_path; mode_set = false })
  accepted c.options

-- `rfind` of a colon.
unfoldable pub last_colon : Text → Option ℕ
last_colon [] = none
last_colon (c ∷ cs) =
    let here : Option ℕ = if c == b':' then some 0 else none in
    elim (last_colon cs) [ none ↦ here | some k ↦ some (k + 1) ]

unfoldable pub connect_host : Text → Text → Text → Text
connect_host bind_endpoint host port =
    if same_text host (text "*") || same_text host (text "0.0.0.0")
    then text "tcp://127.0.0.1" ++ port
    else if same_text host (text "[::]") || same_text host (text "::")
    then text "tcp://[::1]" ++ port
    else bind_endpoint

unfoldable pub connect_at : Text → Option ℕ → Text
connect_at bind_endpoint none = bind_endpoint
connect_at bind_endpoint (some colon) =
    if ltb colon 6
    then bind_endpoint
    else connect_host bind_endpoint (take (colon - 6) (drop 6 bind_endpoint))
        (drop colon bind_endpoint)

unfoldable pub connect_endpoint : Text → Text
connect_endpoint bind_endpoint =
    if same_text (take 6 bind_endpoint) (text "tcp://")
    then connect_at bind_endpoint (last_colon bind_endpoint)
    else bind_endpoint
