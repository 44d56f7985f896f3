-- ===== src/Parser/ServiceKeys.antt =====
-- The keys of [defaults] and [service] sections, in manager/src/ConfigParser.cpp.
use improved_process_manager.Base.{
  ℕ, ◌+◌, Bool, not, ◌&&◌, ◌||◌, [], ◌∷◌, ◌++◌, Option, none, some, ◌==◌, if◌then◌else◌, take, drop,
  Text, text, same_text,
}
use improved_process_manager.Config.{
  ServiceConfig, EnvironmentVariable, UnhealthyAction, parse_restart_mode, parse_stop_signal,
}
use improved_process_manager.Parser.{ConfigCode, Parsed, failed, parsed, ◌>>=◌, fail, Paths}
use improved_process_manager.Parser.Lexing.{is_empty, trim, unquote}
use improved_process_manager.Parser.Values.{
  parse_bool, parse_percent, split_list, parse_byte_size, split_arguments,
}
use improved_process_manager.Parser.Keys.{
  max_window_s, max_count, require, read_number, apply_output, apply_duration,
}

-- Where `=` is.
unfoldable pub find_equals : Text → Option ℕ
find_equals [] = none
find_equals (c ∷ cs) =
    let later : Option ℕ = elim (find_equals cs) [ none ↦ none | some i ↦ some (i + 1) ] in
    if c == b'=' then some 0 else later

unfoldable pub read_variable : Text → Option ℕ → Option EnvironmentVariable
read_variable value none = none
read_variable value (some equals) =
    if is_empty (trim (take equals value))
    then none
    else some (record {
      name = trim (take equals value);
      value = unquote (trim (drop (equals + 1) value));
    })

unfoldable pub read_action : Text → Option UnhealthyAction
read_action value =
    if same_text value (text "none")
    then some UnhealthyAction.nothing
    else if same_text value (text "restart")
    then some UnhealthyAction.restart
    else none

-- `none`, or what the function reads.
unfoldable pub read_limit : (Text → Option ℕ) → Text → Option ℕ
read_limit read value = if same_text value (text "none") then some 0 else read value

-- A service of the section, with the line of its `depends_on`.
pub record Entry : Type 0 where
  pub service : ServiceConfig
  pub dependency_line : ℕ

abbrev pub with_config : Entry → Parsed ServiceConfig → Parsed Entry
with_config e (failed error) = failed error
with_config e (parsed s) = parsed (record e { service = s })

-- The keys of a service that hold text, lists and paths.
unfoldable pub apply_text_key :
    Paths → ServiceConfig → Text → Text → ℕ → Option (Parsed ServiceConfig)
apply_text_key paths s key value line =
    let is = same_text key in
    if is (text "description")
    then some (parsed (record s { description = unquote value }))
    else if is (text "binary")
    then some (
        if is_empty (unquote value)
        then fail ConfigCode.missing_value line (text "binary needs a path")
        else parsed (record s { binary = unquote value }))
    else if is (text "args")
    then some (do
      arguments ← require (split_arguments value) line (text "args has an unterminated quote")
      parsed (record s { arguments = arguments }))
    else if is (text "working_dir")
    then some (
        if not (is_empty (unquote value)) && not (paths.has_root_directory (unquote value))
        then fail ConfigCode.invalid_value line (text "working_dir must be an absolute path")
        else parsed (record s { working_directory = unquote value }))
    else if is (text "env")
    then some (do
      variable ←
          require (read_variable value (find_equals value)) line
            (text "env must look like NAME=value")
      parsed (record s { environment = s.environment ++ variable ∷ [] }))
    else none

-- The keys that hold numbers.
unfoldable pub apply_number_key : ServiceConfig → Text → Text → ℕ → Option (Parsed ServiceConfig)
apply_number_key s key value line =
    let is = same_text key in
    if is (text "restart_delay_ms")
    then some (do ms ← apply_duration key value line; parsed (record s { restart_delay = ms }))
    else if is (text "restart_delay_max_ms")
    then some (do ms ← apply_duration key value line; parsed (record s { restart_delay_max = ms }))
    else if is (text "start_grace_ms")
    then some (do ms ← apply_duration key value line; parsed (record s { start_grace = ms }))
    else if is (text "stop_timeout_ms")
    then some (do ms ← apply_duration key value line; parsed (record s { stop_timeout = ms }))
    else if is (text "heartbeat_interval_ms")
    then some (do ms ← apply_duration key value line; parsed (record s { heartbeat_interval = ms }))
    else if is (text "max_restarts")
    then some
        (do n ← read_number key value line 0 max_count; parsed (record s { max_restarts = n }))
    else if is (text "restart_window_s")
    then some
        (do n ← read_number key value line 1 max_window_s; parsed (record s { restart_window = n }))
    else if is (text "heartbeat_tolerance")
    then some (do
      n ← read_number key value line 1 max_count
      parsed (record s { heartbeat_tolerance = n }))
    else none

-- The keys that hold one of some words, or a limit.
unfoldable pub apply_choice_key :
    Paths → ServiceConfig → Text → Text → ℕ → Option (Parsed ServiceConfig)
apply_choice_key paths s key value line =
    let is = same_text key in
    if is (text "autostart")
    then some (do
      flag ← require (parse_bool value) line (text "autostart must be true or false")
      parsed (record s { autostart = flag }))
    else if is (text "restart")
    then some (do
      mode ←
          require (parse_restart_mode value) line
            (text "restart must be never, on-failure or always")
      parsed (record s { restart = mode }))
    else if is (text "stop_signal")
    then some (do
      signal ←
          require (parse_stop_signal value) line
            (text "stop_signal must be TERM, INT, HUP, QUIT, KILL, USR1 or USR2")
      parsed (record s { stop_signal = signal }))
    else if is (text "unhealthy_action")
    then some (do
      action ← require (read_action value) line (text "unhealthy_action must be none or restart")
      parsed (record s { unhealthy_action = action }))
    else if is (text "output")
    then some (apply_output paths s value line)
    else if is (text "memory_max")
    then some (do
      bytes ←
          require (read_limit parse_byte_size value) line
            (text "memory_max must be a size such as 512M, or none")
      parsed (record s { memory_max = bytes }))
    else if is (text "cpu_max")
    then some (do
      percent ←
          require (read_limit parse_percent value) line
            (text "cpu_max must be a percentage of one core such as 150%, or none")
      parsed (record s { cpu_max_percent = percent }))
    else none

abbrev pub or_else {ℓ} : {A : Type ℓ} → Option A → Option A → Option A
or_else none b = b
or_else (some a) b = some a

abbrev pub or_fail : Entry → Option (Parsed ServiceConfig) → Parsed Entry → Parsed Entry
or_fail e none otherwise = otherwise
or_fail e (some result) otherwise = with_config e result

unfoldable pub apply_service_key : Paths → Entry → Bool → Text → Text → ℕ → Parsed Entry
apply_service_key paths e defaults key value line =
    let is = same_text key in
    let where_it_is =
      if defaults then text "[defaults]" else text "[service " ++ (e.service.name ++ text "]") in
    if defaults
      && (is (text "binary")
          || is (text "args")
          || is (text "description")
          || is (text "depends_on"))
    then fail ConfigCode.unknown_key line (key ++ text " belongs in a [service] section")
    else if is (text "depends_on")
    then parsed (record {
      service = record e.service { depends_on = split_list value };
      dependency_line = line;
    })
    else or_fail e
        (or_else (apply_text_key paths e.service key value line) (
          or_else (apply_number_key e.service key value line)
            (apply_choice_key paths e.service key value line)))
        (fail ConfigCode.unknown_key line
          (text "unknown key '" ++ (key ++ (text "' in " ++ where_it_is))))
