-- ===== src/Config.antt =====
-- manager/include/ServiceConfig.hpp and manager/src/ServiceConfig.cpp. Durations are numbers of
-- milliseconds (`restart_window` of seconds), and not negative, as the parser sees to.
pub mod Names
pub mod Same
use improved_process_manager.Base.{
  ℕ, ◌<◌, Bool, true, false, not, ◌&&◌, ◌||◌, List, [], ◌∷◌, Option, none, some, ltb, leb, ◌==◌,
  if◌then◌else◌, length, take, drop, Text, text, same_text,
}

abbrev pub max_service_name_length : ℕ
max_service_name_length = 31

pub data RestartMode : Type 0 where
  never on_failure always : RestartMode

abbrev pub restart_byte : RestartMode → ℕ
restart_byte RestartMode.never = 0
restart_byte RestartMode.on_failure = 1
restart_byte RestartMode.always = 2

pub data OutputMode : Type 0 where
  auto journal inherit null file : OutputMode

abbrev pub output_byte : OutputMode → ℕ
output_byte OutputMode.auto = 0
output_byte OutputMode.journal = 1
output_byte OutputMode.inherit = 2
output_byte OutputMode.null = 3
output_byte OutputMode.file = 4

pub data StopSignal : Type 0 where
  terminate interrupt hangup quit kill user1 user2 : StopSignal

abbrev pub signal_byte : StopSignal → ℕ
signal_byte StopSignal.terminate = 0
signal_byte StopSignal.interrupt = 1
signal_byte StopSignal.hangup = 2
signal_byte StopSignal.quit = 3
signal_byte StopSignal.kill = 4
signal_byte StopSignal.user1 = 5
signal_byte StopSignal.user2 = 6

pub data UnhealthyAction : Type 0 where
  nothing restart : UnhealthyAction

abbrev pub action_byte : UnhealthyAction → ℕ
action_byte UnhealthyAction.nothing = 0
action_byte UnhealthyAction.restart = 1

pub record EnvironmentVariable : Type 0 where
  pub name : Text
  pub value : Text

pub record ServiceConfig : Type 0 where
  pub name : Text
  pub description : Text
  pub binary : Text
  pub arguments : List Text
  pub working_directory : Text
  pub environment : List EnvironmentVariable
  pub autostart : Bool
  pub restart : RestartMode
  pub restart_delay : ℕ
  pub restart_delay_max : ℕ
  pub max_restarts : ℕ
  pub restart_window : ℕ
  pub start_grace : ℕ
  pub stop_signal : StopSignal
  pub stop_timeout : ℕ
  pub heartbeat_interval : ℕ
  pub heartbeat_tolerance : ℕ
  pub unhealthy_action : UnhealthyAction
  pub depends_on : List Text
  pub output : OutputMode
  pub output_path : Text
  pub memory_max : ℕ
  pub cpu_max_percent : ℕ

-- The loop of `SameEnvironment`, behind its test of the sizes.
same_variables : List EnvironmentVariable → List EnvironmentVariable → Bool
same_variables (x ∷ xs) (y ∷ ys) =
    let rest = same_variables xs ys in
    if not (same_text x.name y.name) || not (same_text x.value y.value) then false else rest
same_variables _ _ = true

unfoldable pub same_environment : List EnvironmentVariable → List EnvironmentVariable → Bool
unfolding same_variables
same_environment a b = if not (length a == length b) then false else same_variables a b

-- `==` of two vectors of strings.
unfoldable pub same_texts : List Text → List Text → Bool
same_texts [] [] = true
same_texts (x ∷ xs) (y ∷ ys) = same_text x y && same_texts xs ys
same_texts _ _ = false

-- `==` of two flags.
unfoldable pub same_flag : Bool → Bool → Bool
same_flag true b = b
same_flag false b = not b

unfoldable pub same_service_config : ServiceConfig → ServiceConfig → Bool
same_service_config a b =
    same_text a.name b.name
    && same_text a.description b.description
    && same_text a.binary b.binary
    && same_texts a.arguments b.arguments
    && same_text a.working_directory b.working_directory
    && same_environment a.environment b.environment
    && same_flag a.autostart b.autostart
    && restart_byte a.restart == restart_byte b.restart
    && a.restart_delay == b.restart_delay
    && a.restart_delay_max == b.restart_delay_max
    && a.max_restarts == b.max_restarts
    && a.restart_window == b.restart_window
    && a.start_grace == b.start_grace
    && signal_byte a.stop_signal == signal_byte b.stop_signal
    && a.stop_timeout == b.stop_timeout
    && a.heartbeat_interval == b.heartbeat_interval
    && a.heartbeat_tolerance == b.heartbeat_tolerance
    && action_byte a.unhealthy_action == action_byte b.unhealthy_action
    && same_texts a.depends_on b.depends_on
    && output_byte a.output == output_byte b.output
    && same_text a.output_path b.output_path
    && a.memory_max == b.memory_max
    && a.cpu_max_percent == b.cpu_max_percent

unfoldable pub find_service : List ServiceConfig → Text → Option ServiceConfig
find_service [] name = none
find_service (s ∷ ss) name = if same_text s.name name then some s else find_service ss name

unfoldable pub is_name_character : ℕ → Bool
is_name_character c =
    (leb b'a' c && leb c b'z')
    || (leb b'A' c && leb c b'Z')
    || (leb b'0' c && leb c b'9')
    || c == b'_'
    || c == b'.'
    || c == b'-'

-- The loop of `IsValidServiceName`.
unfoldable pub name_characters : Text → Bool
name_characters [] = true
name_characters (c ∷ cs) = if not (is_name_character c) then false else name_characters cs

unfoldable pub is_valid_service_name : Text → Bool
is_valid_service_name name =
    if length name == 0
      || ltb max_service_name_length (length name)
      || same_text name (text ".")
      || same_text name (text "..")
    then false
    else name_characters name

unfoldable pub restart_mode_name : RestartMode → Text
restart_mode_name RestartMode.never = text "never"
restart_mode_name RestartMode.on_failure = text "on-failure"
restart_mode_name RestartMode.always = text "always"

unfoldable pub parse_restart_mode : Text → Option RestartMode
parse_restart_mode t =
    if same_text t (text "never") || same_text t (text "no")
    then some RestartMode.never
    else if same_text t (text "on-failure")
    then some RestartMode.on_failure
    else if same_text t (text "always")
    then some RestartMode.always
    else none

-- `static_cast<RestartMode>` of a value inside the enum.
restart_cast : ℕ → RestartMode
restart_cast value =
    if value == 0
    then RestartMode.never
    else if value == 1
    then RestartMode.on_failure
    else RestartMode.always

unfoldable pub restart_mode_from_byte : ℕ → Option RestartMode
unfolding restart_cast
restart_mode_from_byte value =
    if ltb (restart_byte RestartMode.always) value then none else some (restart_cast value)

unfoldable pub stop_signal_name : StopSignal → Text
stop_signal_name StopSignal.terminate = text "TERM"
stop_signal_name StopSignal.interrupt = text "INT"
stop_signal_name StopSignal.hangup = text "HUP"
stop_signal_name StopSignal.quit = text "QUIT"
stop_signal_name StopSignal.kill = text "KILL"
stop_signal_name StopSignal.user1 = text "USR1"
stop_signal_name StopSignal.user2 = text "USR2"

-- The loop of `ParseStopSignal` over the array `all`.
find_signal : List StopSignal → Text → Option StopSignal
find_signal [] t = none
find_signal (s ∷ ss) t = if same_text (stop_signal_name s) t then some s else find_signal ss t

abbrev pub all_signals : List StopSignal
all_signals =
    StopSignal.terminate ∷ StopSignal.interrupt ∷ StopSignal.hangup ∷ StopSignal.quit
    ∷ StopSignal.kill ∷ StopSignal.user1 ∷ StopSignal.user2 ∷ []

unfoldable pub parse_stop_signal : Text → Option StopSignal
unfolding find_signal
parse_stop_signal t =
    let bare = if ltb 3 (length t) && same_text (take 3 t) (text "SIG") then drop 3 t else t in
    find_signal all_signals bare
