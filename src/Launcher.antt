-- ===== src/Launcher.antt =====
-- manager/include/ProcessLauncher.hpp and manager/src/ProcessLauncher.cpp: what a service asks of the
-- operating system, through the two interfaces `ProcessLauncher` and `ChildProcess`, and how an exit
-- is described. What the system answers is a parameter, `Host`: any function of what was asked so far.
use improved_process_manager.Base.{
  ℕ, zero, suc, ◌+◌, ◌-◌, ◌/◌, ◌%◌, ◌^◌, Bool, not, ◌&&◌, List, [], ◌∷◌, ◌++◌, Option, none, some,
  ltb, leb, ◌==◌, if◌then◌else◌, ℤ, pos, negsuc, to_word, Text, text, to_string,
}
use improved_process_manager.Config.{EnvironmentVariable, OutputMode, StopSignal}

-- Milliseconds; the steady clock counts nanoseconds.
abbrev pub kill_grace : ℕ
kill_grace = 5000

pub record ExitStatus : Type 0 where
  pub code : ℤ
  pub signal : ℤ

pub record UsageSample : Type 0 where
  pub cpu_time_usec : ℕ
  pub memory_bytes : ℕ
  pub memory_peak_bytes : ℕ
  pub io_read_bytes : ℕ
  pub io_write_bytes : ℕ
  pub oom_kills : ℕ
  pub process_count : ℕ
  pub thread_count : ℕ
  pub open_files : ℤ
  pub cgroup : Bool

abbrev pub no_usage : UsageSample
no_usage = record {
  cpu_time_usec = 0;
  memory_bytes = 0;
  memory_peak_bytes = 0;
  io_read_bytes = 0;
  io_write_bytes = 0;
  oom_kills = 0;
  process_count = 0;
  thread_count = 0;
  open_files = negsuc 0;
  cgroup = Bool.false;
}

pub record LaunchRequest : Type 0 where
  pub service_name : Text
  pub binary : Text
  pub arguments : List Text
  pub working_directory : Text
  pub environment : List EnvironmentVariable
  pub output : OutputMode
  pub output_path : Text
  pub memory_max : ℕ
  pub cpu_max_percent : ℕ

-- `LaunchCode::Ok` with the new child's PID, or any other code with its error text.
pub data LaunchOutcome : Type 0 where
  started : ℕ → LaunchOutcome
  refused : Text → LaunchOutcome

-- What was asked of the system, and what it answered. `null_access` is a call through the null child
-- pointer, which C++ leaves undefined.
pub data Event : Type 0 where
  launched : LaunchRequest → LaunchOutcome → Event
  polled : ℕ → Option ExitStatus → Event
  stop_requested : ℕ → StopSignal → Event
  killed : ℕ → Event
  sampled : ℕ → UsageSample → Event
  null_access : Event

-- The events so far, newest first.
abbrev pub Trace : Type 0
Trace = List Event

pub record Host : Type 0 where
  pub launch : Trace → LaunchRequest → LaunchOutcome
  pub poll : Trace → ℕ → Option ExitStatus
  pub sample : Trace → ℕ → UsageSample
  pub member_pids : Trace → ℕ → List ℕ

abbrev pub is_zero : ℤ → Bool
is_zero (pos n) = n == 0
is_zero (negsuc n) = Bool.false

abbrev pub negate : ℤ → ℤ
negate (pos zero) = pos 0
negate (pos (suc n)) = negsuc n
negate (negsuc n) = pos (suc n)

unfoldable pub exited_cleanly : ExitStatus → Bool
exited_cleanly status = is_zero status.code && is_zero status.signal

unfoldable pub wire_exit_code : ExitStatus → ℤ
wire_exit_code status = if not (is_zero status.signal) then negate status.signal else status.code

-- `nullptr` is `none`.
unfoldable pub signal_name : ℕ → Option Text
signal_name signal =
    if signal == 1
    then some (text "HUP")
    else if signal == 2
    then some (text "INT")
    else if signal == 3
    then some (text "QUIT")
    else if signal == 4
    then some (text "ILL")
    else if signal == 6
    then some (text "ABRT")
    else if signal == 7
    then some (text "BUS")
    else if signal == 8
    then some (text "FPE")
    else if signal == 9
    then some (text "KILL")
    else if signal == 11
    then some (text "SEGV")
    else if signal == 13
    then some (text "PIPE")
    else if signal == 14
    then some (text "ALRM")
    else if signal == 15
    then some (text "TERM")
    else none

hex_digit : ℕ → ℕ
hex_digit d = if ltb d 10 then b'0' + d else b'A' + (d - 10)

-- The last digits of a number in upper-case hexadecimal, as `%08X` prints eight.
hex_digits : ℕ → ℕ → Text
unfolding hex_digit
hex_digits zero n = []
hex_digits (suc k) n = hex_digits k (n / 16) ++ hex_digit (n % 16) ∷ []

named : Option Text → Text
named none = []
named (some name) = text " (" ++ name ++ text ")"

unfoldable pub describe_exit : ℤ → Bool → Text
unfolding signal_name hex_digits named
describe_exit (pos n) signals = text "exit " ++ to_string n
describe_exit (negsuc n) signals =
    if signals && leb (suc n) 64
    then text "signal " ++ to_string (suc n) ++ named (signal_name (suc n))
    else text "exit 0x" ++ hex_digits 8 (to_word (2 ^ 31) (negsuc n))

unfoldable pub describe_exit_status : ExitStatus → Text
unfolding describe_exit
describe_exit_status status =
    if not (is_zero status.signal)
    then describe_exit (negate status.signal) Bool.true
    else describe_exit status.code Bool.false
