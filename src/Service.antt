-- ===== src/Service.antt =====
-- manager/include/Service.hpp and manager/src/Service.cpp: one supervised service. A method takes the
-- service and the trace of what was asked of the system, and returns both. Times on the steady clock
-- and on the wall are numbers of nanoseconds. The steady clock never goes back, so a difference of two
-- readings is not negative; `a - b >= d` is written `b + d ≤ a`. Log lines are left out.
pub mod Operations
pub mod Ticking
pub mod Methods
pub mod Status
pub mod Invariant
pub mod Soundness
pub mod Backoff
pub mod Launching
pub mod Stopping
pub mod Cards
pub mod Budget
pub mod Readiness
use improved_process_manager.Base.{
  ℕ, ◌+◌, ◌-◌, ◌*◌, Bool, true, false, List, [], Option, none, some, ltb, leb, ◌==◌, ℤ, pos, negsuc,
  Text,
}
use improved_process_manager.Command.{CommandResult}
use improved_process_manager.Config.{ServiceConfig, EnvironmentVariable}
use improved_process_manager.Launcher.{UsageSample, no_usage, Trace}
use improved_process_manager.State.{ServiceState}

-- One moment on both clocks, in nanoseconds (manager/include/Instant.hpp).
pub record Instant : Type 0 where
  pub steady : ℕ
  pub wall_ns : ℕ

-- A number of milliseconds in nanoseconds.
abbrev pub ms : ℕ → ℕ
ms n = n * 1_000_000

-- A number of seconds in nanoseconds.
abbrev pub seconds : ℕ → ℕ
seconds n = n * 1_000_000_000

unfoldable pub advance : Instant → ℕ → Instant
advance from delta = record { steady = from.steady + ms delta; wall_ns = from.wall_ns + ms delta }

-- A percentage that the program keeps as a double: -1.0 for unknown, the exact quotient that the double
-- rounds, or a sum of doubles, each its 64-bit pattern, from 0.0 on.
pub data Percent : Type 0 where
  unknown : Percent
  quotient : ℕ → ℕ → Percent
  sum : List ℕ → Percent

pub record Service : Type 0 where
  pub config : ServiceConfig
  pub manager_environment : List EnvironmentVariable
  pub child : Option ℕ
  pub state : ServiceState
  pub restart_count : ℕ
  pub missed_beats : ℤ
  pub pending_start : Bool
  pub pending_start_is_restart : Bool
  pub restart_after_stop : Bool
  pub kill_sent : Bool
  pub stuck_reported : Bool
  pub removing : Bool
  pub launched_at : ℕ
  pub last_beat : ℕ
  pub stop_deadline : ℕ
  pub kill_deadline : ℕ
  pub restart_at : ℕ
  pub restart_history : List ℕ
  pub start_time : ℕ
  pub last_seen : ℕ
  pub last_exit_time : ℕ
  pub next_restart_time : ℕ
  pub last_exit_code : ℤ
  pub last_error : Text
  pub usage : UsageSample
  pub usage_valid : Bool
  pub cpu_percent : Percent
  pub previous_cpu : ℕ
  pub previous_sample_at : ℕ
  pub has_previous_sample : Bool
  pub gpu_valid : Bool
  pub gpu_percent : Percent
  pub gpu_memory_bytes : ℕ

-- The constructor: a stopped service.
unfoldable pub new_service : ServiceConfig → List EnvironmentVariable → Service
new_service config environment = record {
  config = config;
  manager_environment = environment;
  child = none;
  state = ServiceState.stopped;
  restart_count = 0;
  missed_beats = pos 0;
  pending_start = false;
  pending_start_is_restart = false;
  restart_after_stop = false;
  kill_sent = false;
  stuck_reported = false;
  removing = false;
  launched_at = 0;
  last_beat = 0;
  stop_deadline = 0;
  kill_deadline = 0;
  restart_at = 0;
  restart_history = [];
  start_time = 0;
  last_seen = 0;
  last_exit_time = 0;
  next_restart_time = 0;
  last_exit_code = pos 0;
  last_error = [];
  usage = no_usage;
  usage_valid = false;
  cpu_percent = Percent.unknown;
  previous_cpu = 0;
  previous_sample_at = 0;
  has_previous_sample = false;
  gpu_valid = false;
  gpu_percent = Percent.unknown;
  gpu_memory_bytes = 0;
}

-- A service and the trace that its methods extend.
pub record Turn : Type 0 where
  pub service : Service
  pub trace : Trace

-- A result, and what the method wrote to its `message`.
pub record Answer : Type 0 where
  pub result : CommandResult
  pub message : Text
