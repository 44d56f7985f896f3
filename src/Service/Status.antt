-- ===== src/Service/Status.antt =====
-- `Service::Status`, in manager/src/Service.cpp.
use improved_process_manager.Base.{ℕ, Bool, Option, none, some, if◌then◌else◌, ℤ, Text}
use improved_process_manager.Config.{RestartMode}
use improved_process_manager.Launcher.{UsageSample}
use improved_process_manager.Service.Operations.{heartbeat_enabled}
use improved_process_manager.Service.{Percent, Service}
use improved_process_manager.State.{ServiceState, is_state}

pub record ServiceStatus : Type 0 where
  pub name : Text
  pub description : Text
  pub binary : Text
  pub restart_mode : RestartMode
  pub autostart : Bool
  pub heartbeat : Bool
  pub removing : Bool
  pub memory_limit_bytes : ℕ
  pub cpu_limit_percent : ℕ
  pub state : ServiceState
  pub pid : ℕ
  pub start_time : ℕ
  pub last_seen : ℕ
  pub last_exit_time : ℕ
  pub next_restart_time : ℕ
  pub last_exit_code : ℤ
  pub restart_count : ℕ
  pub missed_beats : ℤ
  pub usage_valid : Bool
  pub usage : UsageSample
  pub cpu_percent : Percent
  pub gpu_valid : Bool
  pub gpu_percent : Percent
  pub gpu_memory_bytes : ℕ
  pub last_error : Text

-- `child != nullptr ? child->Pid() : 0`.
unfoldable pub pid_of : Option ℕ → ℕ
pid_of none = 0
pid_of (some pid) = pid

unfoldable pub status : Service → ServiceStatus
unfolding pid_of
status s = record {
  name = s.config.name;
  description = s.config.description;
  binary = s.config.binary;
  restart_mode = s.config.restart;
  autostart = s.config.autostart;
  heartbeat = heartbeat_enabled s.config;
  removing = s.removing;
  memory_limit_bytes = s.config.memory_max;
  cpu_limit_percent = s.config.cpu_max_percent;
  state = s.state;
  pid = pid_of s.child;
  start_time = s.start_time;
  last_seen = s.last_seen;
  last_exit_time = s.last_exit_time;
  next_restart_time = if is_state s.state ServiceState.backoff then s.next_restart_time else 0;
  last_exit_code = s.last_exit_code;
  restart_count = s.restart_count;
  missed_beats = s.missed_beats;
  usage_valid = s.usage_valid;
  usage = s.usage;
  cpu_percent = s.cpu_percent;
  gpu_valid = s.gpu_valid;
  gpu_percent = s.gpu_percent;
  gpu_memory_bytes = s.gpu_memory_bytes;
  last_error = s.last_error;
}
