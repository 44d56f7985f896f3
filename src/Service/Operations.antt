-- ===== src/Service/Operations.antt =====
-- The methods of `Service`, in manager/src/Service.cpp.
use improved_process_manager.Base.{
  ℕ, zero, suc, ◌+◌, ◌*◌, Bool, false, not, ◌&&◌, ◌||◌, List, [], ◌∷◌, ◌++◌, Option, none, some,
  ltb, leb, ◌==◌, if◌then◌else◌, length, pos, Text, text, to_string,
}
use improved_process_manager.Command.{CommandResult}
use improved_process_manager.Config.{
  ServiceConfig, EnvironmentVariable, RestartMode, StopSignal, restart_byte, signal_byte,
}
use improved_process_manager.Launcher.{LaunchRequest, LaunchOutcome, Event, Host, kill_grace}
use improved_process_manager.Service.{Instant, ms, seconds, advance, Percent, Service, Turn, Answer}
use improved_process_manager.State.{ServiceState}

-- The loop of `BackoffDelay`, with the rounds that are left.
unfoldable pub backoff_loop : ℕ → ℕ → ℕ → ℕ
backoff_loop delay_max zero delay = delay
backoff_loop delay_max (suc left) delay =
    let doubled = backoff_loop delay_max left (delay * 2) in
    if ltb delay delay_max then doubled else delay

unfoldable pub backoff_delay : ServiceConfig → ℕ → ℕ
unfolding backoff_loop
backoff_delay config previous_restarts =
    let delay = backoff_loop config.restart_delay_max previous_restarts config.restart_delay in
    if ltb delay config.restart_delay_max then delay else config.restart_delay_max

unfoldable pub heartbeat_enabled : ServiceConfig → Bool
heartbeat_enabled config = ltb 0 config.heartbeat_interval

heartbeat_variable : ServiceConfig → List EnvironmentVariable
unfolding heartbeat_enabled
heartbeat_variable config =
    if heartbeat_enabled config
    then record {
      name = text "BPM_HEARTBEAT_INTERVAL_MS";
      value = to_string config.heartbeat_interval;
    }
      ∷ []
    else []

unfoldable pub build_request : Service → LaunchRequest
unfolding heartbeat_variable
build_request s = record {
  service_name = s.config.name;
  binary = s.config.binary;
  arguments = s.config.arguments;
  working_directory = s.config.working_directory;
  environment =
      s.manager_environment
      ++ (record { name = text "BPM_SERVICE_NAME"; value = s.config.name }
          ∷ (heartbeat_variable s.config ++ s.config.environment));
  output = s.config.output;
  output_path = s.config.output_path;
  memory_max = s.config.memory_max;
  cpu_max_percent = s.config.cpu_max_percent;
}

-- `child->RequestStop(signal)` and `child->Kill()`.
unfoldable pub request_stop : Option ℕ → StopSignal → Event
request_stop none signal = Event.null_access
request_stop (some pid) signal = Event.stop_requested pid signal

unfoldable pub kill_child : Option ℕ → Event
kill_child none = Event.null_access
kill_child (some pid) = Event.killed pid

unfoldable pub begin_stop : Instant → Turn → Turn
begin_stop now t =
    let s = t.service in
    record {
      service = record s {
        state = ServiceState.stopping;
        pending_start = false;
        restart_after_stop = false;
        stop_deadline = now.steady + ms s.config.stop_timeout;
        kill_sent = signal_byte s.config.stop_signal == signal_byte StopSignal.kill;
        kill_deadline = now.steady + ms kill_grace;
        stuck_reported = false;
      };
      trace = request_stop s.child s.config.stop_signal ∷ t.trace;
    }

-- The loop of `ScheduleRestart` that forgets the restarts before the window.
unfoldable pub drop_expired : ℕ → ℕ → List ℕ → List ℕ
drop_expired now window [] = []
drop_expired now window (front ∷ later) =
    let rest = drop_expired now window later in
    if ltb (front + window) now then rest else front ∷ later

unfoldable pub schedule_restart : Instant → Service → Service
schedule_restart now s =
    let history = drop_expired now.steady (seconds s.config.restart_window) s.restart_history in
    let delay = backoff_delay s.config (length history) in
    if ltb 0 s.config.max_restarts && leb s.config.max_restarts (length history)
    then record s { restart_history = history; state = ServiceState.failed }
    else record s {
      restart_history = history ++ now.steady ∷ [];
      restart_at = now.steady + ms delay;
      next_restart_time = (advance now delay).wall_ns;
      state = ServiceState.backoff;
    }

unfoldable pub apply_restart_policy : Instant → Bool → Service → Service
apply_restart_policy now clean_exit s =
    if not (
      restart_byte s.config.restart == restart_byte RestartMode.always
      || (restart_byte s.config.restart == restart_byte RestartMode.on_failure && not clean_exit))
    then record s { state = if clean_exit then ServiceState.stopped else ServiceState.failed }
    else schedule_restart now s

-- `ServiceStatus::startTime` and the rest of a successful launch.
unfoldable pub launch_succeeded : Instant → ℕ → Service → Service
launch_succeeded now pid s = record s {
  child = some pid;
  state = ServiceState.starting;
  launched_at = now.steady;
  last_beat = now.steady;
  start_time = now.wall_ns;
  last_seen = now.wall_ns;
  missed_beats = pos 0;
  kill_sent = false;
  stuck_reported = false;
  next_restart_time = 0;
  last_error = [];
  has_previous_sample = false;
  usage_valid = false;
  cpu_percent = Percent.unknown;
}

unfoldable pub launch_failed : Instant → Text → Service → Service
launch_failed now error s =
    apply_restart_policy now false
      (record s { last_error = error; last_exit_code = pos 127; last_exit_time = now.wall_ns })

unfoldable pub launch_with : LaunchOutcome → Instant → Turn → Turn × Answer
launch_with (LaunchOutcome.refused error) now t = (
  record t { service = launch_failed now error t.service },
  record { result = CommandResult.launch_failed; message = error },
)
launch_with (LaunchOutcome.started pid) now t = (
  record t { service = launch_succeeded now pid t.service },
  record { result = CommandResult.ok; message = text "started, pid " ++ to_string pid },
)

module _ (host : Host) where
  unfoldable pub launch : Instant → Turn → Turn × Answer
  launch now t =
      let request = build_request t.service in
      let outcome = host.launch t.trace request in
      launch_with outcome now (record t { trace = Event.launched request outcome ∷ t.trace })

  unfoldable pub relaunch : Instant → Bool → Turn → Turn
  relaunch now dependencies_ready t =
      if not dependencies_ready
      then record t { service = record t.service { state = ServiceState.waiting } }
      else (launch now t).0
