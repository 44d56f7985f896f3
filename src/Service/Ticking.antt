-- ===== src/Service/Ticking.antt =====
-- `Tick` and what it calls, in manager/src/Service.cpp.
use improved_process_manager.Base.{
  ℕ, ◌+◌, ◌-◌, ◌/◌, ◌%◌, ◌^◌, Bool, true, false, not, ◌&&◌, ◌||◌, ◌∷◌, Option, none, some, ltb, leb,
  ◌==◌, if◌then◌else◌, ℤ, pos, negsuc, of_word,
}
use improved_process_manager.Config.{UnhealthyAction, action_byte}
use improved_process_manager.Launcher.{
  ExitStatus, no_usage, Event, Host, kill_grace, exited_cleanly, wire_exit_code,
}
use improved_process_manager.Service.Operations.{
  heartbeat_enabled, kill_child, begin_stop, schedule_restart, apply_restart_policy, relaunch,
}
use improved_process_manager.Service.{Instant, ms, Percent, Service, Turn}
use improved_process_manager.State.{ServiceState, is_state}

-- What `HandleExit` resets first.
unfoldable pub reset_child : Instant → ExitStatus → Service → Service
reset_child now status s = record s {
  child = none;
  last_exit_code = wire_exit_code status;
  last_exit_time = now.wall_ns;
  usage = no_usage;
  usage_valid = false;
  cpu_percent = Percent.unknown;
  has_previous_sample = false;
}

-- `<` of an `int` and a number that is not negative.
unfoldable pub below : ℤ → ℕ → Bool
below (pos n) k = ltb n k
below (negsuc n) k = true

-- `static_cast<int>`.
abbrev pub to_int : ℕ → ℤ
to_int n = of_word (2 ^ 31) (n % 2 ^ 32)

-- `silent / interval`: whole milliseconds since the last beat, in intervals.
unfoldable pub missed_by : Instant → Service → ℤ
missed_by now s =
    let silent = (now.steady - s.last_beat) / 1_000_000 in
    to_int (silent / s.config.heartbeat_interval)

unfoldable pub check_heartbeat : Instant → Turn → Turn
check_heartbeat now t =
    let missed = missed_by now t.service in
    let s = record t.service { missed_beats = missed } in
    let unhealthy = record t { service = record s { state = ServiceState.unhealthy } } in
    let stopped = begin_stop now unhealthy in
    if below missed s.config.heartbeat_tolerance || is_state s.state ServiceState.unhealthy
    then record t { service = s }
    else if action_byte s.config.unhealthy_action == action_byte UnhealthyAction.restart
    then record stopped { service = record stopped.service { restart_after_stop = true } }
    else unhealthy

module _ (host : Host) where
  -- The branch of `HandleExit` for a service that was stopping.
  unfoldable pub finish_stop : Instant → Bool → Bool → Turn → Turn
  finish_stop now launch_allowed dependencies_ready t =
      let s = t.service in
      let stopped = record s {
        state = ServiceState.stopped;
        pending_start = false;
        restart_after_stop = false;
      } in
      let counted =
        if s.pending_start_is_restart
        then record stopped { restart_count = s.restart_count + 1 }
        else stopped in
      if not launch_allowed
      then record t { service = stopped }
      else if s.restart_after_stop
      then record t { service = schedule_restart now stopped }
      else if s.pending_start
      then relaunch host now dependencies_ready (record t { service = counted })
      else record t { service = stopped }

  unfoldable pub handle_exit : Instant → ExitStatus → Bool → Bool → Turn → Turn
  handle_exit now status launch_allowed dependencies_ready t =
      let s = reset_child now status t.service in
      if is_state s.state ServiceState.stopping
      then finish_stop now launch_allowed dependencies_ready (record t { service = s })
      else record t { service = apply_restart_policy now (exited_cleanly status) s }

  unfoldable pub answered : Option ExitStatus → Instant → Bool → Bool → Turn → Turn
  answered none now launch_allowed dependencies_ready t = t
  answered (some status) now launch_allowed dependencies_ready t =
      handle_exit now status launch_allowed dependencies_ready t

  unfoldable pub poll_in : Option ℕ → Instant → Bool → Bool → Turn → Turn
  poll_in none now launch_allowed dependencies_ready t = t
  poll_in (some pid) now launch_allowed dependencies_ready t =
      let exited = host.poll t.trace pid in
      answered exited now launch_allowed dependencies_ready
        (record t { trace = Event.polled pid exited ∷ t.trace })

  -- The first half of `Tick`: `if (child != nullptr)`, `child->Poll()`, `HandleExit`.
  unfoldable pub poll_child : Instant → Bool → Bool → Turn → Turn
  poll_child now launch_allowed dependencies_ready t =
      poll_in t.service.child now launch_allowed dependencies_ready t

  -- The cases of the `switch` in `Tick`.
  unfoldable pub advance_starting : Instant → Turn → Turn
  advance_starting now t =
      let s = record t.service { last_seen = now.wall_ns } in
      if heartbeat_enabled t.service.config
      then check_heartbeat now t
      else if leb (s.launched_at + ms s.config.start_grace) now.steady
      then record t { service = record s { state = ServiceState.running } }
      else record t { service = s }

  unfoldable pub advance_running : Instant → Turn → Turn
  advance_running now t =
      if heartbeat_enabled t.service.config then check_heartbeat now t else record t {
        service = record t.service {
          state = ServiceState.running;
          missed_beats = pos 0;
          last_seen = now.wall_ns;
        };
      }

  unfoldable pub advance_stopping : Instant → Turn → Turn
  advance_stopping now t =
      let s = t.service in
      if not s.kill_sent && leb s.stop_deadline now.steady
      then record {
        service = record s { kill_sent = true; kill_deadline = now.steady + ms kill_grace };
        trace = kill_child s.child ∷ t.trace;
      }
      else if s.kill_sent && not s.stuck_reported && leb s.kill_deadline now.steady
      then record t { service = record s { stuck_reported = true } }
      else t

  unfoldable pub advance_backoff : Instant → Bool → Bool → Turn → Turn
  advance_backoff now launch_allowed dependencies_ready t =
      let s = t.service in
      let due = record t { service = record s { restart_count = s.restart_count + 1 } } in
      if launch_allowed && leb s.restart_at now.steady
      then relaunch host now dependencies_ready due
      else t

  unfoldable pub advance_in : ServiceState → Instant → Bool → Bool → Turn → Turn
  advance_in ServiceState.starting now launch_allowed ready t = advance_starting now t
  advance_in ServiceState.running now launch_allowed ready t = advance_running now t
  advance_in ServiceState.unhealthy now launch_allowed ready t = advance_running now t
  advance_in ServiceState.stopping now launch_allowed ready t = advance_stopping now t
  advance_in ServiceState.backoff now launch_allowed ready t =
      advance_backoff now launch_allowed ready t
  advance_in _ now launch_allowed ready t = t

  unfoldable pub tick : Instant → Bool → Bool → Turn → Turn
  tick now launch_allowed dependencies_ready t =
      let polled = poll_child now launch_allowed dependencies_ready t in
      advance_in polled.service.state now launch_allowed dependencies_ready polled
