-- ===== src/Service/Methods.antt =====
-- The commands of a service, in manager/src/Service.cpp.
use improved_process_manager.Base.{
  ℕ, ◌+◌, ◌-◌, ◌*◌, Bool, true, false, not, ◌&&◌, List, [], ◌∷◌, Option, none, some, ltb, leb,
  if◌then◌else◌, pos, Text, text,
}
use improved_process_manager.Command.{CommandResult}
use improved_process_manager.Config.{ServiceConfig}
use improved_process_manager.Launcher.{UsageSample, no_usage, Event, Host, kill_grace}
use improved_process_manager.Service.Operations.{begin_stop, launch}
use improved_process_manager.Service.{Instant, ms, Percent, Service, Turn, Answer}
use improved_process_manager.State.{ServiceState, is_state}

abbrev pub ok : Turn → Text → Turn × Answer
ok t message = (t, record { result = CommandResult.ok; message = message })

abbrev pub in_state : Turn → Text → Turn × Answer
in_state t message = (t, record { result = CommandResult.already_in_state; message = message })

-- `Restart` of a service that runs.
unfoldable pub restart_running : Instant → Turn → Turn × Answer
restart_running now t =
    let stopping = begin_stop now t in
    ok
      (record stopping {
        service = record stopping.service { pending_start = true; pending_start_is_restart = true };
      })
      (text "restarting")

module _ (host : Host) where
  -- `Start` behind its `switch`.
  unfoldable pub start_now : Instant → Bool → Turn → Turn × Answer
  start_now now dependencies_ready t =
      if not dependencies_ready
      then ok (record t { service = record t.service { state = ServiceState.waiting } })
          (text "waiting for its dependencies")
      else launch host now t

  abbrev pub forget_restarts : Turn → Turn
  forget_restarts t = record t { service = record t.service { restart_history = [] } }

  unfoldable pub start_in : ServiceState → Instant → Bool → Turn → Turn × Answer
  start_in ServiceState.starting now ready t = in_state t (text "already running")
  start_in ServiceState.running now ready t = in_state t (text "already running")
  start_in ServiceState.unhealthy now ready t = in_state t (text "already running")
  start_in ServiceState.stopping now ready t =
      ok
        (record t {
          service = record t.service {
            pending_start = true;
            pending_start_is_restart = false;
            restart_after_stop = false;
          };
        })
        (text "starts again once it has stopped")
  start_in ServiceState.waiting now ready t = start_now now ready t
  start_in ServiceState.stopped now ready t = start_now now ready (forget_restarts t)
  start_in ServiceState.failed now ready t = start_now now ready (forget_restarts t)
  start_in ServiceState.backoff now ready t = start_now now ready (forget_restarts t)

  unfoldable pub start : Instant → Bool → Turn → Turn × Answer
  start now dependencies_ready t = start_in t.service.state now dependencies_ready t

  unfoldable pub restart_in : ServiceState → Instant → Bool → Turn → Turn × Answer
  restart_in ServiceState.starting now ready t = restart_running now t
  restart_in ServiceState.running now ready t = restart_running now t
  restart_in ServiceState.unhealthy now ready t = restart_running now t
  restart_in ServiceState.stopping now ready t =
      ok
        (record t {
          service = record t.service {
            pending_start = true;
            pending_start_is_restart = true;
            restart_after_stop = false;
          };
        })
        (text "starts again once it has stopped")
  restart_in _ now ready t = start now ready t

  unfoldable pub restart : Instant → Bool → Turn → Turn × Answer
  restart now dependencies_ready t = restart_in t.service.state now dependencies_ready t

unfoldable pub stop_in : ServiceState → Instant → Turn → Turn × Answer
stop_in ServiceState.starting now t = ok (begin_stop now t) (text "stopping")
stop_in ServiceState.running now t = ok (begin_stop now t) (text "stopping")
stop_in ServiceState.unhealthy now t = ok (begin_stop now t) (text "stopping")
stop_in ServiceState.stopping now t =
    in_state
      (record t {
        service = record t.service { pending_start = false; restart_after_stop = false };
      })
      (text "already stopping")
stop_in ServiceState.stopped now t = in_state t (text "already stopped")
stop_in _ now t =
    ok (record t { service = record t.service { state = ServiceState.stopped } }) (text "stopped")

unfoldable pub stop : Instant → Turn → Turn × Answer
stop now t = stop_in t.service.state now t

unfoldable pub kill_in : Option ℕ → Instant → Turn → Turn
kill_in none now t = record t {
  service = record t.service {
    pending_start = false;
    restart_after_stop = false;
    state = ServiceState.stopped;
  };
}
kill_in (some pid) now t = record {
  service = record t.service {
    pending_start = false;
    restart_after_stop = false;
    state = ServiceState.stopping;
    stop_deadline = now.steady;
    kill_sent = true;
    kill_deadline = now.steady + ms kill_grace;
  };
  trace = Event.killed pid ∷ t.trace;
}

unfoldable pub kill : Instant → Turn → Turn
kill now t = kill_in t.service.child now t

unfoldable pub heartbeat : Instant → Turn → Turn × Answer
heartbeat now t =
    let s = t.service in
    if not (is_state s.state ServiceState.starting)
      && not (is_state s.state ServiceState.running)
      && not (is_state s.state ServiceState.unhealthy)
    then (t, record { result = CommandResult.invalid_state; message = text "not running" })
    else ok
        (record t {
          service = record s {
            last_beat = now.steady;
            last_seen = now.wall_ns;
            missed_beats = pos 0;
            state = ServiceState.running;
          };
        })
        (text "ok")

unfoldable pub abandon : Text → Turn → Turn
abandon reason t = if not (is_state t.service.state ServiceState.waiting) then t else record t {
  service = record t.service { last_error = reason; state = ServiceState.failed };
}

-- The CPU percentage between two samples: microseconds of CPU over nanoseconds of the clock.
unfoldable pub cpu_between : Instant → UsageSample → Service → Percent
cpu_between now sample s =
    if s.has_previous_sample
      && leb s.previous_cpu sample.cpu_time_usec
      && ltb s.previous_sample_at now.steady
    then Percent.quotient ((sample.cpu_time_usec - s.previous_cpu) * 100_000)
        (now.steady - s.previous_sample_at)
    else Percent.unknown

module _ (host : Host) where
  unfoldable pub sample_in : Option ℕ → Instant → Turn → Turn
  sample_in none now t = record t {
    service = record t.service {
      usage = no_usage;
      usage_valid = false;
      cpu_percent = Percent.unknown;
      has_previous_sample = false;
    };
  }
  sample_in (some pid) now t =
      let figures = host.sample t.trace pid in
      record {
        service = record t.service {
          cpu_percent = cpu_between now figures t.service;
          previous_cpu = figures.cpu_time_usec;
          previous_sample_at = now.steady;
          has_previous_sample = true;
          usage = figures;
          usage_valid = true;
        };
        trace = Event.sampled pid figures ∷ t.trace;
      }

  unfoldable pub sample : Instant → Turn → Turn
  sample now t = sample_in t.service.child now t

  unfoldable pub member_pids : Turn → List ℕ
  member_pids t = elim t.service.child [ none ↦ [] | some pid ↦ host.member_pids t.trace pid ]

unfoldable pub set_gpu_usage : Bool → Percent → ℕ → Service → Service
set_gpu_usage valid percent memory_bytes s = record s {
  gpu_valid = valid;
  gpu_percent = if valid then percent else Percent.unknown;
  gpu_memory_bytes = if valid then memory_bytes else 0;
}

unfoldable pub replace : ServiceConfig → Service → Service
replace config s = record s { config = config }

unfoldable pub set_removing : Bool → Service → Service
set_removing removing s = record s { removing = removing }
