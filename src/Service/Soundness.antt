-- ===== src/Service/Soundness.antt =====
-- The calls on a service as data, and the invariant through a history of them.
use improved_process_manager.Base.{
  ℕ, ◌+◌, ◌≡◌, refl, Bool, true, false, List, [], ◌∷◌, Option, none, some, arith, Text,
}
use improved_process_manager.Config.{ServiceConfig, EnvironmentVariable}
use improved_process_manager.Launcher.{Host}
use improved_process_manager.Service.Invariant.{
  has_child, HasNoFault, IsSound, IsIdle, begin_stop-IsSound, launch-IsSound, relaunch-IsSound,
  poll_child-IsSound, check_heartbeat-IsSound,
}
use improved_process_manager.Service.Operations.{begin_stop, request_stop, kill_child}
use improved_process_manager.Service.Ticking.{
  poll_child, advance_starting, advance_running, advance_stopping, advance_backoff, advance_in,
  tick,
}
use improved_process_manager.Service.Methods.{
  start_now, start_in, start, restart_running, restart_in, restart, stop_in, stop, kill_in, kill,
  heartbeat, abandon, sample_in, sample, set_gpu_usage, replace, set_removing,
}
use improved_process_manager.Service.{Instant, Percent, Turn, new_service}
use improved_process_manager.State.{ServiceState}

-- The calls that change a service.
pub data Call : Type 0 where
  starts restarts : Instant → Bool → Call
  stops kills heartbeats samples : Instant → Call
  ticks : Instant → Bool → Bool → Call
  abandons : Text → Call
  gets_gpu_usage : Bool → Percent → ℕ → Call
  replaces : ServiceConfig → Call
  sets_removing : Bool → Call

-- The calls that carry out a command.
abbrev pub is_command : Call → Bool
is_command (Call.starts now ready) = true
is_command (Call.restarts now ready) = true
is_command (Call.stops now) = true
is_command (Call.heartbeats now) = true
is_command _ = false

restart_running-IsSound :
    (now : Instant) (t : Turn)
    → has_child t.service.child ≡ true
    → HasNoFault t.trace
    → IsSound (restart_running now t).0
unfolding restart_running begin_stop request_stop
restart_running-IsSound now t h n = ground arith

module _ (host : Host) where
  unfoldable pub apply : Call → Turn → Turn
  apply (Call.starts now ready) t = (start host now ready t).0
  apply (Call.restarts now ready) t = (restart host now ready t).0
  apply (Call.stops now) t = (stop now t).0
  apply (Call.kills now) t = kill now t
  apply (Call.heartbeats now) t = (heartbeat now t).0
  apply (Call.samples now) t = sample host now t
  apply (Call.ticks now allowed ready) t = tick host now allowed ready t
  apply (Call.abandons reason) t = abandon reason t
  apply (Call.gets_gpu_usage valid percent memory) t = record t {
    service = set_gpu_usage valid percent memory t.service;
  }
  apply (Call.replaces config) t = record t { service = replace config t.service }
  apply (Call.sets_removing removing) t = record t { service = set_removing removing t.service }

  unfoldable pub apply_all : List Call → Turn → Turn
  apply_all [] t = t
  apply_all (c ∷ cs) t = apply_all cs (apply c t)

  advance_in-IsSound :
      (state : ServiceState) (now : Instant) (allowed ready : Bool) (t : Turn)
      → t.service.state ≡ state
      → IsSound t
      → IsSound (advance_in host state now allowed ready t)
  unfolding advance_in advance_starting advance_running advance_stopping advance_backoff kill_child
  advance_in-IsSound ServiceState.starting now allowed ready t e v =
      ground (arith, check_heartbeat-IsSound now t v)
  advance_in-IsSound ServiceState.running now allowed ready t e v =
      ground (arith, check_heartbeat-IsSound now t v)
  advance_in-IsSound ServiceState.unhealthy now allowed ready t e v =
      ground (arith, check_heartbeat-IsSound now t v)
  advance_in-IsSound ServiceState.stopping now allowed ready t e v = ground arith
  advance_in-IsSound ServiceState.backoff now allowed ready t e (c, n) = ground (
    arith,
    relaunch-IsSound host now ready
        (record t { service = record t.service { restart_count = t.service.restart_count + 1 } }),
  )
  advance_in-IsSound _ now allowed ready t e v = v

  tick-IsSound :
      (now : Instant) (allowed ready : Bool) (t : Turn)
      → IsSound t
      → IsSound (tick host now allowed ready t)
  unfolding tick
  tick-IsSound now allowed ready t v =
      advance_in-IsSound _ now allowed ready (poll_child host now allowed ready t) refl
        (poll_child-IsSound host now allowed ready t v)

  start_now-IsSound :
      (now : Instant) (ready : Bool) (t : Turn)
      → IsIdle t.service
      → HasNoFault t.trace
      → IsSound (start_now host now ready t).0
  unfolding start_now
  start_now-IsSound now true t i n = launch-IsSound host now t i n
  start_now-IsSound now false t i n = ground arith

  start_in-IsSound :
      (state : ServiceState) (now : Instant) (ready : Bool) (t : Turn)
      → t.service.state ≡ state
      → IsSound t
      → IsSound (start_in host state now ready t).0
  unfolding start_in
  start_in-IsSound ServiceState.waiting now ready t e (c, n) =
      start_now-IsSound now ready t (ground arith) n
  start_in-IsSound ServiceState.stopped now ready t e (c, n) =
      start_now-IsSound now ready _ (ground arith) n
  start_in-IsSound ServiceState.failed now ready t e (c, n) =
      start_now-IsSound now ready _ (ground arith) n
  start_in-IsSound ServiceState.backoff now ready t e (c, n) =
      start_now-IsSound now ready _ (ground arith) n
  start_in-IsSound _ now ready t e v = ground arith

  restart_in-IsSound :
      (state : ServiceState) (now : Instant) (ready : Bool) (t : Turn)
      → t.service.state ≡ state
      → IsSound t
      → IsSound (restart_in host state now ready t).0
  unfolding restart_in restart_running
  restart_in-IsSound ServiceState.starting now ready t e (c, n) =
      restart_running-IsSound now t (ground arith) n
  restart_in-IsSound ServiceState.running now ready t e (c, n) =
      restart_running-IsSound now t (ground arith) n
  restart_in-IsSound ServiceState.unhealthy now ready t e (c, n) =
      restart_running-IsSound now t (ground arith) n
  restart_in-IsSound ServiceState.stopping now ready t e v = ground arith
  restart_in-IsSound _ now ready t e v = unfold start in start_in-IsSound _ now ready t refl v

  stop_in-IsSound :
      (state : ServiceState) (now : Instant) (t : Turn)
      → t.service.state ≡ state
      → IsSound t
      → IsSound (stop_in state now t).0
  unfolding stop_in
  stop_in-IsSound ServiceState.starting now t e (c, n) = begin_stop-IsSound now t (ground arith) n
  stop_in-IsSound ServiceState.running now t e (c, n) = begin_stop-IsSound now t (ground arith) n
  stop_in-IsSound ServiceState.unhealthy now t e (c, n) = begin_stop-IsSound now t (ground arith) n
  stop_in-IsSound _ now t e v = ground arith

  kill_in-IsSound :
      (child : Option ℕ) (now : Instant) (t : Turn)
      → t.service.child ≡ child
      → IsSound t
      → IsSound (kill_in child now t)
  unfolding kill_in
  kill_in-IsSound none now t e v = ground arith
  kill_in-IsSound (some pid) now t e v = ground arith

  sample_in-IsSound :
      (child : Option ℕ) (now : Instant) (t : Turn)
      → IsSound t
      → IsSound (sample_in host child now t)
  unfolding sample_in
  sample_in-IsSound none now t v = v
  sample_in-IsSound (some pid) now t v = (v.0, (refl, v.1))

  -- Every call keeps a service sound.
  pub apply-IsSound : (c : Call) (t : Turn) → IsSound t → IsSound (apply c t)
  unfolding apply
  apply-IsSound (Call.starts now ready) t v = unfold start in start_in-IsSound _ now ready t refl v
  apply-IsSound (Call.restarts now ready) t v =
      unfold restart in restart_in-IsSound _ now ready t refl v
  apply-IsSound (Call.stops now) t v = unfold stop in stop_in-IsSound _ now t refl v
  apply-IsSound (Call.kills now) t v = unfold kill in kill_in-IsSound _ now t refl v
  apply-IsSound (Call.heartbeats now) t v = unfold heartbeat in ground arith
  apply-IsSound (Call.samples now) t v = unfold sample in sample_in-IsSound _ now t v
  apply-IsSound (Call.ticks now allowed ready) t v = tick-IsSound now allowed ready t v
  apply-IsSound (Call.abandons reason) t v = unfold abandon in ground arith
  apply-IsSound (Call.gets_gpu_usage valid percent memory) t v = unfold set_gpu_usage in v
  apply-IsSound (Call.replaces config) t v = unfold replace in v
  apply-IsSound (Call.sets_removing removing) t v = unfold set_removing in v

  apply_all-IsSound : (cs : List Call) (t : Turn) → IsSound t → IsSound (apply_all cs t)
  unfolding apply_all
  apply_all-IsSound [] t v = v
  apply_all-IsSound (c ∷ cs) t v = apply_all-IsSound cs (apply c t) (apply-IsSound c t v)

  -- Whatever is called on a new service, in any order and with any answers of the system: the service
  -- has a child exactly while it is starting, running, unhealthy or stopping; a pending start or a
  -- restart after the stop is noted only while it is stopping, and never both; and no method went
  -- through a null child pointer.
  pub apply_all-new_service-IsSound :
      (config : ServiceConfig) (environment : List EnvironmentVariable) (cs : List Call)
      → IsSound (apply_all cs (record { service = new_service config environment; trace = [] }))
  unfolding new_service
  apply_all-new_service-IsSound config environment cs = apply_all-IsSound cs _ (refl, tt)
