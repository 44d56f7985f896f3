-- ===== src/Manager/Ticking.antt =====
-- `Tick`, `StopAll`, `KillAll`, `StartAutostart` and `TakeRemoved`, in manager/src/ServiceManager.cpp.
use improved_process_manager.Base.{
  ℕ, Bool, true, false, not, ◌&&◌, ◌||◌, List, [], ◌∷◌, ◌++◌, Option, none, some, if◌then◌else◌,
  length, get_elem?, Text,
}
use improved_process_manager.Launcher.{Host}
use improved_process_manager.Manager.Dependencies.{start_with_dependencies}
use improved_process_manager.Manager.Lookup.{
  dependencies_running, dependency_blocked, dependents_stopped,
}
use improved_process_manager.Manager.{ServiceManager, with_service, for_each}
use improved_process_manager.Service.Methods.{start, stop, kill, abandon}
use improved_process_manager.Service.Ticking.{tick}
use improved_process_manager.Service.{Instant, Service}
use improved_process_manager.State.{ServiceState, is_state, is_alive}

-- `service.Stop(now, message)` without its answer.
abbrev pub stop_service : Instant → ℕ → ServiceManager → ServiceManager
stop_service now i m = with_service i (λ t. (stop now t).0) m

-- The service is to be stopped by a shutdown, and nothing that needs it is left.
unfoldable pub stops_now : List Service → Service → Bool
stops_now services s =
    not (is_state s.state ServiceState.stopping)
    && not (is_state s.state ServiceState.stopped)
    && dependents_stopped services s.config.name

unfoldable pub abandon_blocked : Option Text → ℕ → ServiceManager → ServiceManager
abandon_blocked none i m = m
abandon_blocked (some reason) i m = with_service i (abandon reason) m

unfoldable pub stop_ready : Instant → ℕ → Option Service → ServiceManager → ServiceManager
stop_ready now i none m = m
stop_ready now i (some s) m = if stops_now m.services s then stop_service now i m else m

unfoldable pub kill_one : Instant → ℕ → ServiceManager → ServiceManager
kill_one now i m = with_service i (kill now) m

unfoldable pub stop_one : Instant → ℕ → ServiceManager → ServiceManager
stop_one now i m = stop_ready now i (get_elem? m.services i) m

unfoldable pub stop_all : Instant → ServiceManager → ServiceManager
stop_all now m = for_each (length m.services) 0 (stop_one now) (record m { shutting_down = true })

unfoldable pub kill_all : Instant → ServiceManager → ServiceManager
kill_all now m = for_each (length m.services) 0 (kill_one now) (record m { shutting_down = true })

unfoldable pub take_removed : ServiceManager → ServiceManager × List Text
take_removed m = (record m { removed = [] }, m.removed)

-- `service.Removing() && !IsAlive(service.State())`.
unfoldable pub is_finished : Service → Bool
is_finished s = s.removing && not (is_alive s.state)

unfoldable pub any_finished : List Service → Bool
any_finished [] = false
any_finished (s ∷ ss) = is_finished s || any_finished ss

unfoldable pub kept : List Service → List Service
kept [] = []
kept (s ∷ ss) = if is_finished s then kept ss else s ∷ kept ss

unfoldable pub finished_names : List Service → List Text
finished_names [] = []
finished_names (s ∷ ss) =
    if is_finished s then s.config.name ∷ finished_names ss else finished_names ss

-- What `Tick` does after its two loops.
unfoldable pub remove_finished : ServiceManager → ServiceManager
remove_finished m =
    if not (any_finished m.services)
    then m
    else record m { services = kept m.services; removed = m.removed ++ finished_names m.services }

module _ (host : Host) where
  -- The body of the first loop.
  unfoldable pub tick_service : Instant → ℕ → Option Service → ServiceManager → ServiceManager
  tick_service now i none m = m
  tick_service now i (some s) m =
      with_service i (tick host now (not m.shutting_down) (dependencies_running m.services s)) m

  unfoldable pub tick_one : Instant → ℕ → ServiceManager → ServiceManager
  tick_one now i m = tick_service now i (get_elem? m.services i) m

  -- A waiting service starts, is given up, or waits on.
  unfoldable pub settle_waiting : Instant → ℕ → Service → ServiceManager → ServiceManager
  settle_waiting now i s m =
      if dependencies_running m.services s
      then with_service i (λ t. (start host now true t).0) m
      else abandon_blocked (dependency_blocked m.services s) i m

  -- The body of the second loop.
  unfoldable pub settle_service : Instant → ℕ → Option Service → ServiceManager → ServiceManager
  settle_service now i none m = m
  settle_service now i (some s) m =
      if not m.shutting_down && is_state s.state ServiceState.waiting
      then settle_waiting now i s m
      else if m.shutting_down && stops_now m.services s
      then stop_service now i m
      else m

  unfoldable pub settle_one : Instant → ℕ → ServiceManager → ServiceManager
  settle_one now i m = settle_service now i (get_elem? m.services i) m

  unfoldable pub tick_services : Instant → ServiceManager → ServiceManager
  tick_services now m = for_each (length m.services) 0 (tick_one now) m

  unfoldable pub settle_services : Instant → ServiceManager → ServiceManager
  settle_services now m = for_each (length m.services) 0 (settle_one now) m

  unfoldable pub tick_manager : Instant → ServiceManager → ServiceManager
  tick_manager now m = remove_finished (settle_services now (tick_services now m))

  unfoldable pub autostart_service : Instant → ℕ → Option Service → ServiceManager → ServiceManager
  autostart_service now i none m = m
  autostart_service now i (some s) m =
      if s.config.autostart && is_state s.state ServiceState.stopped
      then (start_with_dependencies host i s now false [] m).0.0
      else m

  unfoldable pub autostart_one : Instant → ℕ → ServiceManager → ServiceManager
  autostart_one now i m = autostart_service now i (get_elem? m.services i) m

  unfoldable pub start_autostart : Instant → ServiceManager → ServiceManager
  start_autostart now m = for_each (length m.services) 0 (autostart_one now) m
