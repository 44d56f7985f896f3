-- ===== src/Manager/Dependencies.antt =====
-- Starting a service after what it depends on, in manager/src/ServiceManager.cpp.
use improved_process_manager.Base.{
  ℕ, zero, suc, Bool, true, false, not, ◌&&◌, ◌||◌, List, [], ◌∷◌, ◌++◌, Option, none, some,
  if◌then◌else◌, length, get_elem?, Text, contains,
}
use improved_process_manager.Command.{CommandResult}
use improved_process_manager.Launcher.{Host}
use improved_process_manager.Manager.Lookup.{find_index, dependencies_running}
use improved_process_manager.Manager.{ServiceManager, with_service, ask_service}
use improved_process_manager.Service.{Instant, Service, Turn, Answer}
use improved_process_manager.Service.Methods.{start, restart}
use improved_process_manager.State.{ServiceState, is_state}

-- The manager, the names on the way and the names that were started. `exhausted` says that the fuel of
-- `start_dependencies` ran out.
pub record Progress : Type 0 where
  pub manager : ServiceManager
  pub visiting : List Text
  pub started : List Text
  pub exhausted : Bool

unfoldable pub was_up : ServiceState → Bool
was_up before =
    is_state before ServiceState.starting
    || is_state before ServiceState.running
    || is_state before ServiceState.unhealthy

-- `if (!wasUp && !Contains(started, name)) started.push_back(name)`.
unfoldable pub note_started : ServiceState → Text → List Text → List Text
note_started before name started =
    if not (was_up before) && not (contains started name) then started ++ name ∷ [] else started

-- The dependency to look at: it exists and is not on the way yet.
unfoldable pub wanted : Text → Progress → Option ℕ
wanted name p = if contains p.visiting name then none else find_index p.manager.services name

unfoldable pub dependencies_of : Option Service → List Text
dependencies_of none = []
dependencies_of (some s) = s.config.depends_on

-- No index is out of range, so this is never the answer.
abbrev pub no_answer : Answer
no_answer = record { result = CommandResult.unknown_service; message = [] }

module _ (host : Host) where
  -- `dependency->Start(now, DependenciesRunning(*dependency), message)` and what follows it, for the
  -- service at an index.
  unfoldable pub start_dependency : Instant → Text → ℕ → Option Service → Progress → Progress
  start_dependency now name i none p = p
  start_dependency now name i (some dependency) p = record p {
    manager =
        with_service i
          (λ t. (start host now (dependencies_running p.manager.services dependency) t).0)
          p.manager;
    started = note_started dependency.state name p.started;
  }

  -- The body of the loop in `StartDependencies`, with the recursive call as an argument.
  unfoldable pub visit_dependency :
      (List Text → Progress → Progress) → Instant → Text → Option ℕ → Progress → Progress
  visit_dependency start_theirs now name none p = p
  visit_dependency start_theirs now name (some i) p =
      let after =
        start_theirs (dependencies_of (get_elem? p.manager.services i))
          (record p { visiting = p.visiting ++ name ∷ [] }) in
      start_dependency now name i (get_elem? after.manager.services i) after

  -- `StartDependencies` for a service that depends on the names. Each nested call has one more name
  -- in `visiting`, so the number of services bounds their depth.
  unfoldable pub start_dependencies : ℕ → Instant → List Text → Progress → Progress
  start_dependencies zero now names p = record p { exhausted = true }
  start_dependencies (suc fuel) now [] p = p
  start_dependencies (suc fuel) now (name ∷ names) p =
      start_dependencies (suc fuel) now names
        (visit_dependency (start_dependencies fuel now) now name (wanted name p) p)

  -- `visiting` holds the service's own name at first.
  unfoldable pub prepare : Instant → Service → List Text → ServiceManager → Progress
  prepare now s started m =
      start_dependencies (suc (length m.services)) now s.config.depends_on (record {
        manager = m;
        visiting = s.config.name ∷ [];
        started = started;
        exhausted = false;
      })

  -- `restart ? service.Restart(now, ready, message) : service.Start(now, ready, message)`.
  unfoldable pub start_or_restart : Bool → Instant → Bool → Turn → Turn × Answer
  start_or_restart true now ready t = restart host now ready t
  start_or_restart false now ready t = start host now ready t

  -- `StartWithDependencies` for the service at an index.
  unfoldable pub start_with_dependencies :
      ℕ
      → Service
      → Instant
      → Bool
      → List Text
      → ServiceManager
      → (ServiceManager × Answer) × List Text
  start_with_dependencies i s now restarts started m =
      let prepared = prepare now s started m in
      let ready = dependencies_running prepared.manager.services s in
      (
        ask_service i (start_or_restart restarts now ready) prepared.manager no_answer,
        prepared.started,
      )
