-- ===== src/Manager/Lookup.antt =====
-- Looking services up, and the three questions about dependencies, in manager/src/ServiceManager.cpp.
use improved_process_manager.Base.{
  ℕ, suc, Bool, true, false, not, ◌&&◌, ◌||◌, List, [], ◌∷◌, ◌++◌, Option, none, some,
  if◌then◌else◌, map, Text, text, same_text, contains,
}
use improved_process_manager.Config.{ServiceConfig}
use improved_process_manager.Service.{Service}
use improved_process_manager.Service.Status.{ServiceStatus, status}
use improved_process_manager.State.{ServiceState, is_state, is_alive, service_state_name}

unfoldable pub find : List Service → Text → Option Service
find [] name = none
find (s ∷ ss) name = if same_text s.config.name name then some s else find ss name

-- `FindMutable`: where the service is.
unfoldable pub find_index : List Service → Text → Option ℕ
find_index [] name = none
find_index (s ∷ ss) name =
    let later : Option ℕ = elim (find_index ss name) [ none ↦ none | some i ↦ some (suc i) ] in
    if same_text s.config.name name then some 0 else later

-- `Listed`.
unfoldable pub listed : List ServiceConfig → Text → Bool
listed [] name = false
listed (c ∷ cs) name = if same_text c.name name then true else listed cs name

-- `other == nullptr || other->State() != ServiceState::Running`.
unfoldable pub is_down : Option Service → Bool
is_down none = true
is_down (some other) = not (is_state other.state ServiceState.running)

-- The loop of `DependenciesRunning` over the names that a service depends on.
unfoldable pub all_running : List Service → List Text → Bool
all_running services [] = true
all_running services (name ∷ names) =
    if is_down (find services name) then false else all_running services names

unfoldable pub dependencies_running : List Service → Service → Bool
dependencies_running services s = all_running services s.config.depends_on

-- Why a dependency will not come up, if it will not.
unfoldable pub blocked_by : Text → Option Service → Option Text
blocked_by name none = some (text "dependency " ++ (name ++ text " does not exist"))
blocked_by name (some other) =
    if is_state other.state ServiceState.failed || is_state other.state ServiceState.stopped
    then some (text "dependency " ++ (name ++ (text " is " ++ service_state_name other.state)))
    else none

-- The loop of `DependencyBlocked`.
unfoldable pub first_block : List Service → List Text → Option Text
first_block services [] = none
first_block services (name ∷ names) =
    let later : Option Text = first_block services names in
    elim (blocked_by name (find services name)) [ none ↦ later | some reason ↦ some reason ]

unfoldable pub dependency_blocked : List Service → Service → Option Text
dependency_blocked services s = first_block services s.config.depends_on

-- The loop of `DependentsStopped` over the other services.
unfoldable pub dependents_stopped : List Service → Text → Bool
dependents_stopped [] name = true
dependents_stopped (other ∷ others) name =
    if contains other.config.depends_on name && is_alive other.state
    then false
    else dependents_stopped others name

unfoldable pub all_stopped : List Service → Bool
all_stopped [] = true
all_stopped (s ∷ ss) = if is_alive s.state then false else all_stopped ss

unfoldable pub statuses : List Service → List ServiceStatus
statuses services = map status services
