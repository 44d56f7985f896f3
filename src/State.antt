-- ===== src/State.antt =====
-- manager/include/ServiceState.hpp and manager/src/ServiceState.cpp.
use improved_process_manager.Base.{
  ℕ, Bool, ◌||◌, Option, none, some, ltb, ◌==◌, if◌then◌else◌, Text, text,
}
use improved_process_manager.Health.{RuntimeState}

pub data ServiceState : Type 0 where
  stopped waiting starting running unhealthy stopping backoff failed : ServiceState

abbrev pub state_byte : ServiceState → ℕ
state_byte ServiceState.stopped = 0
state_byte ServiceState.waiting = 1
state_byte ServiceState.starting = 2
state_byte ServiceState.running = 3
state_byte ServiceState.unhealthy = 4
state_byte ServiceState.stopping = 5
state_byte ServiceState.backoff = 6
state_byte ServiceState.failed = 7

-- `==` of two states.
abbrev pub is_state : ServiceState → ServiceState → Bool
is_state a b = state_byte a == state_byte b

unfoldable pub service_state_name : ServiceState → Text
service_state_name ServiceState.stopped = text "stopped"
service_state_name ServiceState.waiting = text "waiting"
service_state_name ServiceState.starting = text "starting"
service_state_name ServiceState.running = text "running"
service_state_name ServiceState.unhealthy = text "unhealthy"
service_state_name ServiceState.stopping = text "stopping"
service_state_name ServiceState.backoff = text "backoff"
service_state_name ServiceState.failed = text "failed"

unfoldable pub to_runtime_state : ServiceState → RuntimeState
to_runtime_state ServiceState.stopped = RuntimeState.stopped
to_runtime_state ServiceState.stopping = RuntimeState.stopped
to_runtime_state ServiceState.waiting = RuntimeState.starting
to_runtime_state ServiceState.starting = RuntimeState.starting
to_runtime_state ServiceState.backoff = RuntimeState.starting
to_runtime_state ServiceState.running = RuntimeState.running
to_runtime_state ServiceState.unhealthy = RuntimeState.unhealthy
to_runtime_state ServiceState.failed = RuntimeState.unhealthy

unfoldable pub is_alive : ServiceState → Bool
is_alive state =
    is_state state ServiceState.starting
    || is_state state ServiceState.running
    || is_state state ServiceState.unhealthy
    || is_state state ServiceState.stopping

-- `static_cast<ServiceState>` of a value inside the enum.
state_cast : ℕ → ServiceState
state_cast value =
    if value == 0
    then ServiceState.stopped
    else if value == 1
    then ServiceState.waiting
    else if value == 2
    then ServiceState.starting
    else if value == 3
    then ServiceState.running
    else if value == 4
    then ServiceState.unhealthy
    else if value == 5
    then ServiceState.stopping
    else if value == 6
    then ServiceState.backoff
    else ServiceState.failed

unfoldable pub service_state_from_byte : ℕ → Option ServiceState
unfolding state_cast
service_state_from_byte value =
    if ltb (state_byte ServiceState.failed) value then none else some (state_cast value)
