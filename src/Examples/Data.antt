-- ===== src/Examples/Data.antt =====
-- Inputs of the examples.
use improved_process_manager.Base.{ℕ, ◌*◌, arith, true, List, [], ◌∷◌, none, some, pos, Text, text}
use improved_process_manager.Command.{
  CommandCode, CommandResult, CommandMessage, CommandReply, command_byte,
}
use improved_process_manager.Config.{
  ServiceConfig, RestartMode, OutputMode, StopSignal, UnhealthyAction,
}
use improved_process_manager.Health.{HealthRecord, RuntimeState}
use improved_process_manager.Health.Codec.{IsRepresentable}
use improved_process_manager.Launcher.{Host, LaunchOutcome, no_usage}
use improved_process_manager.Manager.{ServiceManager}
use improved_process_manager.Manager.Operations.{Operation}
use improved_process_manager.Manager.Soundness.{begun}
use improved_process_manager.Service.{Instant, Service, Turn, new_service}
use improved_process_manager.State.{ServiceState}

-- A system where every launch gives process 42, which never exits.
abbrev pub steady_host : Host
steady_host = record {
  launch = λ trace request. LaunchOutcome.started 42;
  poll = λ trace pid. none;
  sample = λ trace pid. no_usage;
  member_pids = λ trace pid. [];
}

abbrev pub at_second : ℕ → Instant
at_second n = record { steady = n * 1_000_000_000; wall_ns = n * 1_000_000_000 }

abbrev pub named_service : Text → List Text → ServiceConfig
named_service name needs = record {
  name = name;
  description = [];
  binary = text "/usr/bin/worker";
  arguments = [];
  working_directory = [];
  environment = [];
  autostart = true;
  restart = RestartMode.always;
  restart_delay = 1000;
  restart_delay_max = 30000;
  max_restarts = 5;
  restart_window = 60;
  start_grace = 5000;
  stop_signal = StopSignal.terminate;
  stop_timeout = 10000;
  heartbeat_interval = 0;
  heartbeat_tolerance = 3;
  unhealthy_action = UnhealthyAction.restart;
  depends_on = needs;
  output = OutputMode.auto;
  output_path = [];
  memory_max = 0;
  cpu_max_percent = 0;
}

-- Two services that depend on each other, and one that depends on nothing.
abbrev pub some_configs : List ServiceConfig
some_configs =
    named_service (text "a") (text "b" ∷ [])
    ∷ named_service (text "b") (text "a" ∷ [])
    ∷ named_service (text "c") []
    ∷ []

abbrev pub a_config : ServiceConfig
a_config = named_service (text "a") (text "b" ∷ [])

abbrev pub start_all : CommandMessage
start_all = record { command = command_byte CommandCode.start; service_name = text "*"; args = [] }

abbrev pub some_operations : List Operation
some_operations =
    Operation.executes start_all (at_second 1)
    ∷ Operation.ticks (at_second 7)
    ∷ Operation.stops_all (at_second 8)
    ∷ Operation.ticks (at_second 20)
    ∷ []

abbrev pub loaded : ServiceManager
loaded = begun steady_host [] some_configs

abbrev pub closing : ServiceManager
closing = record loaded { shutting_down = true }

abbrev pub running_service : Service
running_service = record (new_service a_config []) { state = ServiceState.running; child = some 42 }

abbrev pub running_turn : Turn
running_turn = record { service = running_service; trace = [] }

-- A service that the running one depends on.
abbrev pub needed_service : Service
needed_service = record (new_service (named_service (text "b") []) []) {
  state = ServiceState.running;
  child = some 43;
}

abbrev pub running_manager : ServiceManager
running_manager = record loaded { services = running_service ∷ needed_service ∷ [] }

abbrev pub ending_manager : ServiceManager
ending_manager = record running_manager { shutting_down = true }

abbrev pub euro : Text
euro = 226 ∷ 130 ∷ 172 ∷ 226 ∷ 130 ∷ 172 ∷ []

abbrev pub a_reply : CommandReply
a_reply = record {
  command = 78;
  result = CommandResult.ok;
  service_name = text "a";
  message = text "started";
}

abbrev pub a_record : HealthRecord
a_record = record {
  process_name = text "a";
  pid = pos 42;
  memory_usage_in_bytes = 4096;
  cpu_usage_in_usec = 100;
  state = RuntimeState.running;
  start_time = pos 5;
  last_seen = pos 6;
  missed_beats = pos 0;
  restart_count = pos 1;
  snapshot_time = pos 7;
}

pub a_record-IsRepresentable : IsRepresentable a_record
a_record-IsRepresentable = record {
  pid_fits = omega arith;
  memory_fits = omega arith;
  cpu_fits = omega arith;
  start_fits = omega arith;
  seen_fits = omega arith;
  missed_fits = omega arith;
  restarts_fits = omega arith;
  snapshot_fits = omega arith;
}

-- Two restarts are noted, one of them too long ago.
abbrev pub restarted_service : Service
restarted_service = record (new_service a_config []) {
  restart_history = 1_000_000_000 ∷ 90_000_000_000 ∷ [];
}
