-- ===== src/Daemon/Plan.antt =====
-- What `Daemon::Run` of manager/src/Daemon.cpp owes to the manager in a round, as a list of the manager's
-- operations. It is read off the daemon at the start of the round and what the round meets.
use improved_process_manager.Base.{
  ℕ, zero, suc, ◌+◌, Bool, true, false, not, ◌&&◌, ◌||◌, List, [], ◌∷◌, ◌++◌, Option, some, leb,
  if◌then◌else◌, Text,
}
use improved_process_manager.Command.{CommandCode, CommandMessage, command_code_from_byte}
use improved_process_manager.Daemon.{Daemon, World, shutdown_budget, max_commands_per_round}
use improved_process_manager.Daemon.Turns.{Round, Step, step}
use improved_process_manager.Manager.{ServiceManager}
use improved_process_manager.Manager.Lookup.{all_stopped}
use improved_process_manager.Manager.Operations.{Operation, run_all}
use improved_process_manager.Parser.{Parsed, failed, parsed}
use improved_process_manager.Parser.Files.{parse_file}
use improved_process_manager.Parser.Lexing.{is_empty}
use improved_process_manager.Parser.Settings.{Config}
use improved_process_manager.Server.{Frame, RequestCode, receive, new_request}
use improved_process_manager.Service.{Instant, ms}

-- The commands among so many messages, up to one that holds nothing.
unfoldable pub readable : ℕ → List (List Frame) → List CommandMessage
readable zero inbox = []
readable (suc left) [] = []
readable (suc left) (message ∷ inbox) =
    let r = receive (some message) (new_request []) [] in
    let rest = readable left inbox in
    elim r.code [
      | RequestCode.empty ↦ []
      | RequestCode.malformed ↦ rest
      | RequestCode.ok ↦ r.request.command ∷ rest
    ]

-- A stop request is the first or a later one.
abbrev pub asked_stop : Round → Daemon → Bool
asked_stop r d = r.signalled_stop || d.stop_requested

abbrev pub is_stopping : Round → Daemon → Bool
is_stopping r d = d.stopping || asked_stop r d

abbrev pub deadline : Round → Daemon → ℕ
deadline r d =
    if asked_stop r d && not d.stopping
    then r.begun.steady + ms (shutdown_budget d.config.services)
    else d.shutdown_deadline

abbrev pub is_due : Round → Daemon → Bool
is_due r d = leb d.next_publish r.now.steady

unfoldable pub stop_plan : Round → Daemon → List Operation
stop_plan r d =
    if asked_stop r d
    then (if d.stopping then Operation.kills_all r.begun ∷ [] else Operation.stops_all r.begun ∷ [])
    else []

-- What a read of the file asks for.
unfoldable pub parsed_plan : Instant → Parsed Config → List Operation
parsed_plan now (failed error) = []
parsed_plan now (parsed fresh) = Operation.reloads fresh.services now ∷ []

-- A daemon without a file, or one that stops, does not reload.
abbrev pub refuses : Text → Bool → Bool
refuses path stopping = is_empty path || stopping

unfoldable pub next_read : Text → Bool → ℕ → ℕ
next_read path stopping reads = if refuses path stopping then reads else reads + 1

abbrev pub is_reload : Option CommandCode → Bool
is_reload (some CommandCode.reload) = true
is_reload _ = false

module _ (world : World) where
  -- A reload, with the number of reads of the file before it.
  unfoldable pub reload_plan : Text → Bool → ℕ → Instant → List Operation
  reload_plan path stopping reads now =
      if refuses path stopping
      then []
      else parsed_plan now (parse_file world.paths path (world.file reads))

  -- Each command is executed, and a reload reads the file.
  unfoldable pub command_plan : Text → Bool → ℕ → Instant → List CommandMessage → List Operation
  command_plan path stopping reads now [] = []
  command_plan path stopping reads now (c ∷ cs) =
      let reloads = is_reload (command_code_from_byte c.command) in
      let next = if reloads then next_read path stopping reads else reads in
      let rest = command_plan path stopping next now cs in
      if reloads
      then reload_plan path stopping reads now ++ rest
      else Operation.executes c now ∷ rest

  -- The reload and the commands of a round, from the path, the stop flag, the reads, whether a reload is
  -- asked for, and the messages.
  unfoldable pub requests : Round → Text → Bool → ℕ → Bool → List (List Frame) → List Operation
  requests r path stopping reads reloads messages =
      let next = if reloads then next_read path stopping reads else reads in
      (if reloads then reload_plan path stopping reads r.begun else [])
      ++ command_plan path stopping next r.now (readable max_commands_per_round messages)

  unfoldable pub request_plan : Round → Daemon → List Operation
  request_plan r d =
      requests r d.config.path (is_stopping r d) d.reads (r.signalled_reload || d.reload_requested)
        (d.inbox ++ r.arrived)

  unfoldable pub report_plan : Round → Bool → ℕ → List Operation
  report_plan r due samples = if due then Operation.samples r.now (world.gpu samples) ∷ [] else []

  -- Everything up to the test at the end of the round.
  unfoldable pub main_plan : Round → Daemon → List Operation
  main_plan r d =
      stop_plan r d
      ++ (request_plan r d
          ++ ((Operation.ticks r.now ∷ Operation.takes_removed ∷ [])
              ++ report_plan r (is_due r d) d.samples))

  -- The manager before the test at the end of the round.
  abbrev pub left_over : Round → Daemon → ServiceManager
  left_over r d = run_all world.host (main_plan r d) d.manager

  -- The loop ends when the daemon stops and nothing runs any more or the deadline has come.
  unfoldable pub ends : Round → Daemon → Bool
  ends r d =
      is_stopping r d && (all_stopped (left_over r d).services || leb (deadline r d) r.now.steady)

  -- A last report, and before it a kill of what still runs.
  unfoldable pub end_plan : Round → Bool → ℕ → List Operation
  end_plan r stopped samples =
      let last : List Operation = Operation.samples r.ended (world.gpu samples) ∷ [] in
      if stopped then last else Operation.kills_all r.now ∷ (Operation.ticks r.settled ∷ last)

  unfoldable pub round_plan : Round → Daemon → List Operation
  round_plan r d =
      let taken = if is_due r d then d.samples + 1 else d.samples in
      main_plan r d
      ++ (if ends r d then end_plan r (all_stopped (left_over r d).services) taken else [])

  -- The plans of the rounds, one behind another, until the loop ends.
  unfoldable pub plan : List Step → Daemon → List Operation
  plan [] d = []
  plan (Step.asks_stop ∷ steps) d = plan steps (step world Step.asks_stop d).0
  plan (Step.asks_reload ∷ steps) d = plan steps (step world Step.asks_reload d).0
  plan (Step.turns r ∷ steps) d =
      let rest = plan steps (step world (Step.turns r) d).0 in
      round_plan r d ++ (if ends r d then [] else rest)
