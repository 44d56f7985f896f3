-- ===== src/Daemon/Turns.antt =====
-- `Start` behind the sockets, and the rounds of `Run`, in manager/src/Daemon.cpp.
use improved_process_manager.Base.{
  ℕ, ◌+◌, ◌-◌, ◌/◌, min, Bool, true, false, not, ◌&&◌, ◌||◌, List, [], ◌∷◌, ◌++◌, none, leb,
  if◌then◌else◌, Text, text,
}
use improved_process_manager.Daemon.{
  Daemon, World, Sent, send, request_stop, request_reload, remove_task_groups, begin_shutdown,
  reload_daemon, handle_commands, publish, max_poll_wait, max_commands_per_round,
}
use improved_process_manager.Manager.{new_manager, load}
use improved_process_manager.Manager.Lookup.{all_stopped}
use improved_process_manager.Manager.Ticking.{tick_manager, kill_all, take_removed, start_autostart}
use improved_process_manager.Parser.Sections.{is_nil}
use improved_process_manager.Parser.Settings.{Config}
use improved_process_manager.Reports.{ReportBuilder}
use improved_process_manager.Server.{Frame}
use improved_process_manager.Service.{Instant, ms}

-- What one round meets: the clocks at its start, behind the poll, and where the loop ends, the two
-- signals, the messages that arrived, and the groups that are listed behind the loop.
pub record Round : Type 0 where
  pub begun : Instant
  pub signalled_stop : Bool
  pub signalled_reload : Bool
  pub arrived : List (List Frame)
  pub now : Instant
  pub settled : Instant
  pub ended : Instant
  pub listed_groups : List Text

unfoldable pub stop_round : Round → Daemon → Daemon
stop_round r d =
    let taken = record d { stop_requested = false } in
    if r.signalled_stop || d.stop_requested
    then (if not d.stopping
        then begin_shutdown r.begun taken
        else record taken { manager = kill_all r.begun taken.manager })
    else taken

-- Milliseconds: until the next report, clamped.
unfoldable pub poll_wait : Instant → Daemon → ℕ
poll_wait now d = min ((d.next_publish - now.steady) / 1_000_000) max_poll_wait

-- `nextPublish` behind a report.
unfoldable pub schedule : ℕ → ℕ → ℕ → ℕ
schedule now next interval =
    if leb (next + ms interval) now then now + ms interval else next + ms interval

-- What other threads ask for, and the rounds.
pub data Step : Type 0 where
  asks_stop asks_reload : Step
  turns : Round → Step

-- The test at the end of a round.
abbrev pub is_over : Round → Daemon → Bool
is_over r d = d.stopping && (all_stopped d.manager.services || leb d.shutdown_deadline r.now.steady)

module _ (world : World) where
  unfoldable pub reload_round : Round → Daemon → Daemon
  reload_round r d =
      let taken = record d { reload_requested = false } in
      if r.signalled_reload || d.reload_requested
      then (reload_daemon world r.begun taken).0
      else taken

  -- `PollReadable` and `HandleCommands`.
  unfoldable pub command_round : Round → Daemon → Daemon
  command_round r d =
      let polled = send (Sent.polled (poll_wait r.begun d)) d in
      let served =
        handle_commands world max_commands_per_round r.now polled (d.inbox ++ r.arrived) in
      if not (is_nil (d.inbox ++ r.arrived)) then served else polled

  unfoldable pub tick_round : Round → Daemon → Daemon
  tick_round r d =
      let taken = take_removed (tick_manager world.host r.now d.manager) in
      remove_task_groups world.has_cgroups taken.1 (record d { manager = taken.0 })

  unfoldable pub publish_round : Round → Daemon → Daemon
  publish_round r d =
      if leb d.next_publish r.now.steady
      then record (publish world r.now d) {
        next_publish = schedule r.now.steady d.next_publish d.config.manager.publish_interval;
      }
      else d

  unfoldable pub last_kill : Round → Daemon → Daemon
  last_kill r d =
      if not (all_stopped d.manager.services)
      then record d { manager = tick_manager world.host r.settled (kill_all r.now d.manager) }
      else d

  -- `RemoveTaskGroups` behind the loop.
  unfoldable pub clean_up : Round → Daemon → Daemon
  clean_up r d = remove_task_groups world.has_cgroups r.listed_groups d

  -- The daemon behind a round, and whether the loop ends with it.
  unfoldable pub end_round : Round → Daemon → Daemon × Bool
  end_round r d =
      if is_over r d then (clean_up r (publish world r.ended (last_kill r d)), true) else (d, false)

  abbrev pub before_end : Round → Daemon → Daemon
  before_end r d =
      publish_round r (tick_round r (command_round r (reload_round r (stop_round r d))))

  unfoldable pub round : Round → Daemon → Daemon × Bool
  round r d = end_round r (before_end r d)

  unfoldable pub step : Step → Daemon → Daemon × Bool
  step Step.asks_stop d = (request_stop d, false)
  step Step.asks_reload d = (request_reload d, false)
  step (Step.turns r) d = round r d

  -- The loop, until it ends or the steps do.
  unfoldable pub run_rounds : List Step → Daemon → Daemon × Bool
  run_rounds [] d = (d, false)
  run_rounds (s ∷ steps) d =
      let (next, over) = step s d in
      let rest = run_rounds steps next in if over then (next, true) else rest

  -- `Start`, once the sockets are bound to an endpoint that clients reach by a text.
  unfoldable pub start_up : Config → ReportBuilder → Text → Instant → Daemon
  start_up config builder endpoint now =
      let environment = (record { name = text "BPM_COMMAND_ENDPOINT"; value = endpoint }) ∷ [] in
      let loaded = load config.services (new_manager environment) in
      record {
        config = config;
        builder = builder;
        manager = start_autostart world.host now loaded;
        inbox = [];
        stop_requested = false;
        reload_requested = false;
        log_level_override = none;
        log_level = config.manager.log_level;
        stopping = false;
        shutdown_deadline = 0;
        next_publish = now.steady;
        reads = 0;
        samples = 0;
        sent = Sent.notified (text "READY=1") ∷ [];
      }
