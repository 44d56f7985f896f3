-- ===== src/Daemon/Rounds.antt =====
-- What a round of manager/src/Daemon.cpp does to the stop flag, the deadline and the configuration.
use improved_process_manager.Base.{
  ℕ, zero, suc, ◌+◌, ◌≡◌, refl, ◌∙◌, false, not, ◌||◌, List, [], ◌∷◌, ◌++◌, Option, none, some, leb,
}
use improved_process_manager.Command.{CommandCode, CommandMessage}
use improved_process_manager.Daemon.{
  Daemon, World, Sent, send, remove_task_groups, reload_with, reload_daemon, execute_command, serve,
  handle_commands, publish,
}
use improved_process_manager.Daemon.Histories.{if_pair, if_daemon}
use improved_process_manager.Parser.Outcome.{After}
use improved_process_manager.Parser.Validated.{IsConfig, parse_file-After}
use improved_process_manager.Daemon.Turns.{
  Round, poll_wait, stop_round, reload_round, command_round, tick_round, publish_round, before_end,
}
use improved_process_manager.Parser.{Parsed, failed, parsed}
use improved_process_manager.Parser.Files.{parse_file}
use improved_process_manager.Parser.Lexing.{is_empty}
use improved_process_manager.Parser.Sections.{is_nil}
use improved_process_manager.Parser.Settings.{Config}
use improved_process_manager.Server.{Frame, Received, RequestCode, receive, new_request}
use improved_process_manager.Service.{Instant}

-- The stop flag and the deadline are left alone.
abbrev pub SameStop : Daemon → Daemon → Type 0
SameStop d e = (e.stopping ≡ d.stopping) × (e.shutdown_deadline ≡ d.shutdown_deadline)

pub SameStop-self : (d : Daemon) → SameStop d d
SameStop-self d = (refl, refl)

pub SameStop-trans : (a b c : Daemon) → SameStop a b → SameStop b c → SameStop a c
SameStop-trans a b c (h, k) (i, j) = (i ∙ h, j ∙ k)

-- Besides, a configuration that the manager can run stays one.
abbrev pub Later : Daemon → Daemon → Type 0
Later d e =
    (e.stopping ≡ d.stopping)
    × (e.shutdown_deadline ≡ d.shutdown_deadline)
    × (IsConfig d.config → IsConfig e.config)

Later-trans : (a b c : Daemon) → Later a b → Later b c → Later a c
Later-trans a b c (h, k, f) (i, j, g) = (i ∙ h, j ∙ k, λ v. g (f v))

-- The configuration behind a reload: the services and the interval are new, the endpoints are old.
reloaded :
    (old fresh : Config)
    → IsConfig old
    → IsConfig fresh
    → IsConfig (record old {
      manager = record old.manager {
        publish_interval = fresh.manager.publish_interval;
        log_level = fresh.manager.log_level;
      };
      services = fresh.services;
    })
reloaded old fresh v w = record {
  services_fit = w.services_fit;
  distinct = w.distinct;
  checked = w.checked;
  grounded = w.grounded;
  published = w.published;
  endpoints = v.endpoints;
}

module _ (world : World) where
  reload_with-Later :
      (now : Instant) (r : Parsed Config) (d : Daemon)
      → After IsConfig r
      → Later d (reload_with world now r d).0
  unfolding reload_with
  reload_with-Later now (failed error) d valid = (refl, refl, λ c. c)
  reload_with-Later now (parsed fresh) d valid =
      (refl, refl, λ old. reloaded d.config fresh old valid)

  reload_daemon-Later : (now : Instant) (d : Daemon) → Later d (reload_daemon world now d).0
  unfolding reload_daemon
  reload_daemon-Later now d =
      let read = parse_file world.paths d.config.path (world.file d.reads) in
      if_pair (Later d) (is_empty d.config.path) _ _ (refl, refl, λ c. c)
        (if_pair (Later d) d.stopping _ _ (refl, refl, λ c. c)
          (reload_with-Later now read (record d { reads = d.reads + 1 })
            (parse_file-After world.paths d.config.path (world.file d.reads))))

  execute_command-Later :
      (code : Option CommandCode) (message : CommandMessage) (now : Instant) (d : Daemon)
      → Later d (execute_command world code message now d).0
  unfolding execute_command
  execute_command-Later none message now d = (refl, refl, λ c. c)
  execute_command-Later (some CommandCode.reload) message now d = reload_daemon-Later now d
  execute_command-Later (some CommandCode.start) message now d = (refl, refl, λ c. c)
  execute_command-Later (some CommandCode.stop) message now d = (refl, refl, λ c. c)
  execute_command-Later (some CommandCode.restart) message now d = (refl, refl, λ c. c)
  execute_command-Later (some CommandCode.heartbeat) message now d = (refl, refl, λ c. c)

  abbrev ServedBy : Daemon → Option Daemon → Type 0
  ServedBy d none = Unit
  ServedBy d (some e) = Later d e

  serve-Later : (r : Received) (now : Instant) (d : Daemon) → ServedBy d (serve world r now d)
  unfolding serve
  serve-Later r now d = serve_in r.code
    where
      serve_in : (code : RequestCode) → ServedBy d (serve world (record r { code = code }) now d)
      serve_in RequestCode.empty = tt
      serve_in RequestCode.malformed = (refl, refl, λ c. c)
      serve_in RequestCode.ok = execute_command-Later _ r.request.command now d

  handle_commands-Later :
      (left : ℕ) (now : Instant) (d : Daemon) (inbox : List (List Frame))
      → Later d (handle_commands world left now d inbox)
  unfolding handle_commands
  handle_commands-Later zero now d inbox = (refl, refl, λ c. c)
  handle_commands-Later (suc left) now d [] = (refl, refl, λ c. c)
  handle_commands-Later (suc left) now d (message ∷ inbox) =
      next_in (serve world (receive (some message) (new_request []) []) now d)
        (serve-Later (receive (some message) (new_request []) []) now d)
        (λ next. handle_commands-Later left now next inbox)
    where
      next_in :
          (served : Option Daemon)
          → ServedBy d served
          → ((next : Daemon) → Later next (handle_commands world left now next inbox))
          → Later d (elim served [
            | none ↦ record d { inbox = inbox }
            | some next ↦ handle_commands world left now next inbox
          ])
      next_in none h rest = (refl, refl, λ c. c)
      next_in (some next) h rest =
          Later-trans d next (handle_commands world left now next inbox) h (rest next)

  tick_round-Later : (r : Round) (d : Daemon) → Later d (tick_round world r d)
  unfolding tick_round remove_task_groups
  tick_round-Later r d =
      if_daemon (Later d) (not world.has_cgroups) _ _ (refl, refl, λ c. c) (refl, refl, λ c. c)

  publish_round-Later : (r : Round) (d : Daemon) → Later d (publish_round world r d)
  unfolding publish_round publish
  publish_round-Later r d =
      if_daemon (Later d) (leb d.next_publish r.now.steady) _ _ (refl, refl, λ c. c)
        (refl, refl, λ c. c)

  -- Everything in a round behind the stop requests.
  pub before_end-Later : (r : Round) (d : Daemon) → Later (stop_round r d) (before_end world r d)
  unfolding command_round reload_round
  before_end-Later r d =
      let d1 = stop_round r d in
      let d2 = reload_round world r d1 in
      let d3 = command_round world r d2 in
      let d4 = tick_round world r d3 in
      let taken : Daemon = record d1 { reload_requested = false } in
      let h1 : Later d1 d2 =
        if_daemon (Later d1) (r.signalled_reload || d1.reload_requested) _ _
          (reload_daemon-Later r.begun taken) (refl, refl, λ c. c) in
      let h2 : Later d2 d3 =
        if_daemon (Later d2) (not (is_nil (d2.inbox ++ r.arrived))) _ _
          (handle_commands-Later 100 r.now (send (Sent.polled (poll_wait r.begun d2)) d2)
            (d2.inbox ++ r.arrived))
          (refl, refl, λ c. c) in
      Later-trans d1 d2 (before_end world r d) h1 (
        Later-trans d2 d3 (before_end world r d) h2 (
          Later-trans d3 d4 (before_end world r d) (tick_round-Later r d3)
            (publish_round-Later r d4)))
