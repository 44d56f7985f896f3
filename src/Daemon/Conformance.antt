-- ===== src/Daemon/Conformance.antt =====
-- The requests, the tick, the reports and the end of a round of manager/src/Daemon.cpp, and their plans.
use improved_process_manager.Base.{
  ℕ, ◌+◌, ◌≡◌, refl, ap, subst, Bool, true, false, not, ◌||◌, List, [], ◌∷◌, ◌++◌, Text,
  if◌then◌else◌,
}
use improved_process_manager.Command.{CommandMessage}
use improved_process_manager.Daemon.{
  handle_commands, Daemon, World, Sent, send, remove_task_groups, reload_with, reload_daemon,
  publish, max_commands_per_round,
}
use improved_process_manager.Daemon.Histories.{if_pair, if_daemon}
use improved_process_manager.Daemon.Plan.{
  readable, is_due, next_read, reload_plan, command_plan, requests, report_plan, end_plan,
}
use improved_process_manager.Daemon.Planned.{
  Does, Does-trans, Does-if, reload_daemon-Does, handle_commands-Does,
}
use improved_process_manager.Daemon.Turns.{
  clean_up, Round, poll_wait, reload_round, command_round, tick_round, publish_round, last_kill,
  is_over, end_round,
}
use improved_process_manager.Manager.Lookup.{all_stopped}
use improved_process_manager.Manager.Operations.{Operation, run, run_all}
use improved_process_manager.Parser.{Parsed, failed, parsed}
use improved_process_manager.Parser.Files.{parse_file}
use improved_process_manager.Parser.Lexing.{is_empty}
use improved_process_manager.Parser.Sections.{is_nil}
use improved_process_manager.Parser.Settings.{Config}
use improved_process_manager.Server.{Frame}
use improved_process_manager.Service.{Instant}

module _ (world : World) where
  inbox-reload_round : (r : Round) (d : Daemon) → (reload_round world r d).inbox ≡ d.inbox
  unfolding reload_round reload_daemon reload_with
  inbox-reload_round r d =
      let taken : Daemon = record d { reload_requested = false } in
      let P : Daemon → Type 0 = λ e. e.inbox ≡ d.inbox in
      if_daemon P (r.signalled_reload || d.reload_requested) _ _
        (if_pair P (is_empty d.config.path) _ _ refl (
          if_pair P d.stopping _ _ refl
            (reloaded (parse_file world.paths d.config.path (world.file d.reads)))))
        refl
    where
      reloaded :
          (read : Parsed Config)
          → (reload_with world r.begun read
              (record d { reload_requested = false; reads = d.reads + 1 })).0.inbox
            ≡ d.inbox
      reloaded (failed error) = refl
      reloaded (parsed fresh) = refl

  reload_round-Does :
      (r : Round) (d : Daemon)
      → Does world
          (if r.signalled_reload || d.reload_requested
            then reload_plan world d.config.path d.stopping d.reads r.begun
            else [])
          (if r.signalled_reload || d.reload_requested
            then next_read d.config.path d.stopping d.reads
            else d.reads)
          d
          (reload_round world r d)
  unfolding reload_round run_all
  reload_round-Does r d =
      let taken : Daemon = record d { reload_requested = false } in
      let h = reload_daemon-Does world r.begun taken in
      Does-if world (r.signalled_reload || d.reload_requested) _ [] _ d.reads d _ taken
        (record { manager = h.manager; view = h.view; reads_done = h.reads_done })
        (record { manager = refl; view = (refl, refl, refl, refl, refl); reads_done = refl })

  -- Whether messages are there or not.
  command_in :
      (r : Round) (d : Daemon) (messages : List (List Frame))
      → let polled = send (Sent.polled (poll_wait r.begun d)) d in
        let e : Daemon =
          if not (is_nil messages)
          then handle_commands world max_commands_per_round r.now polled messages
          else polled in
        Does world
          (command_plan world d.config.path d.stopping d.reads r.now
            (readable max_commands_per_round messages))
          e.reads
          d
          e
  unfolding is_nil run_all command_plan readable
  command_in r d [] = record {
    manager = refl;
    view = (refl, refl, refl, refl, refl);
    reads_done = refl;
  }
  command_in r d (message ∷ messages) =
      let polled = send (Sent.polled (poll_wait r.begun d)) d in
      let h = handle_commands-Does world max_commands_per_round r.now polled (message ∷ messages) in
      record { manager = h.manager; view = h.view; reads_done = h.reads_done }

  command_round-Does :
      (r : Round) (d : Daemon)
      → Does world
          (command_plan world d.config.path d.stopping d.reads r.now
            (readable max_commands_per_round (d.inbox ++ r.arrived)))
          (command_round world r d).reads
          d
          (command_round world r d)
  unfolding command_round
  command_round-Does r d = command_in r d (d.inbox ++ r.arrived)

  pub tick_round-Does :
      (r : Round) (d : Daemon)
      → Does world
          (Operation.ticks r.now ∷ Operation.takes_removed ∷ [])
          d.reads
          d
          (tick_round world r d)
  unfolding tick_round remove_task_groups run_all run
  tick_round-Does r d =
      if_daemon (Does world (Operation.ticks r.now ∷ Operation.takes_removed ∷ []) d.reads d)
        (not world.has_cgroups) _ _
        (record { manager = refl; view = (refl, refl, refl, refl, refl); reads_done = refl })
        (record { manager = refl; view = (refl, refl, refl, refl, refl); reads_done = refl })

  -- The requests of a round, read off the daemon that they start with.
  pub requests-Does :
      (r : Round) (d : Daemon)
      → Does world
          (requests world r d.config.path d.stopping d.reads
            (r.signalled_reload || d.reload_requested)
            (d.inbox ++ r.arrived))
          (command_round world r (reload_round world r d)).reads
          d
          (command_round world r (reload_round world r d))
  unfolding requests
  requests-Does r d =
      let asked = r.signalled_reload || d.reload_requested in
      let e = reload_round world r d in
      let h = reload_round-Does r d in
      let n = if asked then next_read d.config.path d.stopping d.reads else d.reads in
      let same : command_plan world e.config.path e.stopping e.reads r.now
            (readable max_commands_per_round (e.inbox ++ r.arrived))
          ≡ command_plan world d.config.path d.stopping n r.now
              (readable max_commands_per_round (d.inbox ++ r.arrived)) =
        command_plan_same r.now (h.view.0) (h.view.1) h.reads_done
          (ap (λ i. readable max_commands_per_round (i ++ r.arrived)) (inbox-reload_round r d)) in
      Does-trans world _ _ n _ d e (command_round world r e) h (
        subst (λ os. Does world os (command_round world r e).reads e (command_round world r e)) same
          (command_round-Does r e))
    where
      command_plan_same :
          (now : Instant) {p q : Text} {a b : Bool} {m n : ℕ} {cs ds : List CommandMessage}
          → p ≡ q
          → a ≡ b
          → m ≡ n
          → cs ≡ ds
          → command_plan world p a m now cs ≡ command_plan world q b n now ds
      command_plan_same now e f g h = rw (e, f, g, h) refl

  -- The daemon behind the reports.
  pub record Reported (r : Round) (d e : Daemon) (due : Bool) : Type 0 where
    pub manager : e.manager ≡ run_all world.host (report_plan world r due d.samples) d.manager
    pub stopping_is : e.stopping ≡ d.stopping
    pub deadline_is : e.shutdown_deadline ≡ d.shutdown_deadline
    pub samples : e.samples ≡ (if due then d.samples + 1 else d.samples)

  report_in :
      (r : Round) (d : Daemon) (next : ℕ) (due : Bool)
      → Reported r d (if due then record (publish world r.now d) { next_publish = next } else d) due
  unfolding publish report_plan run_all run
  report_in r d next true = record {
    manager = refl;
    stopping_is = refl;
    deadline_is = refl;
    samples = refl;
  }
  report_in r d next false = record {
    manager = refl;
    stopping_is = refl;
    deadline_is = refl;
    samples = refl;
  }

  pub publish_round-Reported :
      (r : Round) (d : Daemon) → Reported r d (publish_round world r d) (is_due r d)
  unfolding publish_round
  publish_round-Reported r d = report_in r d _ (is_due r d)

  clean_up-manager : (r : Round) (d : Daemon) → (clean_up world r d).manager ≡ d.manager
  unfolding clean_up remove_task_groups
  clean_up-manager r d =
      if_daemon (λ e. e.manager ≡ d.manager) (not world.has_cgroups) _ _ refl refl

  end_in :
      (r : Round) (d : Daemon) (over stopped : Bool)
      → let killed : Daemon =
          if not stopped
          then record d {
            manager =
                run world.host
                  (Operation.ticks r.settled)
                  (run world.host (Operation.kills_all r.now) d.manager);
          }
          else d in
        let e : Daemon × Bool =
          if over then (clean_up world r (publish world r.ended killed), true) else (d, false) in
        (e.0.manager
          ≡ run_all world.host (if over then end_plan world r stopped d.samples else []) d.manager)
        × (e.1 ≡ over)
  unfolding publish end_plan run_all run
  end_in r d true true = (clean_up-manager r _, refl)
  end_in r d true false = (clean_up-manager r _, refl)
  end_in r d false stopped = (refl, refl)

  pub end_round_lem :
      (r : Round) (d : Daemon)
      → ((end_round world r d).0.manager
          ≡ run_all world.host
              (if is_over r d
                then end_plan world r (all_stopped d.manager.services) d.samples
                else [])
              d.manager)
        × ((end_round world r d).1 ≡ is_over r d)
  unfolding end_round last_kill run
  end_round_lem r d = end_in r d (is_over r d) (all_stopped d.manager.services)
