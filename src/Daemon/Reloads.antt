-- ===== src/Daemon/Reloads.antt =====
-- The daemon of manager/src/Daemon.cpp over a history of rounds: its services, its processes and its
-- configuration.
use improved_process_manager.Base.{
  ◌≡◌, refl, ap, ◌∙◌, true, false, not, ◌||◌, List, [], ◌∷◌, Text, text,
}
use improved_process_manager.Config.{EnvironmentVariable}
use improved_process_manager.Daemon.{Daemon, World, begin_shutdown, publish, remove_task_groups}
use improved_process_manager.Daemon.Histories.{if_pair, if_daemon, plan-stop}
use improved_process_manager.Daemon.Plan.{plan}
use improved_process_manager.Daemon.Refinement.{run_rounds-plan}
use improved_process_manager.Daemon.Rounds.{before_end-Later}
use improved_process_manager.Daemon.Turns.{
  Round, Step, stop_round, clean_up, last_kill, is_over, before_end, end_round, round, step,
  run_rounds, start_up,
}
use improved_process_manager.Launcher.{Host}
use improved_process_manager.Manager.{ServiceManager}
use improved_process_manager.Manager.Lookup.{all_stopped}
use improved_process_manager.Manager.Operations.{Operation, run, run_all}
use improved_process_manager.Manager.Quiet.{launches-run_all_quiet}
use improved_process_manager.Manager.Soundness.{AllSound, run_all-AllSound}
use improved_process_manager.Manager.Ticking.{stop_all}
use improved_process_manager.Parser.Settings.{Config}
use improved_process_manager.Parser.Validated.{IsConfig}
use improved_process_manager.Reports.{ReportBuilder}
use improved_process_manager.Service.{Instant}
use improved_process_manager.Service.Launching.{launches}

-- The manager stops every service, and launches none.
stop_all_quiet :
    (host : Host) (now : Instant) (m : ServiceManager)
    → ((stop_all now m).shutting_down ≡ true) × (launches (stop_all now m).trace ≡ launches m.trace)
unfolding run_all run stop_all
stop_all_quiet host now m =
    launches-run_all_quiet host (Operation.stops_all now ∷ []) (record m { shutting_down = true })
      (refl, tt) refl

module _ (world : World) where
  -- From the first stop request on, the daemon starts no process, whatever it is sent.
  pub launches-run_rounds :
      (r : Round) (steps : List Step) (d : Daemon)
      → d.stopping ≡ false
      → (r.signalled_stop || d.stop_requested) ≡ true
      → launches (run_rounds world (Step.turns r ∷ steps) d).0.manager.trace
        ≡ launches d.manager.trace
  unfolding run_all run
  launches-run_rounds r steps d stopping asked =
      let (os, quiet, e) = plan-stop world r steps d stopping asked in
      let (down, none_yet) = stop_all_quiet world.host r.begun d.manager in
      let none_later =
        launches-run_all_quiet world.host os (stop_all r.begun d.manager) quiet down in
      ap (λ m. launches m.trace)
        (run_rounds-plan world (Step.turns r ∷ steps) d
          ∙ ap (λ ps. run_all world.host ps d.manager) e)
      ∙ (none_later.1 ∙ none_yet)

  -- Whatever the daemon meets after its start, every service has a child exactly while it is starting,
  -- running, unhealthy or stopping, has a start or a restart noted only while it is stopping, and no
  -- method went through a null child pointer.
  pub run_rounds-AllSound :
      (config : Config) (builder : ReportBuilder) (endpoint : Text) (now : Instant)
      (steps : List Step)
      → AllSound (run_rounds world steps (start_up world config builder endpoint now)).0.manager
  unfolding start_up run_all run
  run_rounds-AllSound config builder endpoint now steps =
      let environment : List EnvironmentVariable =
        (record { name = text "BPM_COMMAND_ENDPOINT"; value = endpoint }) ∷ [] in
      let start = start_up world config builder endpoint now in
      rw (run_rounds-plan world steps start) (
        run_all-AllSound world.host environment config.services
          (Operation.starts_autostart now ∷ plan world steps start))

  stop_round-config :
      (r : Round) (d : Daemon) → IsConfig d.config → IsConfig (stop_round r d).config
  unfolding stop_round begin_shutdown
  stop_round-config r d v =
      let P : Daemon → Type 0 = λ e. IsConfig e.config in
      if_daemon P (r.signalled_stop || d.stop_requested) _ _ (if_daemon P (not d.stopping) _ _ v v)
        v

  end_round-config :
      (r : Round) (d : Daemon) → IsConfig d.config → IsConfig (end_round world r d).0.config
  unfolding end_round clean_up publish last_kill remove_task_groups
  end_round-config r d v =
      let P : Daemon → Type 0 = λ e. IsConfig e.config in
      let killed = if_daemon P (not (all_stopped d.manager.services)) _ _ v v in
      if_pair P (is_over r d) _ _ (if_daemon P (not world.has_cgroups) _ _ killed killed) v

  step-config : (s : Step) (d : Daemon) → IsConfig d.config → IsConfig (step world s d).0.config
  unfolding step round
  step-config Step.asks_stop d v = v
  step-config Step.asks_reload d v = v
  step-config (Step.turns r) d v =
      let (flag, deadline, config) = before_end-Later world r d in
      end_round-config r (before_end world r d) (config (stop_round-config r d v))

  -- A daemon that runs a valid configuration always does, whatever the file holds when it is read again.
  pub run_rounds-IsConfig :
      (steps : List Step) (d : Daemon)
      → IsConfig d.config
      → IsConfig (run_rounds world steps d).0.config
  unfolding run_rounds
  run_rounds-IsConfig [] d v = v
  run_rounds-IsConfig (s ∷ steps) d v =
      if_pair (λ e. IsConfig e.config) (step world s d).1 _ _ (step-config s d v)
        (run_rounds-IsConfig steps (step world s d).0 (step-config s d v))
