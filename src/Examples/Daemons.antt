-- ===== src/Examples/Daemons.antt =====
-- The theorems on the daemon, applied to concrete inputs.
use improved_process_manager.Base.{◌≡◌, refl, arith, true, false, List, [], ◌∷◌, some, text}
use improved_process_manager.Command.{encode_command}
use improved_process_manager.Daemon.{Daemon, World}
use improved_process_manager.Daemon.Ending.{now_reached, later_reached, run_rounds-stop}
use improved_process_manager.Daemon.Plan.{plan}
use improved_process_manager.Daemon.Refinement.{run_rounds-plan}
use improved_process_manager.Daemon.Reloads.{
  launches-run_rounds, run_rounds-AllSound, run_rounds-IsConfig,
}
use improved_process_manager.Daemon.Turns.{Round, Step, run_rounds, start_up}
use improved_process_manager.Examples.Configs.{
  unix_paths, sample_text, sample_config, sample_config-IsConfig,
}
use improved_process_manager.Examples.Data.{steady_host, at_second, start_all}
use improved_process_manager.Examples.Reports.{builder, minus_one, snapshot, cards}
use improved_process_manager.Manager.Operations.{run_all}
use improved_process_manager.Manager.Soundness.{AllSound}
use improved_process_manager.Parser.Validated.{IsConfig}
use improved_process_manager.Service.Launching.{launches}

abbrev world : World
world = record {
  host = steady_host;
  paths = unix_paths;
  pattern = minus_one;
  file = λ k. some sample_text;
  system = λ k. snapshot;
  gpu = λ k. cards;
  gpu_available = true;
  has_cgroups = false;
  is_windows = false;
}

abbrev begun_daemon : Daemon
begun_daemon = start_up world sample_config builder (text "tcp://127.0.0.1:5557") (at_second 1)

-- A round in which a client asks to start everything.
abbrev busy_round : Round
busy_round = record {
  begun = at_second 2;
  signalled_stop = false;
  signalled_reload = true;
  arrived = ((1 ∷ []) ∷ (text "BPM" ∷ (encode_command start_all ∷ []))) ∷ [];
  now = at_second 3;
  settled = at_second 3;
  ended = at_second 3;
  listed_groups = text "camera" ∷ [];
}

abbrev stop_turn : Round
stop_turn = record busy_round { signalled_stop = true; begun = at_second 4; now = at_second 5 }

abbrev last_turn : Round
last_turn = record busy_round { begun = at_second 604; now = at_second 604 }

run_rounds_stop_example :
    (run_rounds world
      (Step.turns stop_turn ∷ Step.turns busy_round ∷ Step.turns last_turn ∷ [])
      begun_daemon).1
    ≡ true
unfolding start_up
run_rounds_stop_example =
    run_rounds-stop world stop_turn (Step.turns busy_round ∷ Step.turns last_turn ∷ []) begun_daemon
      refl refl
      (later_reached (Step.turns busy_round) (Step.turns last_turn ∷ [])
        (now_reached last_turn [] (omega arith)))

launches-run_rounds_example :
    launches
      (run_rounds world
        (Step.turns stop_turn ∷ Step.turns busy_round ∷ [])
        begun_daemon).0.manager.trace
    ≡ launches begun_daemon.manager.trace
unfolding start_up
launches-run_rounds_example =
    launches-run_rounds world stop_turn (Step.turns busy_round ∷ []) begun_daemon refl refl

run_rounds-AllSound_example :
    AllSound
      (run_rounds world
        (Step.turns busy_round ∷ Step.asks_stop ∷ Step.turns busy_round ∷ [])
        begun_daemon).0.manager
run_rounds-AllSound_example =
    run_rounds-AllSound world sample_config builder (text "tcp://127.0.0.1:5557") (at_second 1)
      (Step.turns busy_round ∷ Step.asks_stop ∷ Step.turns busy_round ∷ [])

run_rounds-IsConfig_example :
    IsConfig
      (run_rounds world
        (Step.turns busy_round ∷ Step.asks_reload ∷ Step.turns busy_round ∷ [])
        begun_daemon).0.config
unfolding start_up
run_rounds-IsConfig_example =
    run_rounds-IsConfig world
      (Step.turns busy_round ∷ Step.asks_reload ∷ Step.turns busy_round ∷ []) begun_daemon
      sample_config-IsConfig

abbrev eventful_steps : List Step
eventful_steps =
    Step.asks_reload ∷ Step.turns busy_round ∷ Step.turns stop_turn ∷ Step.turns last_turn ∷ []

run_rounds-plan_example :
    (run_rounds world eventful_steps begun_daemon).0.manager
    ≡ run_all steady_host (plan world eventful_steps begun_daemon) begun_daemon.manager
run_rounds-plan_example = run_rounds-plan world eventful_steps begun_daemon
