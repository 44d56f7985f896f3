-- ===== src/Examples/Services.antt =====
-- The theorems on services and on the manager, applied to concrete inputs.
use improved_process_manager.Base.{
  ◌*◌, ◌^◌, ◌≡◌, ◌↔◌, refl, arith, min, true, false, [], ◌∷◌, map, All, text,
}
use improved_process_manager.Manager.Dependencies.{prepare}
use improved_process_manager.Manager.Fuel.{prepare_lem}
use improved_process_manager.Manager.Lookup.{all_stopped}
use improved_process_manager.Manager.Operations.{run_all}
use improved_process_manager.Manager.Quiet.{launches-run_all_quiet}
use improved_process_manager.Manager.Shutdown.{shut, stop_all_lem, settle_services_lem}
use improved_process_manager.Manager.Soundness.{AllSound, run_all-AllSound, all_stopped-run_all}
use improved_process_manager.Manager.Ticking.{stop_all, settle_services}
use improved_process_manager.Service.{new_service}
use improved_process_manager.Service.Backoff.{backoff_delay_lem}
use improved_process_manager.Service.Invariant.{has_child, IsSound}
use improved_process_manager.Service.Launching.{launches}
use improved_process_manager.Service.Methods.{stop}
use improved_process_manager.Service.Operations.{backoff_delay}
use improved_process_manager.Service.Soundness.{Call, apply_all, apply_all-new_service-IsSound}
use improved_process_manager.Service.Stopping.{kills, tick_all, kills-stop-tick_all}
use improved_process_manager.State.{ServiceState}
use improved_process_manager.Manager.Commands.{execute}
use improved_process_manager.Manager.Lookup.{dependencies_running, dependents_stopped}
use improved_process_manager.Manager.Merging.{drop_card, merge_cards}
use improved_process_manager.Manager.Questions.{
  IsUp, dependencies_running_iff, IsGone, dependents_stopped-run_all,
}
use improved_process_manager.Manager.Reload.{reload}
use improved_process_manager.Manager.Reloaded.{reload_lem}
use improved_process_manager.Manager.Replies.{execute-Repeats}
use improved_process_manager.Service.Budget.{schedule_restart_lem}
use improved_process_manager.Service.Cards.{card}
use improved_process_manager.Service.Operations.{schedule_restart}
use improved_process_manager.Service.Readiness.{launches-apply_unready}
use improved_process_manager.Service.Soundness.{apply}
use improved_process_manager.Examples.Data.{
  steady_host, at_second, some_configs, a_config, start_all, some_operations, loaded, closing,
  running_service, running_turn, running_manager, ending_manager, restarted_service,
}

run_all-AllSound_example : AllSound (run_all steady_host some_operations loaded)
run_all-AllSound_example = run_all-AllSound steady_host [] some_configs some_operations

all_stopped-run_all_example :
    (all_stopped (run_all steady_host some_operations loaded).services ≡ true)
    ↔ All (λ s. has_child s.child ≡ false) (run_all steady_host some_operations loaded).services
all_stopped-run_all_example = all_stopped-run_all steady_host [] some_configs some_operations

prepare_example :
    (prepare steady_host (at_second 1) (new_service a_config []) [] loaded).exhausted ≡ false
prepare_example = prepare_lem steady_host (at_second 1) (new_service a_config []) [] loaded

launches-run_all_quiet_example :
    ((run_all steady_host some_operations closing).shutting_down ≡ true)
    × (launches (run_all steady_host some_operations closing).trace ≡ launches closing.trace)
launches-run_all_quiet_example =
    launches-run_all_quiet steady_host some_operations closing (refl, (refl, (refl, (refl, tt))))
      refl

settle_services_example :
    (settle_services steady_host (at_second 1) ending_manager).services
    ≡ map (shut (at_second 1) ending_manager.services) ending_manager.services
settle_services_example = settle_services_lem steady_host (at_second 1) ending_manager refl

stop_all_example :
    (stop_all (at_second 1) running_manager).services
    ≡ map (shut (at_second 1) running_manager.services) running_manager.services
stop_all_example = stop_all_lem (at_second 1) running_manager

kills-stop-tick_all_example :
    kills
      (tick_all steady_host true true
        (at_second 5 ∷ at_second 12 ∷ [])
        (stop (at_second 1) running_turn).0).trace
    ≡ 1
unfolding new_service
kills-stop-tick_all_example =
    kills-stop-tick_all steady_host true true 42 (at_second 1) (at_second 5 ∷ at_second 12 ∷ [])
      running_turn (λ trace. refl) refl refl refl

apply_all-new_service-IsSound_example : IsSound (
    apply_all steady_host
      (Call.starts (at_second 1) true ∷ Call.stops (at_second 2) ∷ [])
      (record { service = new_service a_config []; trace = [] }))
apply_all-new_service-IsSound_example =
    apply_all-new_service-IsSound steady_host a_config []
      (Call.starts (at_second 1) true ∷ Call.stops (at_second 2) ∷ [])

launches-apply_unready_example :
    launches (apply steady_host (Call.restarts (at_second 9) false) running_turn).trace ≡ 0
launches-apply_unready_example =
    launches-apply_unready steady_host (Call.restarts (at_second 9) false) running_turn refl

schedule_restart_example :
    (schedule_restart (at_second 100) restarted_service).state ≡ ServiceState.backoff
    × (schedule_restart (at_second 100) restarted_service).restart_at ≡ 102_000_000_000
unfolding new_service
schedule_restart_example =
    schedule_restart_lem (at_second 100) restarted_service ((omega arith, tt), (tt, tt))

reload_example :
    map card (reload steady_host (a_config ∷ []) (at_second 3) loaded).0.services
    ≡ map (drop_card (a_config ∷ [])) (merge_cards (a_config ∷ []) (map card loaded.services))
reload_example = reload_lem steady_host (a_config ∷ []) (at_second 3) loaded

dependencies_running_example :
    (dependencies_running (running_service ∷ []) (new_service a_config []) ≡ true)
    ↔ All (IsUp (running_service ∷ [])) (new_service a_config []).config.depends_on
dependencies_running_example =
    dependencies_running_iff (running_service ∷ []) (new_service a_config [])

dependents_stopped_example :
    (dependents_stopped (run_all steady_host some_operations loaded).services (text "b") ≡ true)
    ↔ All (IsGone (text "b")) (run_all steady_host some_operations loaded).services
dependents_stopped_example =
    dependents_stopped-run_all steady_host [] some_configs some_operations (text "b")

execute_example :
    ((execute steady_host start_all (at_second 1) loaded).1.command ≡ 78)
    × ((execute steady_host start_all (at_second 1) loaded).1.service_name ≡ text "*")
execute_example = execute-Repeats steady_host start_all (at_second 1) loaded

backoff_delay_example : backoff_delay a_config 3 ≡ min (1000 * 2 ^ 3) 30000
backoff_delay_example = backoff_delay_lem a_config 3
