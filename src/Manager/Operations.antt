-- ===== src/Manager/Operations.antt =====
-- The manager's operations as data, and the induction over a history of them.
use improved_process_manager.Base.{
  ℕ, arith, true, false, List, [], ◌∷◌, ◌++◌, Option, none, some, Text,
}
use improved_process_manager.Command.{CommandMessage}
use improved_process_manager.Config.{ServiceConfig}
use improved_process_manager.Launcher.{Host}
use improved_process_manager.Manager.Commands.{execute}
use improved_process_manager.Manager.Induction.{
  for_each_lem, start_with_dependencies-keeps, execute-keeps,
}
use improved_process_manager.Manager.Dependencies.{start_with_dependencies}
use improved_process_manager.Manager.Lookup.{find_index, dependency_blocked}
use improved_process_manager.Manager.Reload.{
  Reloading, change, add_service, merge_service, merge_at, merge_one, merge_all, drop_service,
  drop_one, drop_all, start_added, start_at, start_names, reload,
}
use improved_process_manager.Manager.Sampling.{GpuSnapshot, sample_gpu, sample_one, sample_manager}
use improved_process_manager.Manager.Ticking.{
  stop_service, abandon_blocked, stop_ready, kill_one, stop_one, stop_all, kill_all, take_removed,
  remove_finished, tick_service, tick_one, settle_waiting, settle_service, settle_one,
  tick_services, settle_services, tick_manager, autostart_service, autostart_one, start_autostart,
}
use improved_process_manager.Manager.{ServiceManager, with_service}
use improved_process_manager.Service.{Instant, Service, new_service}
use improved_process_manager.Service.Methods.{replace, set_removing}
use improved_process_manager.Service.Soundness.{Call, apply}

pub data Operation : Type 0 where
  starts_autostart ticks stops_all kills_all : Instant → Operation
  executes : CommandMessage → Instant → Operation
  reloads : List ServiceConfig → Instant → Operation
  samples : Instant → GpuSnapshot → Operation
  takes_removed : Operation

module _ (host : Host) where
  unfoldable pub run : Operation → ServiceManager → ServiceManager
  run (Operation.starts_autostart now) m = start_autostart host now m
  run (Operation.ticks now) m = tick_manager host now m
  run (Operation.stops_all now) m = stop_all now m
  run (Operation.kills_all now) m = kill_all now m
  run (Operation.executes message now) m = (execute host message now m).0
  run (Operation.reloads configs now) m = (reload host configs now m).0
  run (Operation.samples now gpu) m = sample_manager host now gpu m
  run Operation.takes_removed m = (take_removed m).0

  unfoldable pub run_all : List Operation → ServiceManager → ServiceManager
  run_all [] m = m
  run_all (o ∷ os) m = run_all os (run o m)

-- What an invariant has to allow.
pub record Closed (host : Host) (P : ServiceManager → Type 0) : Type 0 where
  pub calls : (c : Call) (i : ℕ) (m : ServiceManager) → P m → P (with_service i (apply host c) m)
  pub shuts_down : (m : ServiceManager) → P m → P (record m { shutting_down = true })
  pub removes : (m : ServiceManager) → P m → P (remove_finished m)
  pub forgets : (m : ServiceManager) → P m → P (record m { removed = [] })
  pub adds :
      (config : ServiceConfig) (m : ServiceManager)
      → P m
      → P (record m { services = m.services ++ new_service config m.manager_environment ∷ [] })

module _ (host : Host) (P : ServiceManager → Type 0) (closed : Closed host P) where
  stop_service-keeps : (now : Instant) (i : ℕ) (m : ServiceManager) → P m → P (stop_service now i m)
  unfolding apply
  stop_service-keeps now i m v = closed.calls (Call.stops now) i m v

  abandon_blocked-keeps :
      (reason : Option Text) (i : ℕ) (m : ServiceManager) → P m → P (abandon_blocked reason i m)
  unfolding abandon_blocked apply
  abandon_blocked-keeps none i m v = v
  abandon_blocked-keeps (some reason) i m v = closed.calls (Call.abandons reason) i m v

  stop_ready-keeps :
      (now : Instant) (i : ℕ) (found : Option Service) (m : ServiceManager)
      → P m
      → P (stop_ready now i found m)
  unfolding stop_ready
  stop_ready-keeps now i none m v = v
  stop_ready-keeps now i (some s) m v = ground (arith, stop_service-keeps now i m v)

  tick_service-keeps :
      (now : Instant) (i : ℕ) (found : Option Service) (m : ServiceManager)
      → P m
      → P (tick_service host now i found m)
  unfolding tick_service apply
  tick_service-keeps now i none m v = v
  tick_service-keeps now i (some s) m v = closed.calls (Call.ticks now _ _) i m v

  settle_waiting-keeps :
      (now : Instant) (i : ℕ) (s : Service) (m : ServiceManager)
      → P m
      → P (settle_waiting host now i s m)
  unfolding settle_waiting apply
  settle_waiting-keeps now i s m v = ground (
    arith,
    closed.calls (Call.starts now true) i m v,
    abandon_blocked-keeps (dependency_blocked m.services s) i m v,
  )

  settle_service-keeps :
      (now : Instant) (i : ℕ) (found : Option Service) (m : ServiceManager)
      → P m
      → P (settle_service host now i found m)
  unfolding settle_service
  settle_service-keeps now i none m v = v
  settle_service-keeps now i (some s) m v =
      ground (arith, settle_waiting-keeps now i s m v, stop_service-keeps now i m v)

  tick_manager-keeps : (now : Instant) (m : ServiceManager) → P m → P (tick_manager host now m)
  unfolding tick_manager settle_services tick_services settle_one tick_one
  tick_manager-keeps now m v = closed.removes _ (
      for_each_lem P (settle_one host now) (λ i n w. settle_service-keeps now i _ n w) _ 0 _
        (for_each_lem P (tick_one host now) (λ i n w. tick_service-keeps now i _ n w) _ 0 m v))

  start_names_one :
      (i : ℕ) (s : Service) (now : Instant) (m : ServiceManager)
      → P m
      → P (start_with_dependencies host i s now false [] m).0.0
  start_names_one i s now m v =
      start_with_dependencies-keeps host P (λ c j n h w. closed.calls c j n w) i s now false [] m v

  autostart_service-keeps :
      (now : Instant) (i : ℕ) (found : Option Service) (m : ServiceManager)
      → P m
      → P (autostart_service host now i found m)
  unfolding autostart_service
  autostart_service-keeps now i none m v = v
  autostart_service-keeps now i (some s) m v = ground (arith, start_names_one i s now m v)

  merge_service-keeps :
      (config : ServiceConfig) (i : ℕ) (found : Option Service) (r : Reloading)
      → P r.manager
      → P (merge_service config i found r).manager
  unfolding merge_service apply
  merge_service-keeps config i none r v = v
  merge_service-keeps config i (some s) r v =
      let replaced = closed.calls (Call.replaces config) i r.manager v in
      ground (
        arith,
        replaced,
        closed.calls (Call.sets_removing false) i r.manager v,
        closed.calls (Call.sets_removing false) i (change i (replace config) r.manager) replaced,
      )

  merge_at-keeps :
      (config : ServiceConfig) (found : Option ℕ) (r : Reloading)
      → P r.manager
      → P (merge_at config found r).manager
  unfolding merge_at add_service
  merge_at-keeps config none r v = closed.adds config r.manager v
  merge_at-keeps config (some i) r v = merge_service-keeps config i _ r v

  merge_all-keeps :
      (configs : List ServiceConfig) (r : Reloading) → P r.manager → P (merge_all configs r).manager
  unfolding merge_all merge_one
  merge_all-keeps [] r v = v
  merge_all-keeps (config ∷ configs) r v =
      merge_all-keeps configs (merge_one config r) (merge_at-keeps config _ r v)

  drop_service-keeps :
      (configs : List ServiceConfig) (now : Instant) (i : ℕ) (found : Option Service)
      (r : Reloading)
      → P r.manager
      → P (drop_service configs now i found r).manager
  unfolding drop_service apply
  drop_service-keeps configs now i none r v = v
  drop_service-keeps configs now i (some s) r v = ground (
    arith,
    stop_service-keeps now i (change i (set_removing true) r.manager)
        (closed.calls (Call.sets_removing true) i r.manager v),
  )

  start_added-keeps :
      (now : Instant) (i : ℕ) (found : Option Service) (m : ServiceManager)
      → P m
      → P (start_added host now i found m)
  unfolding start_added
  start_added-keeps now i none m v = v
  start_added-keeps now i (some s) m v = ground (arith, start_names_one i s now m v)

  start_at-keeps :
      (now : Instant) (found : Option ℕ) (m : ServiceManager) → P m → P (start_at host now found m)
  unfolding start_at
  start_at-keeps now none m v = v
  start_at-keeps now (some i) m v = start_added-keeps now i _ m v

  start_names-keeps :
      (now : Instant) (names : List Text) (m : ServiceManager)
      → P m
      → P (start_names host now names m)
  unfolding start_names
  start_names-keeps now [] m v = v
  start_names-keeps now (name ∷ names) m v =
      start_names-keeps now names _ (start_at-keeps now (find_index m.services name) m v)

  reload-keeps :
      (configs : List ServiceConfig) (now : Instant) (m : ServiceManager)
      → P m
      → P (reload host configs now m).0
  unfolding reload drop_all drop_one
  reload-keeps configs now m v = start_names-keeps now _ _ (
      for_each_lem (λ r. P r.manager) (drop_one configs now)
        (λ i r w. drop_service-keeps configs now i _ r w) _ 0 _ (merge_all-keeps configs _ v))

  sample_gpu-keeps :
      (gpu : GpuSnapshot) (i : ℕ) (found : Option Service) (m : ServiceManager)
      → P m
      → P (sample_gpu host gpu i found m)
  unfolding sample_gpu apply
  sample_gpu-keeps gpu i none m v = v
  sample_gpu-keeps gpu i (some s) m v = closed.calls (Call.gets_gpu_usage _ _ _) i m v

  sample_one-keeps :
      (gpu : GpuSnapshot) (now : Instant) (i : ℕ) (m : ServiceManager)
      → P m
      → P (sample_one host gpu now i m)
  unfolding sample_one apply
  sample_one-keeps gpu now i m v =
      sample_gpu-keeps gpu i _ _ (closed.calls (Call.samples now) i m v)

  pub run-keeps : (o : Operation) (m : ServiceManager) → P m → P (run host o m)
  unfolding run sample_manager start_autostart autostart_one stop_all stop_one kill_all kill_one
      take_removed apply
  run-keeps (Operation.starts_autostart now) m v =
      for_each_lem P (autostart_one host now) (λ i n w. autostart_service-keeps now i _ n w) _ 0 m v
  run-keeps (Operation.ticks now) m v = tick_manager-keeps now m v
  run-keeps (Operation.stops_all now) m v =
      for_each_lem P (stop_one now) (λ i n w. stop_ready-keeps now i _ n w) _ 0 _
        (closed.shuts_down m v)
  run-keeps (Operation.kills_all now) m v =
      for_each_lem P (kill_one now) (λ i n w. closed.calls (Call.kills now) i n w) _ 0 _
        (closed.shuts_down m v)
  run-keeps (Operation.executes message now) m v =
      execute-keeps host P (λ c j n h w. closed.calls c j n w) message now m v
  run-keeps (Operation.reloads configs now) m v = reload-keeps configs now m v
  run-keeps (Operation.samples now gpu) m v =
      for_each_lem P (sample_one host gpu now) (λ i n w. sample_one-keeps gpu now i n w) _ 0 m v
  run-keeps Operation.takes_removed m v = closed.forgets m v

  pub run_all-keeps : (os : List Operation) (m : ServiceManager) → P m → P (run_all host os m)
  unfolding run_all
  run_all-keeps [] m v = v
  run_all-keeps (o ∷ os) m v = run_all-keeps os (run host o m) (run-keeps o m v)
