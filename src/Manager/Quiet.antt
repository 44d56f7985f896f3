-- ===== src/Manager/Quiet.antt =====
-- The launches of a manager that shuts down, manager/src/ServiceManager.cpp.
use improved_process_manager.Base.{
  ℕ, ◌≡◌, ◌∙◌, refl, arith, Bool, true, false, not, List, [], ◌∷◌, Option, none, some, get_elem?,
  All, Text,
}
use improved_process_manager.Command.{CommandCode, CommandMessage}
use improved_process_manager.Config.{ServiceConfig}
use improved_process_manager.Launcher.{Host}
use improved_process_manager.Manager.Commands.{
  execute_one, execute_found, execute_single, execute_all, execute_known, execute_code, execute,
}
use improved_process_manager.Manager.Dependencies.{no_answer}
use improved_process_manager.Manager.Induction.{for_each_lem}
use improved_process_manager.Manager.Lookup.{find_index}
use improved_process_manager.Manager.Operations.{Operation, run, run_all}
use improved_process_manager.Manager.Reload.{
  Reloading, change, add_service, merge_service, merge_at, merge_one, merge_all, drop_service,
  drop_one, drop_all, start_added, start_at, start_names, reload,
}
use improved_process_manager.Manager.Sampling.{GpuSnapshot, sample_gpu, sample_one, sample_manager}
use improved_process_manager.Manager.Ticking.{
  stop_service, stop_ready, kill_one, stop_one, stop_all, kill_all, take_removed, remove_finished,
  tick_service, tick_one, settle_service, settle_one, tick_services, settle_services, tick_manager,
}
use improved_process_manager.Manager.{ServiceManager, with_service, ask_service}
use improved_process_manager.Service.{Instant, Service, Turn, Answer}
use improved_process_manager.Service.Launching.{launches, launches-tick_quiet}
use improved_process_manager.Service.Readiness.{
  launches-stop_in, launches-kill_in, launches-heartbeat,
}
use improved_process_manager.Service.Methods.{
  sample, sample_in, set_gpu_usage, stop, kill, heartbeat, replace, set_removing,
}

abbrev pub Quiet : ℕ → ServiceManager → Type 0
Quiet n m = (m.shutting_down ≡ true) × (launches m.trace ≡ n)

abbrev pub is_autostart : Operation → Bool
is_autostart (Operation.starts_autostart now) = true
is_autostart _ = false

module _ (n : ℕ) where
  with_in :
      (found : Option Service) (i : ℕ) (method : Turn → Turn) (m : ServiceManager)
      → get_elem? m.services i ≡ found
      → ((t : Turn) → launches (method t).trace ≡ launches t.trace)
      → Quiet n m
      → Quiet n (with_service i method m)
  unfolding with_service
  with_in none i method m e same v = rw (e, with_service) v
  with_in (some s) i method m e same (d, v) =
      rw (e, with_service) (d, same (record { service = s; trace = m.trace }) ∙ v)

  ask_in :
      (found : Option Service) (i : ℕ) (method : Turn → Turn × Answer) (m : ServiceManager)
      → get_elem? m.services i ≡ found
      → ((t : Turn) → launches (method t).0.trace ≡ launches t.trace)
      → Quiet n m
      → Quiet n (ask_service i method m no_answer).0
  unfolding ask_service
  ask_in none i method m e same v = rw (e, ask_service) v
  ask_in (some s) i method m e same (d, v) =
      rw (e, ask_service) (d, same (record { service = s; trace = m.trace }) ∙ v)

  stop_service-Quiet :
      (now : Instant) (i : ℕ) (m : ServiceManager) → Quiet n m → Quiet n (stop_service now i m)
  unfolding stop
  stop_service-Quiet now i m v = with_in _ i _ m refl (λ t. launches-stop_in _ now t) v

  change-Quiet :
      (i : ℕ) (f : Service → Service) (m : ServiceManager) → Quiet n m → Quiet n (change i f m)
  change-Quiet i f m v = with_in _ i _ m refl (λ t. refl) v

  stop_ready-Quiet :
      (now : Instant) (i : ℕ) (found : Option Service) (m : ServiceManager)
      → Quiet n m
      → Quiet n (stop_ready now i found m)
  unfolding stop_ready
  stop_ready-Quiet now i none m v = v
  stop_ready-Quiet now i (some s) m v = ground (arith, stop_service-Quiet now i m v)

  merge_service-Quiet :
      (config : ServiceConfig) (i : ℕ) (found : Option Service) (r : Reloading)
      → Quiet n r.manager
      → Quiet n (merge_service config i found r).manager
  unfolding merge_service
  merge_service-Quiet config i none r v = v
  merge_service-Quiet config i (some s) r v =
      let replaced = change-Quiet i (replace config) r.manager v in
      ground (
        arith,
        replaced,
        change-Quiet i (set_removing false) r.manager v,
        change-Quiet i (set_removing false) (change i (replace config) r.manager) replaced,
      )

  merge_at-Quiet :
      (config : ServiceConfig) (found : Option ℕ) (r : Reloading)
      → Quiet n r.manager
      → Quiet n (merge_at config found r).manager
  unfolding merge_at add_service
  merge_at-Quiet config none r v = v
  merge_at-Quiet config (some i) r v = merge_service-Quiet config i _ r v

  merge_all-Quiet :
      (configs : List ServiceConfig) (r : Reloading)
      → Quiet n r.manager
      → Quiet n (merge_all configs r).manager
  unfolding merge_all merge_one
  merge_all-Quiet [] r v = v
  merge_all-Quiet (config ∷ configs) r v =
      merge_all-Quiet configs (merge_one config r) (merge_at-Quiet config _ r v)

  drop_service-Quiet :
      (configs : List ServiceConfig) (now : Instant) (i : ℕ) (found : Option Service)
      (r : Reloading)
      → Quiet n r.manager
      → Quiet n (drop_service configs now i found r).manager
  unfolding drop_service
  drop_service-Quiet configs now i none r v = v
  drop_service-Quiet configs now i (some s) r v = ground (
    arith,
    stop_service-Quiet now i (change i (set_removing true) r.manager)
        (change-Quiet i (set_removing true) r.manager v),
  )

module _ (host : Host) (n : ℕ) where
  tick_service-Quiet :
      (now : Instant) (i : ℕ) (found : Option Service) (m : ServiceManager)
      → Quiet n m
      → Quiet n (tick_service host now i found m)
  unfolding tick_service
  tick_service-Quiet now i none m v = v
  tick_service-Quiet now i (some s) m (d, v) =
      with_in n _ i _ m refl
        (λ t. launches-tick_quiet host now (not m.shutting_down) _ t (rw d refl)) (d, v)

  settle_service-Quiet :
      (now : Instant) (i : ℕ) (found : Option Service) (m : ServiceManager)
      → Quiet n m
      → Quiet n (settle_service host now i found m)
  unfolding settle_service
  settle_service-Quiet now i none m v = v
  settle_service-Quiet now i (some s) m (d, v) = ground (arith, stop_service-Quiet n now i m (d, v))

  remove_finished-Quiet : (m : ServiceManager) → Quiet n m → Quiet n (remove_finished m)
  unfolding remove_finished
  remove_finished-Quiet m v = ground arith

  start_added-Quiet :
      (now : Instant) (i : ℕ) (found : Option Service) (m : ServiceManager)
      → Quiet n m
      → Quiet n (start_added host now i found m)
  unfolding start_added
  start_added-Quiet now i none m v = v
  start_added-Quiet now i (some s) m (d, v) = ground arith

  start_at-Quiet :
      (now : Instant) (found : Option ℕ) (m : ServiceManager)
      → Quiet n m
      → Quiet n (start_at host now found m)
  unfolding start_at
  start_at-Quiet now none m v = v
  start_at-Quiet now (some i) m v = start_added-Quiet now i _ m v

  start_names-Quiet :
      (now : Instant) (names : List Text) (m : ServiceManager)
      → Quiet n m
      → Quiet n (start_names host now names m)
  unfolding start_names
  start_names-Quiet now [] m v = v
  start_names-Quiet now (name ∷ names) m v =
      start_names-Quiet now names _ (start_at-Quiet now (find_index m.services name) m v)

  execute_found-Quiet :
      (message : CommandMessage) (now : Instant) (i : ℕ) (found : Option Service)
      (m : ServiceManager)
      → Quiet n m
      → Quiet n (execute_found host CommandCode.heartbeat message now i found m).0
  unfolding execute_found execute_one
  execute_found-Quiet message now i none m v = v
  execute_found-Quiet message now i (some s) m v =
      ground (arith, ask_in n _ i (heartbeat now) m refl (launches-heartbeat now) v)

  execute_single-Quiet :
      (message : CommandMessage) (now : Instant) (found : Option ℕ) (m : ServiceManager)
      → Quiet n m
      → Quiet n (execute_single host CommandCode.heartbeat message now found m).0
  unfolding execute_single
  execute_single-Quiet message now none m v = v
  execute_single-Quiet message now (some i) m v = execute_found-Quiet message now i _ m v

  execute_code-Quiet :
      (code : Option CommandCode) (message : CommandMessage) (now : Instant) (m : ServiceManager)
      → Quiet n m
      → Quiet n (execute_code host code message now m).0
  unfolding execute_code execute_known execute_all
  execute_code-Quiet none message now m v = v
  execute_code-Quiet (some CommandCode.heartbeat) message now m v =
      ground
        (arith, execute_single-Quiet message now (find_index m.services message.service_name) m v)
  execute_code-Quiet (some _) message now m (d, v) = ground arith

  launches-sample :
      (now : Instant) (t : Turn) → launches (sample host now t).trace ≡ launches t.trace
  unfolding sample
  launches-sample now t = sample_lem t.service.child now t
    where
      sample_lem :
          (child : Option ℕ) (now : Instant) (t : Turn)
          → launches (sample_in host child now t).trace ≡ launches t.trace
      sample_lem none now t = unfold sample_in in refl
      sample_lem (some pid) now t = unfold sample_in in refl

  sample_gpu-Quiet :
      (gpu : GpuSnapshot) (i : ℕ) (found : Option Service) (m : ServiceManager)
      → Quiet n m
      → Quiet n (sample_gpu host gpu i found m)
  unfolding sample_gpu
  sample_gpu-Quiet gpu i none m v = v
  sample_gpu-Quiet gpu i (some s) m v = change-Quiet n i (set_gpu_usage _ _ _) m v

  sample_one-Quiet :
      (gpu : GpuSnapshot) (now : Instant) (i : ℕ) (m : ServiceManager)
      → Quiet n m
      → Quiet n (sample_one host gpu now i m)
  unfolding sample_one
  sample_one-Quiet gpu now i m v =
      sample_gpu-Quiet gpu i _ _ (with_in n _ i (sample host now) m refl (launches-sample now) v)

  run-Quiet :
      (o : Operation) (m : ServiceManager)
      → is_autostart o ≡ false
      → Quiet n m
      → Quiet n (run host o m)
  unfolding run sample_manager stop_all stop_one kill_all kill_one take_removed kill reload drop_all
      drop_one execute tick_manager settle_services tick_services settle_one tick_one
  run-Quiet (Operation.starts_autostart now) m h v = absurd (ground arith)
  run-Quiet (Operation.ticks now) m h v = remove_finished-Quiet _ (
      for_each_lem (Quiet n) (settle_one host now) (λ i k w. settle_service-Quiet now i _ k w) _ 0 _
        (for_each_lem (Quiet n) (tick_one host now) (λ i k w. tick_service-Quiet now i _ k w) _ 0 m
          v))
  run-Quiet (Operation.stops_all now) m h (d, v) =
      for_each_lem (Quiet n) (stop_one now) (λ i k w. stop_ready-Quiet n now i _ k w) _ 0 _
        (refl, v)
  run-Quiet (Operation.kills_all now) m h (d, v) =
      for_each_lem (Quiet n) (kill_one now)
        (λ i k w. with_in n _ i _ k refl (λ t. launches-kill_in _ now t) w) _ 0 _ (refl, v)
  run-Quiet (Operation.executes message now) m h v = execute_code-Quiet _ message now m v
  run-Quiet (Operation.reloads configs now) m h v = start_names-Quiet now _ _ (
      for_each_lem (λ r. Quiet n r.manager) (drop_one configs now)
        (λ i r w. drop_service-Quiet n configs now i _ r w) _ 0 _ (merge_all-Quiet n configs _ v))
  run-Quiet (Operation.samples now gpu) m h v =
      for_each_lem (Quiet n) (sample_one host gpu now) (λ i k w. sample_one-Quiet gpu now i k w) _ 0
        m v
  run-Quiet Operation.takes_removed m h v = v

  run_all-Quiet :
      (os : List Operation) (m : ServiceManager)
      → All (λ o. is_autostart o ≡ false) os
      → m.shutting_down ≡ true
      → launches m.trace ≡ n
      → Quiet n (run_all host os m)
  unfolding run_all
  run_all-Quiet [] m h d v = (d, v)
  run_all-Quiet (o ∷ os) m (h, hs) d v =
      let (d', v') = run-Quiet o m h (d, v) in run_all-Quiet os (run host o m) hs d' v'

-- Once the manager shuts down, no history of operations starts a process, whatever it orders,
-- reloads or ticks, and the manager stays in shutdown. The start of the configured services, which
-- the program runs once before its loop, is not among the operations.
pub launches-run_all_quiet :
    (host : Host) (os : List Operation) (m : ServiceManager)
    → All (λ o. is_autostart o ≡ false) os
    → m.shutting_down ≡ true
    → ((run_all host os m).shutting_down ≡ true)
      × (launches (run_all host os m).trace ≡ launches m.trace)
launches-run_all_quiet host os m h d = run_all-Quiet host _ os m h d refl
