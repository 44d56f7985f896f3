-- ===== src/Manager/Induction.antt =====
-- Induction over the calls that `Execute` and `StartDependencies` make on services.
use improved_process_manager.Base.{
  ℕ, zero, suc, ◌≡◌, refl, arith, Bool, true, false, List, [], ◌∷◌, Option, none, some, get_elem?,
  Text,
}
use improved_process_manager.Command.{CommandCode, CommandMessage}
use improved_process_manager.Launcher.{Host}
use improved_process_manager.Manager.Commands.{
  Tally, execute_one, count_answer, tally_service, tally_one, tally_all, execute_all, execute_found,
  execute_single, execute_known, execute_code, execute,
}
use improved_process_manager.Manager.Dependencies.{
  Progress, start_dependency, visit_dependency, start_dependencies, prepare, start_or_restart,
  start_with_dependencies, wanted, no_answer,
}
use improved_process_manager.Manager.Lookup.{find_index}
use improved_process_manager.Manager.{ServiceManager, with_service, ask_service, for_each}
use improved_process_manager.Service.{Instant, Service, Turn, Answer}
use improved_process_manager.Service.Methods.{start, restart, stop, heartbeat}
use improved_process_manager.Service.Soundness.{Call, apply, is_command}

pub for_each_lem {ℓ κ} :
    {S : Type ℓ}
    → (P : S → Type κ) (body : ℕ → S → S) → ((i : ℕ) (s : S) → P s → P (body i s))
    → (left i : ℕ) (s : S) → P s
    → P (for_each left i body s)
unfolding for_each
for_each_lem P body keeps zero i s v = v
for_each_lem P body keeps (suc left) i s v =
    for_each_lem P body keeps left (suc i) (body i s) (keeps i s v)

module _ (host : Host) (P : ServiceManager → Type 0)
    (keeps : (c : Call) (i : ℕ) (m : ServiceManager)
      → is_command c ≡ true
      → P m
      → P (with_service i (apply host c) m)) where
  ask_in :
      (asked : Option Service) (c : Call) (i : ℕ) (method : Turn → Turn × Answer)
      (m : ServiceManager)
      → get_elem? m.services i ≡ asked
      → is_command c ≡ true
      → ((t : Turn) → (method t).0 ≡ apply host c t)
      → P m
      → P (ask_service i method m no_answer).0
  unfolding ask_service with_service
  ask_in none c i method m e h same v = rw (e, ask_service) v
  ask_in (some s) c i method m e h same v =
      let after = rw (e, with_service) at (keeps c i m h v) in
      rw (e, ask_service) (rw (same (record { service = s; trace = m.trace })) after)

  start_dependency-keeps :
      (now : Instant) (name : Text) (i : ℕ) (found : Option Service) (p : Progress)
      → P p.manager
      → P (start_dependency host now name i found p).manager
  unfolding start_dependency apply
  start_dependency-keeps now name i none p v = v
  start_dependency-keeps now name i (some s) p v = keeps (Call.starts now _) i p.manager refl v

  visit_dependency-keeps :
      (start_theirs : List Text → Progress → Progress) (now : Instant) (name : Text)
      (found : Option ℕ) (p : Progress)
      → ((names : List Text) (q : Progress) → P q.manager → P (start_theirs names q).manager)
      → P p.manager
      → P (visit_dependency host start_theirs now name found p).manager
  unfolding visit_dependency
  visit_dependency-keeps start_theirs now name none p inner v = v
  visit_dependency-keeps start_theirs now name (some i) p inner v =
      start_dependency-keeps now name i _ _ (inner _ _ v)

  start_dependencies-keeps :
      (fuel : ℕ) (now : Instant) (names : List Text) (p : Progress)
      → P p.manager
      → P (start_dependencies host fuel now names p).manager
  unfolding start_dependencies
  start_dependencies-keeps zero now names p v = v
  start_dependencies-keeps (suc fuel) now [] p v = v
  start_dependencies-keeps (suc fuel) now (name ∷ names) p v =
      start_dependencies-keeps (suc fuel) now names _ (
        visit_dependency-keeps (start_dependencies host fuel now) now name (wanted name p) p
          (start_dependencies-keeps fuel now) v)

  pub start_with_dependencies-keeps :
      (i : ℕ) (s : Service) (now : Instant) (restarts : Bool) (started : List Text)
      (m : ServiceManager)
      → P m
      → P (start_with_dependencies host i s now restarts started m).0.0
  unfolding start_with_dependencies prepare start_or_restart apply
  start_with_dependencies-keeps i s now true started m v =
      ask_in _ (Call.restarts now _) i (restart host now _) _ refl refl (λ t. refl)
        (start_dependencies-keeps _ now _ _ v)
  start_with_dependencies-keeps i s now false started m v =
      ask_in _ (Call.starts now _) i (start host now _) _ refl refl (λ t. refl)
        (start_dependencies-keeps _ now _ _ v)

  execute_one-keeps :
      (code : CommandCode) (i : ℕ) (s : Service) (now : Instant) (started : List Text)
      (m : ServiceManager)
      → P m
      → P (execute_one host code i s now started m).0.0
  unfolding execute_one apply
  execute_one-keeps CommandCode.start i s now started m v =
      start_with_dependencies-keeps i s now false started m v
  execute_one-keeps CommandCode.restart i s now started m v =
      start_with_dependencies-keeps i s now true started m v
  execute_one-keeps CommandCode.stop i s now started m v =
      ask_in _ (Call.stops now) i (stop now) m refl refl (λ t. refl) v
  execute_one-keeps CommandCode.heartbeat i s now started m v =
      ask_in _ (Call.heartbeats now) i (heartbeat now) m refl refl (λ t. refl) v
  execute_one-keeps CommandCode.reload i s now started m v = v

  tally_service-keeps :
      (code : CommandCode) (now : Instant) (i : ℕ) (found : Option Service) (t : Tally)
      → P t.manager
      → P (tally_service host code now i found t).manager
  unfolding tally_service count_answer
  tally_service-keeps code now i none t v = v
  tally_service-keeps code now i (some s) t v =
      ground (arith, execute_one-keeps code i s now t.started t.manager v)

  tally_all-keeps :
      (code : CommandCode) (now : Instant) (m : ServiceManager)
      → P m
      → P (tally_all host code now m).manager
  unfolding tally_all tally_one
  tally_all-keeps code now m v =
      for_each_lem (λ t. P t.manager) (tally_one host code now)
        (λ i t w. tally_service-keeps code now i _ t w) _ 0 _ v

  execute_found-keeps :
      (code : CommandCode) (message : CommandMessage) (now : Instant) (i : ℕ)
      (found : Option Service) (m : ServiceManager)
      → P m
      → P (execute_found host code message now i found m).0
  unfolding execute_found
  execute_found-keeps code message now i none m v = v
  execute_found-keeps code message now i (some s) m v =
      ground (arith, execute_one-keeps code i s now [] m v)

  execute_single-keeps :
      (code : CommandCode) (message : CommandMessage) (now : Instant) (found : Option ℕ)
      (m : ServiceManager)
      → P m
      → P (execute_single host code message now found m).0
  unfolding execute_single
  execute_single-keeps code message now none m v = v
  execute_single-keeps code message now (some i) m v = execute_found-keeps code message now i _ m v

  execute_all-keeps :
      (code : CommandCode) (message : CommandMessage) (now : Instant) (m : ServiceManager)
      → P m
      → P (execute_all host code message now m).0
  unfolding execute_all
  execute_all-keeps code message now m v = ground (arith, tally_all-keeps code now m v)

  execute_code-keeps :
      (code : Option CommandCode) (message : CommandMessage) (now : Instant) (m : ServiceManager)
      → P m
      → P (execute_code host code message now m).0
  unfolding execute_code execute_known
  execute_code-keeps none message now m v = v
  execute_code-keeps (some code) message now m v = ground (
    arith,
    execute_all-keeps code message now m v,
    execute_single-keeps code message now (find_index m.services message.service_name) m v,
  )

  pub execute-keeps :
      (message : CommandMessage) (now : Instant) (m : ServiceManager)
      → P m
      → P (execute host message now m).0
  unfolding execute
  execute-keeps message now m v = execute_code-keeps _ message now m v
