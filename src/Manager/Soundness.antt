-- ===== src/Manager/Soundness.antt =====
-- The services of a manager through a history of operations.
use improved_process_manager.Base.{
  ℕ, zero, suc, ◌≡◌, ◌↔◌, refl, ap, subst, arith, true, false, List, [], ◌∷◌, ◌++◌, Option, none,
  some, get_elem?, set, map, All,
}
use improved_process_manager.Config.{ServiceConfig, EnvironmentVariable}
use improved_process_manager.Launcher.{Host}
use improved_process_manager.Manager.Lookup.{all_stopped}
use improved_process_manager.Manager.Operations.{Operation, run_all, Closed, run_all-keeps}
use improved_process_manager.Manager.Ticking.{remove_finished, kept}
use improved_process_manager.Manager.{ServiceManager, new_manager, load, with_service}
use improved_process_manager.Service.{Service, new_service}
use improved_process_manager.Service.Invariant.{has_child, IsConsistent, HasNoFault}
use improved_process_manager.Service.Soundness.{Call, apply, apply-IsSound}
use improved_process_manager.State.{is_alive}

abbrev pub AllSound : ServiceManager → Type 0
AllSound m = All IsConsistent m.services × HasNoFault m.trace

module _ {ℓ κ} {A : Type ℓ} (P : A → Type κ) where
  All-get_elem? : (xs : List A) (i : ℕ) (x : A) → All P xs → get_elem? xs i ≡ some x → P x
  All-get_elem? [] i x v e = absurd (ground arith)
  All-get_elem? (y ∷ ys) zero x (v, w) e = subst P (ap (λ o. elim o [ none ↦ y | some a ↦ a ]) e) v
  All-get_elem? (y ∷ ys) (suc i) x (v, w) e = All-get_elem? ys i x w e

  All-set : (xs : List A) (i : ℕ) (x : A) → All P xs → P x → All P (set xs i x)
  All-set [] i x v w = tt
  All-set (y ∷ ys) zero x (v, vs) w = (w, vs)
  All-set (y ∷ ys) (suc i) x (v, vs) w = (v, All-set ys i x vs w)

  All-append : (xs ys : List A) → All P xs → All P ys → All P (xs ++ ys)
  All-append [] ys v w = w
  All-append (x ∷ xs) ys (v, vs) w = (v, All-append xs ys vs w)

kept-All : (services : List Service) → All IsConsistent services → All IsConsistent (kept services)
unfolding kept
kept-All [] v = tt
kept-All (s ∷ ss) (v, vs) = ground (arith, kept-All ss vs)

module _ (host : Host) where
  call_in :
      (found : Option Service) (c : Call) (i : ℕ) (m : ServiceManager)
      → get_elem? m.services i ≡ found
      → AllSound m
      → AllSound (with_service i (apply host c) m)
  unfolding with_service
  call_in none c i m e v = rw (e, with_service) v
  call_in (some s) c i m e (v, n) =
      let (a, b) =
        apply-IsSound host c (record { service = s; trace = m.trace })
          (All-get_elem? IsConsistent m.services i s v e, n) in
      rw (e, with_service) (All-set IsConsistent m.services i _ v a, b)

  remove_finished-AllSound : (m : ServiceManager) → AllSound m → AllSound (remove_finished m)
  unfolding remove_finished
  remove_finished-AllSound m (v, n) = ground (arith, kept-All m.services v)

  pub AllSound-Closed : Closed host AllSound
  unfolding new_service
  AllSound-Closed = record {
    calls = λ c i m v. call_in _ c i m refl v;
    shuts_down = λ m v. v;
    removes = λ m v. remove_finished-AllSound m v;
    forgets = λ m v. v;
    adds = λ config m v. (All-append IsConsistent m.services _ v.0 (refl, tt), v.1);
  }

  load-All :
      (configs : List ServiceConfig) (environment : List EnvironmentVariable)
      → All IsConsistent (map (λ c. new_service c environment) configs)
  unfolding new_service
  load-All [] environment = tt
  load-All (config ∷ configs) environment = (refl, load-All configs environment)

  abbrev pub begun : List EnvironmentVariable → List ServiceConfig → ServiceManager
  begun environment configs = load configs (new_manager environment)

  -- After any history of operations on a manager that loaded its services, with any answers of the
  -- system, every service has a child exactly while it is starting, running, unhealthy or stopping, has
  -- a start or a restart noted only while it is stopping, and no method went through a null child
  -- pointer.
  pub run_all-AllSound :
      (environment : List EnvironmentVariable) (configs : List ServiceConfig) (os : List Operation)
      → AllSound (run_all host os (begun environment configs))
  unfolding load new_manager
  run_all-AllSound environment configs os =
      run_all-keeps host AllSound AllSound-Closed os _ (load-All configs environment, tt)

  all_stopped-All :
      (services : List Service)
      → All IsConsistent services
      → (all_stopped services ≡ true) ↔ All (λ s. has_child s.child ≡ false) services
  unfolding all_stopped is_alive
  all_stopped-All [] v = (λ x. tt, λ x. refl)
  all_stopped-All (s ∷ ss) (v, vs) =
      let (f, g) = all_stopped-All ss vs in (λ x. ground (arith, f), λ x. ground (arith, g))

  -- After any history of operations, the manager says that all services are stopped exactly when no
  -- service has a child process left.
  pub all_stopped-run_all :
      (environment : List EnvironmentVariable) (configs : List ServiceConfig) (os : List Operation)
      → (all_stopped (run_all host os (begun environment configs)).services ≡ true)
        ↔ All
            (λ s. has_child s.child ≡ false)
            (run_all host os (begun environment configs)).services
  all_stopped-run_all environment configs os =
      all_stopped-All _ (run_all-AllSound environment configs os).0
