-- ===== src/Manager/Shutdown.antt =====
-- The loops of `StopAll` and `Tick` that stop services, manager/src/ServiceManager.cpp.
use improved_process_manager.Base.{
  ℕ, zero, suc, ◌≡◌, ◌∙◌, refl, sym, ap, arith, Bool, true, false, ◌&&◌, List, [], ◌∷◌, ◌++◌,
  append_assoc, Option, none, some, get_elem?, map, length, length-append, get_elem?-append,
  set-append, Text, if◌then◌else◌, contains, inl, inr, Bool-cases,
}
use improved_process_manager.Config.{ServiceConfig}
use improved_process_manager.Launcher.{Trace, Host}
use improved_process_manager.Manager.Lookup.{dependents_stopped}
use improved_process_manager.Manager.Ticking.{
  stops_now, stop_ready, stop_one, stop_all, settle_service, settle_one, settle_services,
}
use improved_process_manager.Manager.{ServiceManager, with_service, for_each}
use improved_process_manager.Service.Methods.{stop_in, stop}
use improved_process_manager.Service.Operations.{begin_stop}
use improved_process_manager.Service.{Instant, Service}
use improved_process_manager.State.{ServiceState, is_alive}

-- What `Stop` makes of a service.
abbrev pub stopped_service : Instant → Service → Service
stopped_service now s = (stop now (record { service = s; trace = [] })).0.service

stop_in_service :
    (state : ServiceState) (now : Instant) (s : Service) (a b : Trace)
    → (stop_in state now (record { service = s; trace = a })).0.service
      ≡ (stop_in state now (record { service = s; trace = b })).0.service
unfolding stop_in begin_stop
stop_in_service ServiceState.starting now s a b = refl
stop_in_service ServiceState.running now s a b = refl
stop_in_service ServiceState.unhealthy now s a b = refl
stop_in_service _ now s a b = refl

-- All that the question about dependents reads of a service.
abbrev life : Service → ServiceConfig × Bool
life s = (s.config, is_alive s.state)

life-stop_in :
    (state : ServiceState) (now : Instant) (s : Service) (trace : Trace)
    → s.state ≡ state
    → life (stop_in state now (record { service = s; trace = trace })).0.service ≡ life s
unfolding stop_in begin_stop is_alive
life-stop_in ServiceState.starting now s trace e = ground arith
life-stop_in ServiceState.running now s trace e = ground arith
life-stop_in ServiceState.unhealthy now s trace e = ground arith
life-stop_in _ now s trace e = ground arith

-- `DependentsStopped` on what it reads.
lives_stopped : List (ServiceConfig × Bool) → Text → Bool
lives_stopped [] name = true
lives_stopped (l ∷ ls) name =
    if contains l.0.depends_on name && l.1 then false else lives_stopped ls name

dependents_stopped-life :
    (services : List Service) (name : Text)
    → dependents_stopped services name ≡ lives_stopped (map life services) name
unfolding dependents_stopped lives_stopped
dependents_stopped-life [] name = refl
dependents_stopped-life (s ∷ ss) name = rw (dependents_stopped-life ss name) refl

stops_now-life :
    (a b : List Service) (s : Service) → map life a ≡ map life b → stops_now a s ≡ stops_now b s
unfolding stops_now
stops_now-life a b s e =
    rw (dependents_stopped-life a s.config.name, e, ← dependents_stopped-life b s.config.name) refl

map-life_set :
    (done todo : List Service) (x y : Service)
    → life y ≡ life x
    → map life (done ++ y ∷ todo) ≡ map life (done ++ x ∷ todo)
map-life_set [] todo x y e = ap (λ l. l ∷ map life todo) e
map-life_set (z ∷ done) todo x y e = ap (◌∷◌ (life z)) (map-life_set done todo x y e)

-- What the shutdown makes of a service among the others.
abbrev pub shut : Instant → List Service → Service → Service
shut now services s = if stops_now services s then stopped_service now s else s

module _ (now : Instant) (services : List Service) where
  stop_one-shut :
      (done todo : List Service) (x : Service) (m : ServiceManager)
      → m.services ≡ done ++ x ∷ todo
      → map life m.services ≡ map life services
      → (stop_one now (length done) m).services ≡ done ++ shut now services x ∷ todo
  unfolding stop_one stop_ready with_service stop
  stop_one-shut done todo x m e l =
      let at_done : get_elem? m.services (length done) ≡ some x =
        rw e (get_elem?-append done todo x) in
      rw (at_done, stop_ready, stops_now-life m.services services x l)
        (elim (Bool-cases (stops_now services x)) [
          | inl go ↦
              rw (go, at_done, with_service, e)
                (rw (stop_in_service x.state now x m.trace []) (set-append done todo x _))
          | inr keep ↦ rw keep e
        ])

  shut-life : (x : Service) → life (shut now services x) ≡ life x
  unfolding stop
  shut-life x = elim (Bool-cases (stops_now services x)) [
    | inl go ↦ rw go (life-stop_in x.state now x [] refl)
    | inr keep ↦ rw keep refl
  ]

  stop_loop :
      (done todo : List Service) (i : ℕ) (m : ServiceManager)
      → i ≡ length done
      → m.services ≡ done ++ todo
      → map life m.services ≡ map life services
      → (for_each (length todo) i (stop_one now) m).services ≡ done ++ map (shut now services) todo
  unfolding for_each
  stop_loop done [] i m h e l = e
  stop_loop done (x ∷ todo) i m h e l =
      let y = shut now services x in
      let next : (stop_one now i m).services ≡ done ++ y ∷ todo =
        rw h (stop_one-shut done todo x m e l) in
      let regrouped : done ++ y ∷ todo ≡ (done ++ y ∷ []) ++ todo =
        sym (append_assoc done (y ∷ []) todo) in
      let lives : map life (stop_one now i m).services ≡ map life services =
        rw next (map-life_set done todo x y (shut-life x) ∙ (rw e at l)) in
      stop_loop (done ++ y ∷ []) todo (suc i) (stop_one now i m)
        (omega (arith, h, length-append done (y ∷ []))) (next ∙ regrouped) lives
      ∙ append_assoc done (y ∷ []) (map (shut now services) todo)

-- Stopping all services asks exactly those to stop that are neither stopping nor stopped and on which
-- no service that is alive depends, as things stand before the first is stopped; the order in which
-- the loop visits them makes no difference, and every other service is left as it is.
pub stop_all_lem :
    (now : Instant) (m : ServiceManager)
    → (stop_all now m).services ≡ map (shut now m.services) m.services
unfolding stop_all
stop_all_lem now m =
    stop_loop now m.services [] m.services 0 (record m { shutting_down = true }) refl refl refl

stop_one-shutting_down :
    (now : Instant) (i : ℕ) (m : ServiceManager) (found : Option Service)
    → get_elem? m.services i ≡ found
    → (stop_one now i m).shutting_down ≡ m.shutting_down
unfolding stop_one stop_ready with_service
stop_one-shutting_down now i m none e = rw (e, stop_ready) refl
stop_one-shutting_down now i m (some s) e =
    rw (e, stop_ready)
      (elim (Bool-cases (stops_now m.services s)) [
        | inl go ↦ rw (go, e, with_service) refl
        | inr keep ↦ rw keep refl
      ])

settle_service_shut :
    (host : Host) (now : Instant) (i : ℕ) (found : Option Service) (m : ServiceManager)
    → m.shutting_down ≡ true
    → settle_service host now i found m ≡ stop_ready now i found m
unfolding settle_service stop_ready
settle_service_shut host now i none m d = refl
settle_service_shut host now i (some s) m d = rw d refl

settle_loop :
    (host : Host) (now : Instant) (left i : ℕ) (m : ServiceManager)
    → m.shutting_down ≡ true
    → for_each left i (settle_one host now) m ≡ for_each left i (stop_one now) m
unfolding for_each settle_one
settle_loop host now zero i m d = refl
settle_loop host now (suc left) i m d =
    let same : settle_one host now i m ≡ stop_one now i m =
      unfold stop_one in settle_service_shut host now i _ m d in
    rw same (
      settle_loop host now left (suc i) (stop_one now i m)
        (stop_one-shutting_down now i m _ refl ∙ d))

-- While the manager shuts down, the second loop of each tick stops the next services in the order of
-- the dependencies: exactly those that are neither stopping nor stopped and on which no service that
-- is alive depends, as things stand after the first loop; every other service is left as it is.
pub settle_services_lem :
    (host : Host) (now : Instant) (m : ServiceManager)
    → m.shutting_down ≡ true
    → (settle_services host now m).services ≡ map (shut now m.services) m.services
unfolding settle_services
settle_services_lem host now m d =
    ap (λ n. n.services) (settle_loop host now (length m.services) 0 m d)
    ∙ stop_loop now m.services [] m.services 0 m refl refl refl
