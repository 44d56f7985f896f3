-- ===== src/Manager/Dropping.antt =====
-- The second loop of `Apply`, manager/src/ServiceManager.cpp, on the configurations and the marks.
use improved_process_manager.Base.{
  ℕ, suc, ◌≡◌, ◌∙◌, refl, sym, ap, arith, true, false, not, ◌&&◌, List, [], ◌∷◌, ◌++◌, append_assoc,
  some, get_elem?, set, map, length, length-append, get_elem?-append, set-append, inl, inr,
  Bool-cases,
}
use improved_process_manager.Config.{ServiceConfig}
use improved_process_manager.Manager.Lookup.{listed}
use improved_process_manager.Manager.Reload.{Reloading, change, drop_service, drop_one}
use improved_process_manager.Manager.Ticking.{stop_service}
use improved_process_manager.Manager.{ServiceManager, with_service, for_each}
use improved_process_manager.Service.Cards.{card, stop-card}
use improved_process_manager.Service.Methods.{set_removing, stop}
use improved_process_manager.Service.{Instant, Service}
use improved_process_manager.Manager.Merging.{
  drop_card, get_elem?-set, set-set, change_lem, map-append, map-append_one,
}

stop_service-card :
    (now : Instant) (i : ℕ) (m : ServiceManager) (x : Service)
    → get_elem? m.services i ≡ some x
    → (y : Service) × ((stop_service now i m).services ≡ set m.services i y) × (card y ≡ card x)
unfolding with_service
stop_service-card now i m x e = (
  (stop now (record { service = x; trace = m.trace })).0.service,
  rw (e, with_service) refl,
  stop-card now (record { service = x; trace = m.trace }),
)

module _ (configs : List ServiceConfig) (now : Instant) where
  drops :
      (x : Service)
      → (not (listed configs x.config.name) && not x.removing) ≡ true
      → card (set_removing true x) ≡ drop_card configs (card x)
  unfolding set_removing
  drops x h = ground arith

  keeps :
      (x : Service)
      → (not (listed configs x.config.name) && not x.removing) ≡ false
      → card x ≡ drop_card configs (card x)
  keeps x h = ground arith

  dropped :
      (done todo : List Service) (x : Service) (r : Reloading)
      → r.manager.services ≡ done ++ x ∷ todo
      → get_elem? r.manager.services (length done) ≡ some x
      → card (set_removing true x) ≡ drop_card configs (card x)
      → (y : Service) × ((stop_service now
            (length done)
            (change (length done) (set_removing true) r.manager)).services
          ≡ done ++ y ∷ todo)
        × (card y ≡ drop_card configs (card x))
  dropped done todo x r e there h =
      let i = length done in
      let marked : ServiceManager = change i (set_removing true) r.manager in
      let services = change_lem i (set_removing true) r.manager x there in
      let at : get_elem? marked.services i ≡ some (set_removing true x) =
        rw services (get_elem?-set r.manager.services i x (set_removing true x) there) in
      let (y, after, same) = stop_service-card now i marked (set_removing true x) at in
      (
        y,
        after
            ∙ ap (λ ss. set ss i y) services
            ∙ set-set r.manager.services i (set_removing true x) y
            ∙ ap (λ ss. set ss i y) e
            ∙ set-append done todo x y,
        same ∙ h,
      )

  -- The body of the second loop changes one service, and that to its dropped card.
  drop_one-card :
      (done todo : List Service) (x : Service) (r : Reloading)
      → r.manager.services ≡ done ++ x ∷ todo
      → (y : Service) × ((drop_one configs now (length done) r).manager.services ≡ done ++ y ∷ todo)
        × (card y ≡ drop_card configs (card x))
  unfolding drop_one drop_service
  drop_one-card done todo x r e =
      let there : get_elem? r.manager.services (length done) ≡ some x =
        rw e (get_elem?-append done todo x) in
      rw (there, drop_service)
        (elim (Bool-cases (not (listed configs x.config.name) && not x.removing)) [
          | inl goes ↦ rw goes (dropped done todo x r e there (drops x goes))
          | inr stays ↦ rw stays (x, e, keeps x stays)
        ])

  pub drop_loop :
      (done todo : List Service) (i : ℕ) (r : Reloading)
      → i ≡ length done
      → r.manager.services ≡ done ++ todo
      → map card (for_each (length todo) i (drop_one configs now) r).manager.services
        ≡ map card done ++ map (drop_card configs) (map card todo)
  unfolding for_each
  drop_loop done [] i r h e = ap (map card) e ∙ map-append done []
  drop_loop done (x ∷ todo) i r h e =
      let (y, after, same) = drop_one-card done todo x r e in
      let next : (drop_one configs now i r).manager.services ≡ (done ++ y ∷ []) ++ todo =
        rw h after ∙ sym (append_assoc done (y ∷ []) todo) in
      let rest = map (drop_card configs) (map card todo) in
      drop_loop (done ++ y ∷ []) todo (suc i) (drop_one configs now i r)
        (omega (arith, h, length-append done (y ∷ []))) next
      ∙ ap (λ cs. cs ++ rest) (map-append_one done y)
      ∙ append_assoc (map card done) (card y ∷ []) rest
      ∙ ap (λ c. map card done ++ c ∷ rest) same
