-- ===== src/Manager/Reloaded.antt =====
-- `Apply` as a whole, manager/src/ServiceManager.cpp, on the configurations and the marks.
use improved_process_manager.Base.{
  ℕ, zero, suc, ◌≡◌, ◌∙◌, refl, sym, ap, arith, true, false, List, [], ◌∷◌, Option, none, some,
  get_elem?, set, map, Text,
}
use improved_process_manager.Config.{ServiceConfig}
use improved_process_manager.Launcher.{Host}
use improved_process_manager.Manager.Induction.{start_with_dependencies-keeps}
use improved_process_manager.Manager.Lookup.{find_index}
use improved_process_manager.Manager.Reload.{drop_all, start_added, start_at, start_names, reload}
use improved_process_manager.Manager.{ServiceManager, with_service}
use improved_process_manager.Service.Cards.{card, command-card}
use improved_process_manager.Service.Soundness.{Call, apply, is_command}
use improved_process_manager.Service.{Instant, Service}
use improved_process_manager.Manager.Dropping.{drop_loop}
use improved_process_manager.Manager.Merging.{Card, drop_card, merge_cards, merge_all-card}

map-card-set :
    (services : List Service) (i : ℕ) (s after : Service)
    → get_elem? services i ≡ some s
    → card after ≡ card s
    → map card (set services i after) ≡ map card services
map-card-set [] i s after e same = refl
map-card-set (x ∷ xs) zero s after e same =
    ap (λ c. c ∷ map card xs) (same ∙ ap (λ o. elim o [ none ↦ card x | some a ↦ card a ]) (sym e))
map-card-set (x ∷ xs) (suc i) s after e same = ap (◌∷◌ (card x)) (map-card-set xs i s after e same)

module _ (host : Host) where
  call_in-card :
      (base : List Card) (found : Option Service) (c : Call) (i : ℕ) (m : ServiceManager)
      → get_elem? m.services i ≡ found
      → is_command c ≡ true
      → map card m.services ≡ base
      → map card (with_service i (apply host c) m).services ≡ base
  unfolding with_service
  call_in-card base none c i m e h v = rw (e, with_service) v
  call_in-card base (some s) c i m e h v =
      rw (e, with_service)
        (map-card-set m.services i s _ e
            (command-card host c (record { service = s; trace = m.trace }) h)
          ∙ v)

  module _ (base : List Card) where
    start_added-card :
        (now : Instant) (i : ℕ) (found : Option Service) (m : ServiceManager)
        → map card m.services ≡ base
        → map card (start_added host now i found m).services ≡ base
    unfolding start_added
    start_added-card now i none m v = v
    start_added-card now i (some s) m v = ground (
      arith,
      start_with_dependencies-keeps host (λ n. map card n.services ≡ base)
          (λ c j n h w. call_in-card base _ c j n refl h w) i s now false [] m v,
    )

    start_at-card :
        (now : Instant) (found : Option ℕ) (m : ServiceManager)
        → map card m.services ≡ base
        → map card (start_at host now found m).services ≡ base
    unfolding start_at
    start_at-card now none m v = v
    start_at-card now (some i) m v = start_added-card now i _ m v

    start_names-card :
        (now : Instant) (names : List Text) (m : ServiceManager)
        → map card m.services ≡ base
        → map card (start_names host now names m).services ≡ base
    unfolding start_names
    start_names-card now [] m v = v
    start_names-card now (name ∷ names) m v =
        start_names-card now names _ (start_at-card now (find_index m.services name) m v)

  -- After a reload the services stand in the order they had. Each configuration that was read has gone
  -- to the first service of its name, which is not marked as dropped, or to a new service behind the
  -- others if there was none, and every service whose name is not configured is marked as dropped.
  pub reload_lem :
      (configs : List ServiceConfig) (now : Instant) (m : ServiceManager)
      → map card (reload host configs now m).0.services
        ≡ map (drop_card configs) (merge_cards configs (map card m.services))
  unfolding reload drop_all
  reload_lem configs now m =
      start_names-card _ now _ _ refl
      ∙ drop_loop configs now [] _ 0 _ refl refl
      ∙ ap (map (drop_card configs)) (merge_all-card configs _)
