-- ===== src/Manager/Merging.antt =====
-- The first loop of `Apply`, manager/src/ServiceManager.cpp, on what it changes: each service's
-- configuration, and the mark of one that was dropped.
use improved_process_manager.Base.{
  ℕ, zero, suc, ◌≡◌, ◌∙◌, refl, sym, ap, arith, Bool, false, not, ◌||◌, List, [], ◌∷◌, ◌++◌, Option,
  none, some, get_elem?, set, map, Text, if◌then◌else◌, same_text, inl, inr, Bool-cases,
}
use improved_process_manager.Config.{ServiceConfig, same_service_config}
use improved_process_manager.Config.Same.{same_service_config_iff}
use improved_process_manager.Manager.Lookup.{find_index, listed}
use improved_process_manager.Manager.Reload.{
  Reloading, change, add_service, merge_service, merge_at, merge_one, merge_all,
}
use improved_process_manager.Manager.{ServiceManager, with_service}
use improved_process_manager.Service.Cards.{card}
use improved_process_manager.Service.Methods.{replace, set_removing}
use improved_process_manager.Service.{Service, new_service}

abbrev pub Card : Type 0
Card = ServiceConfig × Bool

-- The first service of that name gets the configuration and stays; an unknown name is added.
unfoldable pub merge_card : ServiceConfig → List Card → List Card
merge_card config [] = (config, false) ∷ []
merge_card config (c ∷ cs) =
    if same_text c.0.name config.name then (config, false) ∷ cs else c ∷ merge_card config cs

unfoldable pub merge_cards : List ServiceConfig → List Card → List Card
merge_cards [] cs = cs
merge_cards (config ∷ configs) cs = merge_cards configs (merge_card config cs)

-- A service that is not configured any more is dropped.
abbrev pub drop_card : List ServiceConfig → Card → Card
drop_card configs c = (c.0, c.1 || not (listed configs c.0.name))

module _ {ℓ} {A : Type ℓ} where
  pub get_elem?-set :
      (xs : List A) (i : ℕ) (x y : A) → get_elem? xs i ≡ some x → get_elem? (set xs i y) i ≡ some y
  get_elem?-set [] i x y e = absurd (ground arith)
  get_elem?-set (z ∷ zs) zero x y e = refl
  get_elem?-set (z ∷ zs) (suc i) x y e = get_elem?-set zs i x y e

  pub set-set : (xs : List A) (i : ℕ) (x y : A) → set (set xs i x) i y ≡ set xs i y
  set-set [] i x y = refl
  set-set (z ∷ zs) zero x y = refl
  set-set (z ∷ zs) (suc i) x y = ap (◌∷◌ z) (set-set zs i x y)

  set_self : (xs : List A) (i : ℕ) (x : A) → get_elem? xs i ≡ some x → set xs i x ≡ xs
  set_self [] i x e = refl
  set_self (z ∷ zs) zero x e = ap (λ o. elim o [ none ↦ z | some a ↦ a ] ∷ zs) (sym e)
  set_self (z ∷ zs) (suc i) x e = ap (◌∷◌ z) (set_self zs i x e)

pub change_lem :
    (i : ℕ) (f : Service → Service) (m : ServiceManager) (x : Service)
    → get_elem? m.services i ≡ some x
    → (change i f m).services ≡ set m.services i (f x)
unfolding with_service
change_lem i f m x e = rw (e, with_service) refl

merge_card_new :
    (services : List Service) (config : ServiceConfig)
    → find_index services config.name ≡ none
    → merge_card config (map card services) ≡ map card services ++ (config, false) ∷ []
unfolding merge_card find_index
merge_card_new [] config e = refl
merge_card_new (s ∷ ss) config e = ground (arith, merge_card_new ss config)

found_later :
    (later : Option ℕ) (i : ℕ)
    → (elim later [ none ↦ none | some j ↦ some (suc j) ]) ≡ some i
    → (j : ℕ) × (later ≡ some j) × (i ≡ suc j)
found_later none i e = absurd (ground arith)
found_later (some j) i e = (j, refl, ground arith)

merge_card_known :
    (services : List Service) (config : ServiceConfig) (i : ℕ) (y : Service)
    → find_index services config.name ≡ some i
    → card y ≡ (config, false)
    → map card (set services i y) ≡ merge_card config (map card services)
unfolding merge_card find_index
merge_card_known [] config i y e h = absurd (ground arith)
merge_card_known (s ∷ ss) config i y e h = elim (Bool-cases (same_text s.config.name config.name)) [
  | inl same ↦ let first : i ≡ 0 = ground arith in rw (first, same) (ap (λ c. c ∷ map card ss) h)
  | inr other ↦
      let (j, at, next) = found_later (find_index ss config.name) i (rw other at e) in
      rw (next, other) (ap (◌∷◌ (card s)) (merge_card_known ss config j y at h))
]

find_index-get_elem? :
    (services : List Service) (name : Text) (i : ℕ)
    → find_index services name ≡ some i
    → (s : Service) × (get_elem? services i ≡ some s)
unfolding find_index
find_index-get_elem? [] name i e = absurd (ground arith)
find_index-get_elem? (s ∷ ss) name i e = elim (Bool-cases (same_text s.config.name name)) [
  | inl same ↦ let first : i ≡ 0 = ground arith in rw first (s, refl)
  | inr other ↦
      let (j, at, next) = found_later (find_index ss name) i (rw other at e) in
      rw next (find_index-get_elem? ss name j at)
]

merge_service-card :
    (config : ServiceConfig) (i : ℕ) (x : Service) (r : Reloading)
    → find_index r.manager.services config.name ≡ some i
    → get_elem? r.manager.services i ≡ some x
    → map card (merge_service config i (some x) r).manager.services
      ≡ merge_card config (map card r.manager.services)
unfolding merge_service replace set_removing
merge_service-card config i x r found e =
    let known = merge_card_known r.manager.services config i in
    let replaced = change_lem i (replace config) r.manager x e in
    let second : ServiceManager = change i (replace config) r.manager in
    let there : get_elem? second.services i ≡ some (replace config x) =
      rw replaced (get_elem?-set r.manager.services i x (replace config x) e) in
    let again : (change i (set_removing false) second).services
        ≡ set (set r.manager.services i (replace config x)) i
            (set_removing false (replace config x)) =
      change_lem i (set_removing false) second (replace config x) there
      ∙ ap (λ ss. set ss i (set_removing false (replace config x))) replaced in
    elim (Bool-cases (same_service_config x.config config)) [
      | inl same ↦
          let equal = (same_service_config_iff x.config config).0 same in
          elim (Bool-cases x.removing) [
            | inl dropped ↦
                rw (same, dropped)
                  (ap (map card) (change_lem i (set_removing false) r.manager x e)
                    ∙ known _ found (ap (λ c. (c, false)) equal))
            | inr stays ↦
                rw (same, stays)
                  (ap (map card) (sym (set_self r.manager.services i x e))
                    ∙ known x found (λ j. (equal j, stays j)))
          ]
      | inr differs ↦ elim (Bool-cases x.removing) [
        | inl dropped ↦
            rw (differs, dropped)
              (ap (map card) (again ∙ set-set r.manager.services i (replace config x) _)
                ∙ known _ found refl)
        | inr stays ↦
            rw (differs, stays)
              (ap (map card) replaced ∙ known _ found (ap (λ b. (config, b)) stays))
      ]
    ]

pub map-append : (a b : List Service) → map card (a ++ b) ≡ map card a ++ map card b
map-append [] b = refl
map-append (x ∷ xs) b = ap (◌∷◌ (card x)) (map-append xs b)

pub map-append_one :
    (services : List Service) (s : Service)
    → map card (services ++ s ∷ []) ≡ map card services ++ card s ∷ []
map-append_one services s = map-append services (s ∷ [])

merge_at-card :
    (config : ServiceConfig) (found : Option ℕ) (r : Reloading)
    → find_index r.manager.services config.name ≡ found
    → map card (merge_at config found r).manager.services
      ≡ merge_card config (map card r.manager.services)
unfolding merge_at add_service new_service
merge_at-card config none r e =
    map-append_one r.manager.services _ ∙ sym (merge_card_new r.manager.services config e)
merge_at-card config (some i) r e =
    let (x, there) = find_index-get_elem? r.manager.services config.name i e in
    rw there (merge_service-card config i x r e there)

pub merge_all-card :
    (configs : List ServiceConfig) (r : Reloading)
    → map card (merge_all configs r).manager.services
      ≡ merge_cards configs (map card r.manager.services)
unfolding merge_all merge_one merge_cards
merge_all-card [] r = refl
merge_all-card (config ∷ configs) r =
    merge_all-card configs (merge_one config r)
    ∙ ap (merge_cards configs) (merge_at-card config _ r refl)
