-- ===== src/Manager/Fuel.antt =====
-- The depth of the recursion in `StartDependencies`, manager/src/ServiceManager.cpp.
use improved_process_manager.Base.{
  ℕ, zero, suc, ◌≤◌, ◌<◌, ◌≡◌, ◌∙◌, refl, sym, ap, arith, Bool, true, false, ◌||◌, List, [], ◌∷◌,
  ◌++◌, Option, none, some, get_elem?, set, map, length, Text, if◌then◌else◌, contains, same_text,
  same_text_iff, same_text_self, inl, inr, Bool-cases,
}
use improved_process_manager.Launcher.{Host}
use improved_process_manager.Manager.Dependencies.{
  Progress, start_dependency, visit_dependency, start_dependencies, prepare, wanted,
  dependencies_of,
}
use improved_process_manager.Manager.Lookup.{find_index}
use improved_process_manager.Manager.{ServiceManager, with_service}
use improved_process_manager.Service.Cards.{start_in-card}
use improved_process_manager.Service.Methods.{start}
use improved_process_manager.Service.{Instant, Service}

abbrev names_of : List Service → List Text
names_of services = map (λ s. s.config.name) services

names_of-set :
    (services : List Service) (i : ℕ) (s after : Service)
    → get_elem? services i ≡ some s
    → after.config ≡ s.config
    → names_of (set services i after) ≡ names_of services
names_of-set [] i s after e same = refl
names_of-set (x ∷ xs) zero s after e same =
    ap (λ c. c.name ∷ names_of xs)
      (same ∙ ap (λ o. elim o [ none ↦ x.config | some a ↦ a.config ]) (sym e))
names_of-set (x ∷ xs) (suc i) s after e same =
    ap (◌∷◌ x.config.name) (names_of-set xs i s after e same)

-- How many of the names are not on the way yet.
unfoldable unvisited : List Text → List Text → ℕ
unvisited visiting [] = 0
unvisited visiting (name ∷ names) =
    if contains visiting name then unvisited visiting names else suc (unvisited visiting names)

contains-append :
    (xs : List Text) (x name : Text)
    → contains (xs ++ x ∷ []) name ≡ (contains xs name || same_text x name)
unfolding contains
contains-append [] x name = ground arith
contains-append (y ∷ xs) x name = ground (arith, contains-append xs x name)

unvisited-append_le :
    (visiting names : List Text) (name : Text)
    → unvisited (visiting ++ name ∷ []) names ≤ unvisited visiting names
unfolding unvisited
unvisited-append_le visiting [] name = omega arith
unvisited-append_le visiting (x ∷ names) name =
    ground (arith, unvisited-append_le visiting names name, contains-append visiting name x)

unvisited-length : (visiting names : List Text) → unvisited visiting names ≤ length names
unfolding unvisited
unvisited-length visiting [] = omega arith
unvisited-length visiting (x ∷ names) = ground (arith, unvisited-length visiting names)

length-names_of : (services : List Service) → length (names_of services) ≡ length services
length-names_of [] = refl
length-names_of (s ∷ ss) = ap suc (length-names_of ss)

find_index-absent :
    (services : List Service) (name : Text)
    → contains (names_of services) name ≡ false
    → find_index services name ≡ none
unfolding contains find_index
find_index-absent [] name h = refl
find_index-absent (s ∷ ss) name h = ground (arith, find_index-absent ss name)

-- A name of a service that was not on the way makes one fewer.
unvisited-present :
    (visiting names : List Text) (name : Text)
    → contains visiting name ≡ false
    → contains names name ≡ true
    → unvisited (visiting ++ name ∷ []) names < unvisited visiting names
unfolding unvisited contains
unvisited-present visiting [] name free h = absurd (ground arith)
unvisited-present visiting (x ∷ names) name free h = elim (Bool-cases (same_text x name)) [
  | inl same ↦
      let e = (same_text_iff x name).0 same in
      rw (e, unvisited)
        (ground (
          arith,
          unvisited-append_le visiting names name,
          contains-append visiting name name,
          same_text_self name,
          free,
        ))
  | inr other ↦ ground (
    arith,
    unvisited-present visiting names name free (ground arith),
    contains-append visiting name x,
  )
]

names_of-start :
    (host : Host) (now : Instant) (ready : Bool) (i : ℕ) (s : Service) (m : ServiceManager)
    → get_elem? m.services i ≡ some s
    → names_of (with_service i (λ t. (start host now ready t).0) m).services ≡ names_of m.services
unfolding with_service start
names_of-start host now ready i s m e =
    rw (e, with_service)
      (names_of-set m.services i s _ e (
        ap (λ c. c.0)
          (start_in-card host s.state now ready (record { service = s; trace = m.trace }))))

-- What `wanted` says of the dependency it returns.
wanted_lem :
    (name : Text) (p : Progress) (i : ℕ)
    → wanted name p ≡ some i
    → (contains p.visiting name ≡ false) × (contains (names_of p.manager.services) name ≡ true)
unfolding wanted
wanted_lem name p i e = ground (arith, find_index-absent p.manager.services name)

module _ (host : Host) (base : List Text) where
  -- The services keep their names, the fuel lasts, and at most so many names are not on the way.
  record IsFine (bound : ℕ) (p : Progress) : Type 0 where
    same_names : names_of p.manager.services ≡ base
    lasted : p.exhausted ≡ false
    few_left : unvisited p.visiting base ≤ bound

  start_dependency-IsFine :
      (now : Instant) (name : Text) (i : ℕ) (found : Option Service) (p : Progress) (bound : ℕ)
      → get_elem? p.manager.services i ≡ found
      → IsFine bound p
      → IsFine bound (start_dependency host now name i found p)
  unfolding start_dependency
  start_dependency-IsFine now name i none p bound e v = v
  start_dependency-IsFine now name i (some s) p bound e v = record {
    same_names = names_of-start host now _ i s p.manager e ∙ v.same_names;
    lasted = v.lasted;
    few_left = v.few_left;
  }

  visit_dependency-IsFine :
      (start_theirs : List Text → Progress → Progress) (now : Instant) (name : Text)
      (found : Option ℕ) (p : Progress) (bound : ℕ)
      → ((names : List Text) (q : Progress) (less : ℕ)
          → less < bound
          → IsFine less q
          → IsFine less (start_theirs names q))
      → wanted name p ≡ found
      → IsFine bound p
      → IsFine bound (visit_dependency host start_theirs now name found p)
  unfolding visit_dependency wanted
  visit_dependency-IsFine start_theirs now name none p bound inner e v = v
  visit_dependency-IsFine start_theirs now name (some i) p bound inner e v =
      let (free, present) = wanted_lem name p i e in
      let fewer : unvisited (p.visiting ++ name ∷ []) base < unvisited p.visiting base =
        unvisited-present p.visiting base name free (rw v.same_names at present) in
      let less = unvisited (p.visiting ++ name ∷ []) base in
      let inside =
        inner (dependencies_of (get_elem? p.manager.services i))
          (record p { visiting = p.visiting ++ name ∷ [] }) less (omega (arith, fewer, v.few_left))
          (record { same_names = v.same_names; lasted = v.lasted; few_left = omega arith }) in
      start_dependency-IsFine now name i _ _ bound refl (record {
        same_names = inside.same_names;
        lasted = inside.lasted;
        few_left = omega (arith, inside.few_left, fewer, v.few_left);
      })

  start_dependencies-IsFine :
      (fuel : ℕ) (now : Instant) (names : List Text) (p : Progress) (bound : ℕ)
      → bound < fuel
      → IsFine bound p
      → IsFine bound (start_dependencies host fuel now names p)
  unfolding start_dependencies
  start_dependencies-IsFine zero now names p bound h v = absurd (omega arith)
  start_dependencies-IsFine (suc fuel) now [] p bound h v = v
  start_dependencies-IsFine (suc fuel) now (name ∷ names) p bound h v =
      start_dependencies-IsFine (suc fuel) now names _ bound h (
        visit_dependency-IsFine (start_dependencies host fuel now) now name _ p bound
          (λ theirs q less k w. start_dependencies-IsFine fuel now theirs q less (omega arith) w)
          refl v)

-- The walk over what a service depends on, directly and through others, always ends within one level
-- of recursion per service and one more, even where services depend on each other in a circle.
pub prepare_lem :
    (host : Host) (now : Instant) (s : Service) (started : List Text) (m : ServiceManager)
    → (prepare host now s started m).exhausted ≡ false
unfolding prepare
prepare_lem host now s started m =
    let fine =
      start_dependencies-IsFine host (names_of m.services) (suc (length m.services)) now
        s.config.depends_on _ (length m.services) (omega arith)
        (record {
          same_names = refl;
          lasted = refl;
          few_left =
              omega (arith, unvisited-length _ (names_of m.services), length-names_of m.services);
        }) in
    fine.lasted
