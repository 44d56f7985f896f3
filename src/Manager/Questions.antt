-- ===== src/Manager/Questions.antt =====
-- The questions about dependencies, manager/src/ServiceManager.cpp.
use improved_process_manager.Base.{
  ◌≡◌, ◌↔◌, refl, sym, ap, ◌∙◌, arith, Bool, true, false, ◌&&◌, List, [], ◌∷◌, Option, none, some,
  All, Text, contains, inl, inr, Bool-cases,
}
use improved_process_manager.Config.{ServiceConfig, EnvironmentVariable}
use improved_process_manager.Launcher.{Host}
use improved_process_manager.Manager.Lookup.{
  find, is_down, all_running, dependencies_running, dependents_stopped,
}
use improved_process_manager.Manager.Operations.{Operation, run_all}
use improved_process_manager.Manager.Soundness.{begun, run_all-AllSound}
use improved_process_manager.Service.{Service}
use improved_process_manager.Service.Invariant.{has_child, IsConsistent}
use improved_process_manager.State.{ServiceState, is_state, is_alive}

-- A service of that name is there and is running.
abbrev pub IsUp : List Service → Text → Type 0
IsUp services name =
    (other : Service) × (find services name ≡ some other) × (other.state ≡ ServiceState.running)

none-some : (other : Service) → none ≡ some other → ⊥
none-some other e = ground arith

down_up : (b : Bool) → b ≡ true → b ≡ false → ⊥
down_up b h k = ground arith

is_running_iff :
    (s : ServiceState) → (is_state s ServiceState.running ≡ true) ↔ (s ≡ ServiceState.running)
is_running_iff s = ground arith

same_found :
    (found : Option Service) (a b : Service) → found ≡ some a → found ≡ some b → b.state ≡ a.state
same_found found a b e f = ap (λ o. elim o [ none ↦ a.state | some s ↦ s.state ]) (sym f ∙ e)

is_down_iff :
    (services : List Service) (name : Text) (found : Option Service)
    → find services name ≡ found
    → (is_down found ≡ false) ↔ IsUp services name
unfolding is_down
is_down_iff services name none e =
    (λ h. absurd (ground arith), λ (other, f, r). absurd (none-some other (sym e ∙ f)))
is_down_iff services name (some other) e = (
  λ h. (other, e, (is_running_iff other.state).0 (ground arith)),
  λ (o, f, r).
      let running : is_state other.state ServiceState.running ≡ true =
        (is_running_iff other.state).1 (sym (same_found (find services name) other o e f) ∙ r) in
      rw running refl,
)

all_running_iff :
    (services : List Service) (names : List Text)
    → (all_running services names ≡ true) ↔ All (IsUp services) names
unfolding all_running
all_running_iff services [] = (λ h. tt, λ h. refl)
all_running_iff services (name ∷ names) =
    let (f, g) = is_down_iff services name (find services name) refl in
    let (fs, gs) = all_running_iff services names in
    elim (Bool-cases (is_down (find services name))) [
      | inl down ↦ (λ h. absurd (ground arith), λ (up, ups). absurd (down_up _ down (g up)))
      | inr up ↦ rw up (λ h. (f up, fs h), λ (v, vs). gs vs)
    ]

-- A service counts as ready exactly when each service that it names as a dependency exists, and the
-- one that the name stands for is running.
pub dependencies_running_iff :
    (services : List Service) (s : Service)
    → (dependencies_running services s ≡ true) ↔ All (IsUp services) s.config.depends_on
unfolding dependencies_running
dependencies_running_iff services s = all_running_iff services s.config.depends_on

-- A service has a child exactly in the states that count as alive.
alive_iff :
    (needs : Bool) (s : Service)
    → IsConsistent s
    → ((needs && is_alive s.state) ≡ false) ↔ ((needs && has_child s.child) ≡ false)
unfolding is_alive
alive_iff true s v = (λ h. ground arith, λ h. ground arith)
alive_iff false s v = (λ h. refl, λ h. refl)

-- A service that does not depend on a name, or has no child.
abbrev pub IsGone : Text → Service → Type 0
IsGone name s = (contains s.config.depends_on name && has_child s.child) ≡ false

dependents_stopped-All :
    (services : List Service) (name : Text)
    → All IsConsistent services
    → (dependents_stopped services name ≡ true) ↔ All (IsGone name) services
unfolding dependents_stopped
dependents_stopped-All [] name v = (λ h. tt, λ h. refl)
dependents_stopped-All (s ∷ ss) name (v, vs) =
    let (f, g) = dependents_stopped-All ss name vs in
    let (i, j) = alive_iff (contains s.config.depends_on name) s v in
    elim (Bool-cases (contains s.config.depends_on name && is_alive s.state)) [
      | inl needed ↦
          rw needed (λ h. absurd (ground arith), λ (w, ws). absurd (down_up _ needed (j w)))
      | inr free ↦ rw free (λ h. (i free, f h), λ (w, ws). g ws)
    ]

-- After any history of operations on a manager that loaded its services, with any answers of the system,
-- the dependents of a name count as stopped exactly when no service that names it as a dependency has a
-- child process left.
pub dependents_stopped-run_all :
    (host : Host) (environment : List EnvironmentVariable) (configs : List ServiceConfig)
    (os : List Operation) (name : Text)
    → (dependents_stopped (run_all host os (begun host environment configs)).services name ≡ true)
      ↔ All (IsGone name) (run_all host os (begun host environment configs)).services
dependents_stopped-run_all host environment configs os name =
    dependents_stopped-All _ name (run_all-AllSound host environment configs os).0
