-- ===== src/Manager.antt =====
-- manager/include/ServiceManager.hpp and manager/src/ServiceManager.cpp: the services and what is done
-- to all of them. A `Service&` is an index into the vector, which does not change while it is used.
pub mod Lookup
pub mod Dependencies
pub mod Commands
pub mod Reload
pub mod Ticking
pub mod Sampling
pub mod Replies
pub mod Questions
pub mod Induction
pub mod Operations
pub mod Soundness
pub mod Quiet
pub mod Fuel
pub mod Shutdown
pub mod Merging
pub mod Dropping
pub mod Reloaded
use improved_process_manager.Base.{
  ℕ, zero, suc, ◌+◌, Bool, true, false, List, [], ◌∷◌, Option, none, some, length, get_elem?, set,
  map, Text,
}
use improved_process_manager.Config.{ServiceConfig, EnvironmentVariable}
use improved_process_manager.Launcher.{Trace}
use improved_process_manager.Service.{Service, Turn, Answer, new_service}

-- The fields of the class, with the trace of what was asked of the launcher and the children.
pub record ServiceManager : Type 0 where
  pub manager_environment : List EnvironmentVariable
  pub services : List Service
  pub removed : List Text
  pub shutting_down : Bool
  pub trace : Trace

-- The constructor.
unfoldable pub new_manager : List EnvironmentVariable → ServiceManager
new_manager environment = record {
  manager_environment = environment;
  services = [];
  removed = [];
  shutting_down = false;
  trace = [];
}

unfoldable pub load : List ServiceConfig → ServiceManager → ServiceManager
load configs m = record m { services = map (λ c. new_service c m.manager_environment) configs }

-- The manager after a method of service `i` has run.
abbrev pub put_back : ServiceManager → ℕ → Turn → ServiceManager
put_back m i t = record m { services = set m.services i t.service; trace = t.trace }

-- A method of service `i` that returns nothing.
unfoldable pub with_service : ℕ → (Turn → Turn) → ServiceManager → ServiceManager
with_service i method m = elim (get_elem? m.services i) [
  | none ↦ m
  | some s ↦ put_back m i (method (record { service = s; trace = m.trace }))
]

-- A method of service `i` that returns a result and writes a message.
unfoldable pub ask_service :
    ℕ → (Turn → Turn × Answer) → ServiceManager → Answer → ServiceManager × Answer
ask_service i method m otherwise = elim (get_elem? m.services i) [
  | none ↦ (m, otherwise)
  | some s ↦
      let (t, answer) = method (record { service = s; trace = m.trace }) in (put_back m i t, answer)
]

-- `for (std::size_t i = 0; i < services.size(); ++i)`: no body changes the size.
unfoldable pub for_each {ℓ} : {S : Type ℓ} → ℕ → ℕ → (ℕ → S → S) → S → S
for_each zero i body s = s
for_each (suc left) i body s = for_each left (suc i) body (body i s)
