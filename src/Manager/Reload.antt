-- ===== src/Manager/Reload.antt =====
-- `Apply`, in manager/src/ServiceManager.cpp: the services follow a configuration that was read again.
use improved_process_manager.Base.{
  ℕ, ◌+◌, true, false, not, ◌&&◌, List, [], ◌∷◌, ◌++◌, Option, none, some, if◌then◌else◌, length,
  get_elem?, Text,
}
use improved_process_manager.Config.{ServiceConfig, same_service_config}
use improved_process_manager.Launcher.{Host}
use improved_process_manager.Manager.Dependencies.{start_with_dependencies}
use improved_process_manager.Manager.Lookup.{find_index, listed}
use improved_process_manager.Manager.Ticking.{stop_service}
use improved_process_manager.Manager.{ServiceManager, with_service, for_each}
use improved_process_manager.Service.Methods.{replace, set_removing}
use improved_process_manager.Service.{Instant, Service, new_service}

-- What a reload did (manager/include/ServiceManager.hpp).
pub record ReloadSummary : Type 0 where
  pub added : ℕ
  pub changed : ℕ
  pub removed : ℕ

-- The manager, the names to start, and the summary so far.
pub record Reloading : Type 0 where
  pub manager : ServiceManager
  pub names : List Text
  pub summary : ReloadSummary

-- A method of service `i` that asks nothing of the system.
abbrev pub change : ℕ → (Service → Service) → ServiceManager → ServiceManager
change i f m = with_service i (λ t. record t { service = f t.service }) m

unfoldable pub add_service : ServiceConfig → Reloading → Reloading
add_service config r = record {
  manager = record r.manager {
    services = r.manager.services ++ new_service config r.manager.manager_environment ∷ [];
  };
  names = r.names ++ config.name ∷ [];
  summary = record r.summary { added = r.summary.added + 1 };
}

-- The branch of the first loop where the service is known.
unfoldable pub merge_service : ServiceConfig → ℕ → Option Service → Reloading → Reloading
merge_service config i none r = r
merge_service config i (some existing) r =
    let changed = not (same_service_config existing.config config) in
    let replaced : ServiceManager =
      if changed then change i (replace config) r.manager else r.manager in
    if existing.removing
    then record {
      manager = change i (set_removing false) replaced;
      names = r.names ++ config.name ∷ [];
      summary = record r.summary { added = r.summary.added + 1 };
    }
    else if changed
    then record r {
      manager = replaced;
      summary = record r.summary { changed = r.summary.changed + 1 };
    }
    else r

unfoldable pub merge_at : ServiceConfig → Option ℕ → Reloading → Reloading
merge_at config none r = add_service config r
merge_at config (some i) r = merge_service config i (get_elem? r.manager.services i) r

unfoldable pub merge_one : ServiceConfig → Reloading → Reloading
merge_one config r = merge_at config (find_index r.manager.services config.name) r

unfoldable pub merge_all : List ServiceConfig → Reloading → Reloading
merge_all [] r = r
merge_all (config ∷ configs) r = merge_all configs (merge_one config r)

unfoldable pub drop_service :
    List ServiceConfig → Instant → ℕ → Option Service → Reloading → Reloading
drop_service configs now i none r = r
drop_service configs now i (some s) r =
    if not (listed configs s.config.name) && not s.removing
    then record r {
      manager = stop_service now i (change i (set_removing true) r.manager);
      summary = record r.summary { removed = r.summary.removed + 1 };
    }
    else r

-- The body of the second loop.
unfoldable pub drop_one : List ServiceConfig → Instant → ℕ → Reloading → Reloading
drop_one configs now i r = drop_service configs now i (get_elem? r.manager.services i) r

unfoldable pub drop_all : List ServiceConfig → Instant → Reloading → Reloading
drop_all configs now r = for_each (length r.manager.services) 0 (drop_one configs now) r

module _ (host : Host) where
  unfoldable pub start_added : Instant → ℕ → Option Service → ServiceManager → ServiceManager
  start_added now i none m = m
  start_added now i (some s) m =
      if s.config.autostart && not m.shutting_down
      then (start_with_dependencies host i s now false [] m).0.0
      else m

  unfoldable pub start_at : Instant → Option ℕ → ServiceManager → ServiceManager
  start_at now none m = m
  start_at now (some i) m = start_added now i (get_elem? m.services i) m

  -- The last loop.
  unfoldable pub start_names : Instant → List Text → ServiceManager → ServiceManager
  start_names now [] m = m
  start_names now (name ∷ names) m =
      start_names now names (start_at now (find_index m.services name) m)

  unfoldable pub reload :
      List ServiceConfig → Instant → ServiceManager → ServiceManager × ReloadSummary
  reload configs now m =
      let merged = merge_all configs (record {
        manager = m;
        names = [];
        summary = record { added = 0; changed = 0; removed = 0 };
      }) in
      let dropped = drop_all configs now merged in
      (start_names now dropped.names dropped.manager, dropped.summary)
