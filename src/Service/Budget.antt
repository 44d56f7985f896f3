-- ===== src/Service/Budget.antt =====
-- `ScheduleRestart` and the window of restarts, in manager/src/Service.cpp.
use improved_process_manager.Base.{
  ℕ, suc, ◌+◌, ◌*◌, ◌^◌, ◌≤◌, min, ◌≡◌, refl, arith, ◌&&◌, List, [], ◌∷◌, ltb, leb, if◌then◌else◌,
  length, All,
}
use improved_process_manager.Service.Backoff.{backoff_delay_lem}
use improved_process_manager.Service.Operations.{drop_expired, schedule_restart}
use improved_process_manager.Service.{Instant, ms, seconds, Service}
use improved_process_manager.State.{ServiceState}

-- How many of the times are not longer ago than the window.
abbrev pub recent : ℕ → ℕ → List ℕ → ℕ
recent now window [] = 0
recent now window (t ∷ ts) =
    if ltb (t + window) now then recent now window ts else suc (recent now window ts)

-- Each time is not after those behind it.
abbrev pub IsSorted : List ℕ → Type 0
IsSorted [] = Unit
IsSorted (t ∷ ts) = All (λ u. t ≤ u) ts × IsSorted ts

recent_whole :
    (now window t : ℕ) (ts : List ℕ)
    → All (λ u. t ≤ u) ts
    → now ≤ t + window
    → recent now window ts ≡ length ts
recent_whole now window t [] v h = refl
recent_whole now window t (u ∷ us) (v, vs) h = ground (arith, recent_whole now window t us vs h)

length-drop_expired :
    (now window : ℕ) (ts : List ℕ)
    → IsSorted ts
    → length (drop_expired now window ts) ≡ recent now window ts
unfolding drop_expired
length-drop_expired now window [] v = refl
length-drop_expired now window (t ∷ ts) (v, vs) =
    ground (arith, length-drop_expired now window ts vs, recent_whole now window t ts v)

-- A service with its restarts noted in order is given up exactly when it has a limit of restarts and
-- at least that many lie within the window; otherwise it restarts after the configured delay, doubled
-- for each restart in the window, up to the largest delay.
pub schedule_restart_lem :
    (now : Instant) (s : Service)
    → IsSorted s.restart_history
    → let count = recent now.steady (seconds s.config.restart_window) s.restart_history in
      (schedule_restart now s).state ≡ (
        if ltb 0 s.config.max_restarts && leb s.config.max_restarts count
        then ServiceState.failed
        else ServiceState.backoff)
      × (schedule_restart now s).restart_at ≡ (
          if ltb 0 s.config.max_restarts && leb s.config.max_restarts count
          then s.restart_at
          else now.steady
            + ms (min (s.config.restart_delay * 2 ^ count) s.config.restart_delay_max))
unfolding schedule_restart
schedule_restart_lem now s v =
    rw
      (
        length-drop_expired now.steady (seconds s.config.restart_window) s.restart_history v,
        backoff_delay_lem s.config
            (recent now.steady (seconds s.config.restart_window) s.restart_history),
      )
      (ground arith)
