-- ===== src/Service/Readiness.antt =====
-- The launches of every call on a service, manager/src/Service.cpp.
use improved_process_manager.Base.{ℕ, ◌≡◌, refl, arith, Bool, true, false, ◌&&◌, Option, none, some}
use improved_process_manager.Launcher.{Host}
use improved_process_manager.Service.Launching.{launches, launches-begin_stop, launches-tick_quiet}
use improved_process_manager.Service.Methods.{
  start_now, start_in, start, restart_running, restart_in, restart, stop_in, stop, kill_in, kill,
  heartbeat, abandon, sample_in, sample,
}
use improved_process_manager.Service.Soundness.{Call, apply}
use improved_process_manager.Service.{Instant, Turn}
use improved_process_manager.State.{ServiceState}

-- The dependencies are running, and the manager does not shut down.
abbrev pub may_launch : Call → Bool
may_launch (Call.starts now ready) = ready
may_launch (Call.restarts now ready) = ready
may_launch (Call.ticks now allowed ready) = allowed && ready
may_launch _ = false

pub launches-stop_in :
    (state : ServiceState) (now : Instant) (t : Turn)
    → launches (stop_in state now t).0.trace ≡ launches t.trace
unfolding stop_in
launches-stop_in ServiceState.starting now t = launches-begin_stop now t
launches-stop_in ServiceState.running now t = launches-begin_stop now t
launches-stop_in ServiceState.unhealthy now t = launches-begin_stop now t
launches-stop_in _ now t = refl

pub launches-kill_in :
    (child : Option ℕ) (now : Instant) (t : Turn)
    → launches (kill_in child now t).trace ≡ launches t.trace
unfolding kill_in
launches-kill_in none now t = refl
launches-kill_in (some pid) now t = refl

pub launches-heartbeat :
    (now : Instant) (t : Turn) → launches (heartbeat now t).0.trace ≡ launches t.trace
unfolding heartbeat
launches-heartbeat now t = ground arith

module _ (host : Host) where
  start_in_unready :
      (state : ServiceState) (now : Instant) (t : Turn)
      → launches (start_in host state now false t).0.trace ≡ launches t.trace
  unfolding start_in start_now
  start_in_unready ServiceState.starting now t = refl
  start_in_unready _ now t = refl

  restart_in_unready :
      (state : ServiceState) (now : Instant) (t : Turn)
      → launches (restart_in host state now false t).0.trace ≡ launches t.trace
  unfolding restart_in restart_running start
  restart_in_unready ServiceState.starting now t = launches-begin_stop now t
  restart_in_unready ServiceState.running now t = launches-begin_stop now t
  restart_in_unready ServiceState.unhealthy now t = launches-begin_stop now t
  restart_in_unready ServiceState.stopping now t = refl
  restart_in_unready _ now t = start_in_unready _ now t

  sample_in_unready :
      (child : Option ℕ) (now : Instant) (t : Turn)
      → launches (sample_in host child now t).trace ≡ launches t.trace
  unfolding sample_in
  sample_in_unready none now t = refl
  sample_in_unready (some pid) now t = refl

  -- A call on a service starts no process unless it is a start, a restart or a tick while the
  -- service's dependencies are running, and a tick only while launching is allowed.
  pub launches-apply_unready :
      (c : Call) (t : Turn)
      → may_launch c ≡ false
      → launches (apply host c t).trace ≡ launches t.trace
  unfolding apply start restart stop kill sample abandon
  launches-apply_unready (Call.starts now false) t h = start_in_unready t.service.state now t
  launches-apply_unready (Call.starts now true) t h = absurd (ground arith)
  launches-apply_unready (Call.restarts now false) t h = restart_in_unready t.service.state now t
  launches-apply_unready (Call.restarts now true) t h = absurd (ground arith)
  launches-apply_unready (Call.stops now) t h = launches-stop_in t.service.state now t
  launches-apply_unready (Call.kills now) t h = launches-kill_in t.service.child now t
  launches-apply_unready (Call.heartbeats now) t h = launches-heartbeat now t
  launches-apply_unready (Call.samples now) t h = sample_in_unready t.service.child now t
  launches-apply_unready (Call.ticks now allowed ready) t h =
      launches-tick_quiet host now allowed ready t h
  launches-apply_unready (Call.abandons reason) t h = ground arith
  launches-apply_unready _ t h = refl
