-- ===== src/Service/Launching.antt =====
-- The launches of a tick, manager/src/Service.cpp.
use improved_process_manager.Base.{
  ℕ, suc, ◌≡◌, refl, ◌∙◌, Bool, false, ◌&&◌, [], ◌∷◌, Option, none, some, arith,
}
use improved_process_manager.Launcher.{Event, Trace, Host, ExitStatus}
use improved_process_manager.Service.Operations.{begin_stop, request_stop, kill_child, relaunch}
use improved_process_manager.Service.Ticking.{
  missed_by, reset_child, check_heartbeat, finish_stop, handle_exit, answered, poll_in, poll_child,
  advance_starting, advance_running, advance_stopping, advance_backoff, advance_in, tick,
}
use improved_process_manager.Service.{Instant, Turn}
use improved_process_manager.State.{ServiceState}

-- How often a launch was asked for.
abbrev pub launches : Trace → ℕ
launches [] = 0
launches (Event.launched request outcome ∷ trace) = suc (launches trace)
launches (_ ∷ trace) = launches trace

pub launches-begin_stop :
    (now : Instant) (t : Turn) → launches (begin_stop now t).trace ≡ launches t.trace
unfolding begin_stop request_stop
launches-begin_stop now t = ground arith

launches-check_heartbeat :
    (now : Instant) (t : Turn) → launches (check_heartbeat now t).trace ≡ launches t.trace
unfolding check_heartbeat
launches-check_heartbeat now t = ground (
  arith,
  launches-begin_stop now (record t {
    service = record t.service {
      missed_beats = missed_by now t.service;
      state = ServiceState.unhealthy;
    };
  }),
)

module _ (host : Host) where
  finish_stop_quiet :
      (now : Instant) (allowed ready : Bool) (t : Turn)
      → (allowed && ready) ≡ false
      → launches (finish_stop host now allowed ready t).trace ≡ launches t.trace
  unfolding finish_stop relaunch
  finish_stop_quiet now allowed ready t h = ground arith

  handle_exit_quiet :
      (status : ExitStatus) (now : Instant) (allowed ready : Bool) (t : Turn)
      → (allowed && ready) ≡ false
      → launches (handle_exit host now status allowed ready t).trace ≡ launches t.trace
  unfolding handle_exit
  handle_exit_quiet status now allowed ready t h = ground (
    arith,
    finish_stop_quiet now allowed ready (record t { service = reset_child now status t.service }) h,
  )

  answered_quiet :
      (exited : Option ExitStatus) (now : Instant) (allowed ready : Bool) (t : Turn)
      → (allowed && ready) ≡ false
      → launches (answered host exited now allowed ready t).trace ≡ launches t.trace
  unfolding answered
  answered_quiet none now allowed ready t h = refl
  answered_quiet (some status) now allowed ready t h =
      handle_exit_quiet status now allowed ready t h

  poll_in_quiet :
      (child : Option ℕ) (now : Instant) (allowed ready : Bool) (t : Turn)
      → (allowed && ready) ≡ false
      → launches (poll_in host child now allowed ready t).trace ≡ launches t.trace
  unfolding poll_in
  poll_in_quiet none now allowed ready t h = refl
  poll_in_quiet (some pid) now allowed ready t h = answered_quiet _ now allowed ready _ h

  advance_in_quiet :
      (state : ServiceState) (now : Instant) (allowed ready : Bool) (t : Turn)
      → (allowed && ready) ≡ false
      → launches (advance_in host state now allowed ready t).trace ≡ launches t.trace
  unfolding advance_in advance_starting advance_running advance_stopping advance_backoff kill_child
      relaunch
  advance_in_quiet ServiceState.stopped now allowed ready t h = refl
  advance_in_quiet ServiceState.starting now allowed ready t h =
      ground (arith, launches-check_heartbeat now t)
  advance_in_quiet ServiceState.running now allowed ready t h =
      ground (arith, launches-check_heartbeat now t)
  advance_in_quiet ServiceState.unhealthy now allowed ready t h =
      ground (arith, launches-check_heartbeat now t)
  advance_in_quiet _ now allowed ready t h = ground arith

  -- A tick asks for no launch while the manager shuts down or a dependency is not running.
  pub launches-tick_quiet :
      (now : Instant) (allowed ready : Bool) (t : Turn)
      → (allowed && ready) ≡ false
      → launches (tick host now allowed ready t).trace ≡ launches t.trace
  unfolding tick poll_child
  launches-tick_quiet now allowed ready t h =
      advance_in_quiet _ now allowed ready (poll_child host now allowed ready t) h
      ∙ poll_in_quiet t.service.child now allowed ready t h
