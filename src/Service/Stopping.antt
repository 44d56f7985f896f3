-- ===== src/Service/Stopping.antt =====
-- The kills of a service that is being stopped, manager/src/Service.cpp.
use improved_process_manager.Base.{
  ℕ, suc, ◌+◌, ◌≡◌, refl, ◌∙◌, inl, inr, Bool, true, false, not, ◌&&◌, ◌||◌, List, [], ◌∷◌, none,
  some, arith, leb, ◌==◌, if◌then◌else◌, Bool-cases,
}
use improved_process_manager.Config.{StopSignal, signal_byte}
use improved_process_manager.Launcher.{Event, Trace, Host}
use improved_process_manager.Service.Operations.{begin_stop, request_stop, kill_child}
use improved_process_manager.Service.Ticking.{
  answered, poll_in, poll_child, advance_stopping, advance_in, tick,
}
use improved_process_manager.Service.Methods.{stop_in, stop}
use improved_process_manager.Service.{Instant, ms, Turn}
use improved_process_manager.State.{ServiceState, is_state}

abbrev pub kills : Trace → ℕ
kills [] = 0
kills (Event.killed pid ∷ trace) = suc (kills trace)
kills (_ ∷ trace) = kills trace

-- Some of the times is at or past the deadline.
abbrev pub any_due : ℕ → List Instant → Bool
any_due deadline [] = false
any_due deadline (now ∷ later) = leb deadline now.steady || any_due deadline later

-- The service is being stopped: its process, its deadline, and whether it was killed.
record IsStopping (pid deadline : ℕ) (sent : Bool) (t : Turn) : Type 0 where
  in_state : t.service.state ≡ ServiceState.stopping
  has_process : t.service.child ≡ some pid
  has_deadline : t.service.stop_deadline ≡ deadline
  was_sent : t.service.kill_sent ≡ sent

stop-IsStopping :
    (state : ServiceState) (now : Instant) (pid : ℕ) (t : Turn)
    → (is_state state ServiceState.starting
        || is_state state ServiceState.running
        || is_state state ServiceState.unhealthy)
      ≡ true
    → t.service.child ≡ some pid
    → (signal_byte t.service.config.stop_signal == signal_byte StopSignal.kill) ≡ false
    → IsStopping pid (now.steady + ms t.service.config.stop_timeout) false (stop_in state now t).0
unfolding stop_in begin_stop
stop-IsStopping ServiceState.starting now pid t s c k = ground arith
stop-IsStopping _ now pid t s c k = ground arith

kills-stop_in :
    (state : ServiceState) (now : Instant) (t : Turn)
    → kills (stop_in state now t).0.trace ≡ kills t.trace
unfolding stop_in begin_stop request_stop
kills-stop_in ServiceState.starting now t = ground arith
kills-stop_in _ now t = ground arith

abbrev after_poll : ℕ → Turn → Turn
after_poll pid t = record t { trace = Event.polled pid none ∷ t.trace }

after_poll-IsStopping :
    (pid deadline : ℕ) (sent : Bool) (t : Turn)
    → IsStopping pid deadline sent t
    → IsStopping pid deadline sent (after_poll pid t)
after_poll-IsStopping pid deadline sent t v = record {
  in_state = v.in_state;
  has_process = v.has_process;
  has_deadline = v.has_deadline;
  was_sent = v.was_sent;
}

module _ (host : Host) (allowed ready : Bool) where
  unfoldable pub tick_all : List Instant → Turn → Turn
  tick_all [] t = t
  tick_all (now ∷ later) t = tick_all later (tick host now allowed ready t)

  module _ (pid : ℕ) (never_exits : (trace : Trace) → host.poll trace pid ≡ none) where
    tick_stopping :
        (deadline : ℕ) (sent : Bool) (now : Instant) (t : Turn)
        → IsStopping pid deadline sent t
        → tick host now allowed ready t ≡ advance_stopping host now (after_poll pid t)
    unfolding tick poll_child poll_in answered advance_in
    tick_stopping deadline sent now t v =
        rw (v.has_process, poll_in, never_exits t.trace, answered, v.in_state, advance_in) refl

    advance_stopping-IsStopping :
        (deadline : ℕ) (sent : Bool) (now : Instant) (t : Turn)
        → IsStopping pid deadline sent t
        → IsStopping pid deadline (sent || leb deadline now.steady) (advance_stopping host now t)
    unfolding advance_stopping
    advance_stopping-IsStopping deadline sent now t v = ground arith

    kills-advance_stopping :
        (deadline : ℕ) (sent : Bool) (now : Instant) (t : Turn)
        → IsStopping pid deadline sent t
        → kills (advance_stopping host now t).trace
          ≡ (if not sent && leb deadline now.steady then suc (kills t.trace) else kills t.trace)
    unfolding advance_stopping kill_child
    kills-advance_stopping deadline sent now t v = ground arith

    tick-IsStopping :
        (deadline : ℕ) (sent : Bool) (now : Instant) (t : Turn)
        → IsStopping pid deadline sent t
        → IsStopping pid deadline (sent || leb deadline now.steady) (tick host now allowed ready t)
    tick-IsStopping deadline sent now t v = rw (tick_stopping deadline sent now t v) (
        advance_stopping-IsStopping deadline sent now (after_poll pid t)
          (after_poll-IsStopping pid deadline sent t v))

    kills-tick :
        (deadline : ℕ) (sent : Bool) (now : Instant) (t : Turn)
        → IsStopping pid deadline sent t
        → kills (tick host now allowed ready t).trace
          ≡ (if not sent && leb deadline now.steady then suc (kills t.trace) else kills t.trace)
    kills-tick deadline sent now t v = rw (tick_stopping deadline sent now t v) (
        kills-advance_stopping deadline sent now (after_poll pid t)
          (after_poll-IsStopping pid deadline sent t v))

    tick_all_killed :
        (deadline : ℕ) (times : List Instant) (t : Turn)
        → IsStopping pid deadline true t
        → kills (tick_all times t).trace ≡ kills t.trace
    unfolding tick_all
    tick_all_killed deadline [] t v = refl
    tick_all_killed deadline (now ∷ later) t v =
        tick_all_killed deadline later _ (tick-IsStopping deadline true now t v)
        ∙ kills-tick deadline true now t v

    tick_all_stopping :
        (deadline : ℕ) (times : List Instant) (t : Turn)
        → IsStopping pid deadline false t
        → kills (tick_all times t).trace
          ≡ (if any_due deadline times then suc (kills t.trace) else kills t.trace)
    unfolding tick_all
    tick_all_stopping deadline [] t v = refl
    tick_all_stopping deadline (now ∷ later) t v =
        let next = tick-IsStopping deadline false now t v in
        let count = kills-tick deadline false now t v in
        elim (Bool-cases (leb deadline now.steady)) [
          | inl due ↦ rw due (tick_all_killed deadline later _ (rw due at next) ∙ (rw due at count))
          | inr early ↦
              rw early
                (rw (rw early at count) at (tick_all_stopping deadline later _ (rw early at next)))
        ]

  -- A service that is running, starting or unhealthy is stopped, its stop signal is not the kill, and
  -- its process never exits: however often the manager ticks afterwards, the process is killed exactly
  -- once if some tick is at least the stop timeout after the stop, and never if none is.
  pub kills-stop-tick_all :
      (pid : ℕ) (now : Instant) (times : List Instant) (t : Turn)
      → ((trace : Trace) → host.poll trace pid ≡ none)
      → (is_state t.service.state ServiceState.starting
          || is_state t.service.state ServiceState.running
          || is_state t.service.state ServiceState.unhealthy)
        ≡ true
      → t.service.child ≡ some pid
      → (signal_byte t.service.config.stop_signal == signal_byte StopSignal.kill) ≡ false
      → kills (tick_all times (stop now t).0).trace ≡ (
          if any_due (now.steady + ms t.service.config.stop_timeout) times
          then suc (kills t.trace)
          else kills t.trace)
  unfolding stop
  kills-stop-tick_all pid now times t silent s c k =
      rw (← kills-stop_in t.service.state now t)
        (tick_all_stopping pid silent _ times _ (stop-IsStopping t.service.state now pid t s c k))
