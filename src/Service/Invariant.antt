-- ===== src/Service/Invariant.antt =====
-- The invariant of `Service`, manager/src/Service.cpp, and the private methods that it goes through.
use improved_process_manager.Base.{
  ℕ, ◌+◌, ◌≡◌, refl, Bool, true, false, not, ◌&&◌, Option, none, some, inl, inr, arith, All,
  Bool-cases,
}
use improved_process_manager.Launcher.{ExitStatus, LaunchOutcome, Event, Trace, Host}
use improved_process_manager.Service.Operations.{
  begin_stop, request_stop, schedule_restart, apply_restart_policy, launch_with, launch_succeeded,
  launch_failed, launch, relaunch,
}
use improved_process_manager.Service.Ticking.{
  reset_child, check_heartbeat, finish_stop, handle_exit, answered, poll_in, poll_child,
}
use improved_process_manager.Service.{Instant, Service, Turn}
use improved_process_manager.State.{ServiceState, is_state}

abbrev pub has_child : Option ℕ → Bool
has_child none = false
has_child (some pid) = true

-- The state, the child and the two flags of a service that fit together.
abbrev pub fits : ServiceState → Bool → Bool → Bool → Bool
fits ServiceState.starting child pending again = child && not pending && not again
fits ServiceState.running child pending again = child && not pending && not again
fits ServiceState.unhealthy child pending again = child && not pending && not again
fits ServiceState.stopping child pending again = child && not (pending && again)
fits _ child pending again = not child && not pending && not again

abbrev pub IsConsistent : Service → Type 0
IsConsistent s = fits s.state (has_child s.child) s.pending_start s.restart_after_stop ≡ true

abbrev pub is_fault : Event → Bool
is_fault Event.null_access = true
is_fault _ = false

abbrev pub HasNoFault : Trace → Type 0
HasNoFault = All (λ e. is_fault e ≡ false)

abbrev pub IsSound : Turn → Type 0
IsSound t = IsConsistent t.service × HasNoFault t.trace

-- A service without a child and without flags.
abbrev pub IsIdle : Service → Type 0
IsIdle s = (has_child s.child ≡ false) × (s.pending_start ≡ false) × (s.restart_after_stop ≡ false)

pub flags_down :
    (s : Service)
    → IsConsistent s
    → is_state s.state ServiceState.stopping ≡ false
    → (s.pending_start ≡ false) × (s.restart_after_stop ≡ false)
flags_down s c h = ground arith

pub begin_stop-IsSound :
    (now : Instant) (t : Turn)
    → has_child t.service.child ≡ true
    → HasNoFault t.trace
    → IsSound (begin_stop now t)
unfolding begin_stop request_stop
begin_stop-IsSound now t h n = ground arith

schedule_restart-IsConsistent :
    (now : Instant) (s : Service) → IsIdle s → IsConsistent (schedule_restart now s)
unfolding schedule_restart
schedule_restart-IsConsistent now s i = ground arith

apply_restart_policy-IsConsistent :
    (now : Instant) (clean : Bool) (s : Service)
    → IsIdle s
    → IsConsistent (apply_restart_policy now clean s)
unfolding apply_restart_policy
apply_restart_policy-IsConsistent now clean s i =
    ground (arith, schedule_restart-IsConsistent now s i)

launch_with-IsSound :
    (outcome : LaunchOutcome) (now : Instant) (t : Turn)
    → IsIdle t.service
    → HasNoFault t.trace
    → IsSound (launch_with outcome now t).0
unfolding launch_with launch_succeeded launch_failed
launch_with-IsSound (LaunchOutcome.refused error) now t i n =
    (apply_restart_policy-IsConsistent now false _ i, n)
launch_with-IsSound (LaunchOutcome.started pid) now t i n = ground arith

module _ (host : Host) where
  pub launch-IsSound :
      (now : Instant) (t : Turn)
      → IsIdle t.service
      → HasNoFault t.trace
      → IsSound (launch host now t).0
  unfolding launch
  launch-IsSound now t i n = launch_with-IsSound _ now _ i (refl, n)

  pub relaunch-IsSound :
      (now : Instant) (ready : Bool) (t : Turn)
      → IsIdle t.service
      → HasNoFault t.trace
      → IsSound (relaunch host now ready t)
  unfolding relaunch
  relaunch-IsSound now true t i n = launch-IsSound now t i n
  relaunch-IsSound now false t i n = ground arith

  finish_stop-IsSound :
      (now : Instant) (allowed ready : Bool) (t : Turn)
      → has_child t.service.child ≡ false
      → HasNoFault t.trace
      → IsSound (finish_stop host now allowed ready t)
  unfolding finish_stop
  finish_stop-IsSound now allowed ready t c n = ground (
    arith,
    schedule_restart-IsConsistent now
        (record t.service {
          state = ServiceState.stopped;
          pending_start = false;
          restart_after_stop = false;
        })
        (c, refl, refl),
    relaunch-IsSound now ready
        (record t {
          service = record t.service {
            state = ServiceState.stopped;
            pending_start = false;
            restart_after_stop = false;
          };
        })
        (c, refl, refl) n,
    relaunch-IsSound now ready
        (record t {
          service = record t.service {
            state = ServiceState.stopped;
            pending_start = false;
            restart_after_stop = false;
            restart_count = t.service.restart_count + 1;
          };
        })
        (c, refl, refl) n,
  )

  handle_exit-IsSound :
      (now : Instant) (status : ExitStatus) (allowed ready : Bool) (t : Turn)
      → IsSound t
      → IsSound (handle_exit host now status allowed ready t)
  unfolding handle_exit reset_child
  handle_exit-IsSound now status allowed ready t (c, n) =
      elim (Bool-cases (is_state t.service.state ServiceState.stopping)) [
        | inl stopping ↦
            rw (stopping, handle_exit)
              (finish_stop-IsSound now allowed ready
                (record t { service = reset_child now status t.service }) refl n)
        | inr running ↦
            let (p, r) = flags_down t.service c running in
            rw (running, handle_exit)
              (
                apply_restart_policy-IsConsistent now _ (reset_child now status t.service)
                    (refl, p, r),
                n,
              )
      ]

  answered-IsSound :
      (exited : Option ExitStatus) (now : Instant) (allowed ready : Bool) (t : Turn)
      → IsSound t
      → IsSound (answered host exited now allowed ready t)
  unfolding answered
  answered-IsSound none now allowed ready t v = v
  answered-IsSound (some status) now allowed ready t v =
      handle_exit-IsSound now status allowed ready t v

  poll_in-IsSound :
      (child : Option ℕ) (now : Instant) (allowed ready : Bool) (t : Turn)
      → IsSound t
      → IsSound (poll_in host child now allowed ready t)
  unfolding poll_in
  poll_in-IsSound none now allowed ready t v = v
  poll_in-IsSound (some pid) now allowed ready t (c, n) =
      answered-IsSound _ now allowed ready _ (c, (refl, n))

  pub poll_child-IsSound :
      (now : Instant) (allowed ready : Bool) (t : Turn)
      → IsSound t
      → IsSound (poll_child host now allowed ready t)
  unfolding poll_child
  poll_child-IsSound now allowed ready t v = poll_in-IsSound t.service.child now allowed ready t v

pub check_heartbeat-IsSound :
    (now : Instant) (t : Turn)
    → IsSound t
    → has_child t.service.child ≡ true
    → is_state t.service.state ServiceState.stopping ≡ false
    → IsSound (check_heartbeat now t)
unfolding check_heartbeat begin_stop request_stop
check_heartbeat-IsSound now t v c h = ground arith
