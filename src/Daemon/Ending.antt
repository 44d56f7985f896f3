-- ===== src/Daemon/Ending.antt =====
-- How the loop of manager/src/Daemon.cpp ends: the stop flag and the deadline through a round.
use improved_process_manager.Base.{
  ℕ, ◌+◌, ◌≤◌, ◌≡◌, refl, sym, subst, ◌∙◌, Bool, true, false, not, ◌||◌, List, [], ◌∷◌, arith, inl,
  inr, if◌then◌else◌, Bool-cases, le→leb,
}
use improved_process_manager.Config.{ServiceConfig}
use improved_process_manager.Daemon.{
  Daemon, World, begin_shutdown, publish, shutdown_budget, max_shutdown,
}
use improved_process_manager.Daemon.Histories.{if_daemon}
use improved_process_manager.Daemon.Rounds.{SameStop, SameStop-trans, Later, before_end-Later}
use improved_process_manager.Daemon.Turns.{
  Round, Step, stop_round, clean_up, last_kill, is_over, before_end, end_round, round, step,
  run_rounds,
}
use improved_process_manager.Manager.Lookup.{all_stopped}
use improved_process_manager.Service.{ms}

same_stop : (d e : Daemon) → Later d e → SameStop d e
same_stop d e (flag, deadline, config) = (flag, deadline)

on_false :
    (P : Daemon → Type 0) (b : Bool) (x y : Daemon) → b ≡ false → P y → P (if b then x else y)
on_false P true x y e h = absurd (ground arith)
on_false P false x y e h = h

on_true : (P : Daemon → Type 0) (b : Bool) (x y : Daemon) → b ≡ true → P x → P (if b then x else y)
on_true P true x y e h = h
on_true P false x y e h = absurd (ground arith)

-- A round whose clock behind the poll is at or past a time.
pub data Reaches (time : ℕ) : List Step → Type 0 where
  now_reached :
      (r : Round) (steps : List Step) → time ≤ r.now.steady → Reaches time (Step.turns r ∷ steps)
  later_reached : (s : Step) (steps : List Step) → Reaches time steps → Reaches time (s ∷ steps)

Reaches-sooner : (a b : ℕ) (steps : List Step) → a ≤ b → Reaches b steps → Reaches a steps
Reaches-sooner a b [] h reaches = elim reaches [ ]
Reaches-sooner a b (Step.turns r ∷ steps) h (now_reached _ _ late) =
    now_reached r steps (omega arith)
Reaches-sooner a b (s ∷ steps) h (later_reached _ _ reaches) =
    later_reached s steps (Reaches-sooner a b steps h reaches)

-- The deadline that a first stop request sets.
stop_round_first :
    (r : Round) (d : Daemon)
    → d.stopping ≡ false
    → (r.signalled_stop || d.stop_requested) ≡ true
    → ((stop_round r d).stopping ≡ true)
      × ((stop_round r d).shutdown_deadline
          ≡ r.begun.steady + ms (shutdown_budget d.config.services))
unfolding stop_round begin_shutdown
stop_round_first r d stopping asked =
    on_true
      (λ e.
        (e.stopping ≡ true)
        × (e.shutdown_deadline ≡ r.begun.steady + ms (shutdown_budget d.config.services)))
      (r.signalled_stop || d.stop_requested) _ _ asked
      (on_true
        (λ e.
          (e.stopping ≡ true)
          × (e.shutdown_deadline ≡ r.begun.steady + ms (shutdown_budget d.config.services)))
        (not d.stopping) _ _ (ground arith) (refl, refl))

shutdown_budget-le : (services : List ServiceConfig) → shutdown_budget services ≤ max_shutdown
unfolding shutdown_budget
shutdown_budget-le services = omega arith

module _ (world : World) where
  stop_round-SameStop : (r : Round) (d : Daemon) → d.stopping ≡ true → SameStop d (stop_round r d)
  unfolding stop_round
  stop_round-SameStop r d h =
      if_daemon (SameStop d) (r.signalled_stop || d.stop_requested) _ _
        (on_false (SameStop d) (not d.stopping) _ _ (ground arith) (refl, refl)) (refl, refl)

  is_over_late :
      (r : Round) (d : Daemon)
      → d.stopping ≡ true
      → d.shutdown_deadline ≤ r.now.steady
      → is_over r d ≡ true
  is_over_late r d stopping late =
      rw (stopping, le→leb d.shutdown_deadline r.now.steady late)
        (or_true (all_stopped d.manager.services))
    where
      or_true : (b : Bool) → (b || true) ≡ true
      or_true true = refl
      or_true false = refl

  end_round_over : (r : Round) (d : Daemon) → is_over r d ≡ true → (end_round world r d).1 ≡ true
  unfolding end_round
  end_round_over r d over = rw over refl

  end_round-SameStop :
      (r : Round) (d : Daemon)
      → (end_round world r d).1 ≡ false
      → SameStop d (end_round world r d).0
  unfolding end_round
  end_round-SameStop r d goes_on =
      goes_on_in (is_over r d) (clean_up world r (publish world r.ended (last_kill world r d)))
        goes_on
    where
      goes_on_in :
          (b : Bool) (x : Daemon)
          → (if◌then◌else◌ {A = Daemon × Bool} b (x, true) (d, false)).1 ≡ false
          → SameStop d (if◌then◌else◌ {A = Daemon × Bool} b (x, true) (d, false)).0
      goes_on_in true x e = absurd (ground arith)
      goes_on_in false x e = (refl, refl)

  step-SameStop :
      (s : Step) (d : Daemon)
      → d.stopping ≡ true
      → (step world s d).1 ≡ false
      → SameStop d (step world s d).0
  unfolding step round
  step-SameStop Step.asks_stop d stopping goes_on = (refl, refl)
  step-SameStop Step.asks_reload d stopping goes_on = (refl, refl)
  step-SameStop (Step.turns r) d stopping goes_on =
      SameStop-trans d (stop_round r d) (round world r d).0 (stop_round-SameStop r d stopping) (
        SameStop-trans (stop_round r d) (before_end world r d) (round world r d).0
          (same_stop (stop_round r d) (before_end world r d) (before_end-Later world r d))
          (end_round-SameStop r (before_end world r d) goes_on))

  before_end-SameStop :
      (r : Round) (d : Daemon) → d.stopping ≡ true → SameStop d (before_end world r d)
  before_end-SameStop r d stopping =
      SameStop-trans d (stop_round r d) (before_end world r d) (stop_round-SameStop r d stopping)
        (same_stop (stop_round r d) (before_end world r d) (before_end-Later world r d))

  late_round :
      (r : Round) (d : Daemon)
      → d.stopping ≡ true
      → d.shutdown_deadline ≤ r.now.steady
      → (round world r d).1 ≡ true
  unfolding round
  late_round r d stopping late =
      let (flag, deadline) = before_end-SameStop r d stopping in
      end_round_over r (before_end world r d)
        (is_over_late r (before_end world r d) (flag ∙ stopping) (omega (arith, deadline)))

  -- While the daemon stops, the loop ends at the latest with the first round at or past the deadline.
  pub run_rounds-Reaches :
      (steps : List Step) (d : Daemon)
      → d.stopping ≡ true
      → Reaches d.shutdown_deadline steps
      → (run_rounds world steps d).1 ≡ true
  unfolding run_rounds step
  run_rounds-Reaches [] d stopping reaches = elim reaches [ ]
  run_rounds-Reaches (Step.turns r ∷ steps) d stopping (now_reached _ _ late) =
      rw (late_round r d stopping late) refl
  run_rounds-Reaches (s ∷ steps) d stopping (later_reached _ _ reaches) =
      elim (Bool-cases (step world s d).1) [
        | inl over ↦ rw over refl
        | inr goes_on ↦
            let (flag, deadline) = step-SameStop s d stopping goes_on in
            rw goes_on (
              run_rounds-Reaches steps (step world s d).0 (flag ∙ stopping)
                (subst (λ time. Reaches time steps) (sym deadline) reaches))
      ]

  -- From a first stop request on, the loop ends at the latest with the first round whose clock is ten
  -- minutes past the request, whatever the services and the clients do.
  pub run_rounds-stop :
      (r : Round) (steps : List Step) (d : Daemon)
      → d.stopping ≡ false
      → (r.signalled_stop || d.stop_requested) ≡ true
      → Reaches (r.begun.steady + ms max_shutdown) steps
      → (run_rounds world (Step.turns r ∷ steps) d).1 ≡ true
  unfolding run_rounds step round
  run_rounds-stop r steps d stopping asked reaches =
      let (flag, deadline) = stop_round_first r d stopping asked in
      let (kept_flag, kept_deadline, config) = before_end-Later world r d in
      elim (Bool-cases (round world r d).1) [
        | inl over ↦ rw over refl
        | inr goes_on ↦
            let (end_flag, end_deadline) = end_round-SameStop r (before_end world r d) goes_on in
            let soon : (round world r d).0.shutdown_deadline ≤ r.begun.steady + ms max_shutdown =
              omega (
                arith,
                end_deadline,
                kept_deadline,
                deadline,
                shutdown_budget-le d.config.services,
              ) in
            rw goes_on (
              run_rounds-Reaches steps (round world r d).0 (end_flag ∙ (kept_flag ∙ flag))
                (Reaches-sooner _ _ steps soon reaches))
      ]
