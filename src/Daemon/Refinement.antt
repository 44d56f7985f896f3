-- ===== src/Daemon/Refinement.antt =====
-- `Daemon::Run` of manager/src/Daemon.cpp does to the manager what the plans of its rounds say.
use improved_process_manager.Base.{
  ℕ, ◌+◌, ◌≡◌, refl, sym, ap, ◌∙◌, Bool, true, false, ◌&&◌, ◌||◌, List, [], ◌∷◌, ◌++◌, arith,
  append-nil, Text, if◌then◌else◌, leb,
}
use improved_process_manager.Daemon.{Daemon, World}
use improved_process_manager.Daemon.Conformance.{
  requests-Does, tick_round-Does, publish_round-Reported, end_round_lem,
}
use improved_process_manager.Daemon.Histories.{run_all-append}
use improved_process_manager.Daemon.Plan.{
  is_stopping, deadline, is_due, stop_plan, requests, request_plan, report_plan, main_plan,
  left_over, ends, end_plan, round_plan, plan,
}
use improved_process_manager.Daemon.Stopped.{stop_round-Stopped}
use improved_process_manager.Daemon.Turns.{
  Round, Step, stop_round, reload_round, command_round, tick_round, is_over, before_end, round,
  step, run_rounds,
}
use improved_process_manager.Launcher.{Host}
use improved_process_manager.Manager.{ServiceManager}
use improved_process_manager.Manager.Lookup.{all_stopped}
use improved_process_manager.Manager.Operations.{Operation, run_all}
use improved_process_manager.Server.{Frame}
use improved_process_manager.Service.{Service}

-- Two histories, one behind the other.
run_both :
    (host : Host) (os ps : List Operation) (k : ServiceManager) {m n : ServiceManager}
    → m ≡ run_all host os k
    → n ≡ run_all host ps m
    → n ≡ run_all host (os ++ ps) k
run_both host os ps k e f = f ∙ (ap (run_all host ps) e ∙ sym (run_all-append host os ps k))

module _ (world : World) where
  requests_same :
      (r : Round) {p q : Text} {a b c d : Bool} {m n : ℕ} {i j : List (List Frame)}
      → p ≡ q
      → a ≡ b
      → m ≡ n
      → c ≡ d
      → i ≡ j
      → requests world r p a m c (i ++ r.arrived) ≡ requests world r q b n d (j ++ r.arrived)
  requests_same r e f g h i = rw (e, f, g, h, i) refl

  report_plan_same :
      (r : Round) {m n k l : ℕ}
      → m ≡ n
      → k ≡ l
      → report_plan world r (leb m r.now.steady) k ≡ report_plan world r (leb n r.now.steady) l
  report_plan_same r e f = rw (e, f) refl

  -- The requests, with what they are read off at the start of the round.
  requests-stop_round :
      (r : Round) (d : Daemon)
      → requests world r
          (stop_round r d).config.path
          (stop_round r d).stopping
          (stop_round r d).reads
          (r.signalled_reload || (stop_round r d).reload_requested)
          ((stop_round r d).inbox ++ r.arrived)
        ≡ request_plan world r d
  unfolding request_plan
  requests-stop_round r d =
      let s = stop_round-Stopped world r d in
      requests_same r s.path s.stopping_is s.reads
        (ap (λ b. r.signalled_reload || b) s.reload_requested) s.inbox

  -- The daemon before the test at the end of the round.
  record IsReady (r : Round) (d e : Daemon) : Type 0 where
    manager : e.manager ≡ left_over world r d
    stopping_is : e.stopping ≡ is_stopping r d
    deadline_is : e.shutdown_deadline ≡ deadline r d
    samples : e.samples ≡ (if is_due r d then d.samples + 1 else d.samples)

  before_end-IsReady : (r : Round) (d : Daemon) → IsReady r d (before_end world r d)
  unfolding main_plan stop_plan
  before_end-IsReady r d =
      let d1 = stop_round r d in
      let d3 = command_round world r (reload_round world r d1) in
      let d4 = tick_round world r d3 in
      let s = stop_round-Stopped world r d in
      let q = requests-Does world r d1 in
      let t = tick_round-Does world r d3 in
      let p = publish_round-Reported world r d4 in
      let (q_path, q_stopping, q_deadline, q_next, q_samples) = q.view in
      let (t_path, t_stopping, t_deadline, t_next, t_samples) = t.view in
      let next : d4.next_publish ≡ d.next_publish = t_next ∙ (q_next ∙ s.next_publish) in
      let samples : d4.samples ≡ d.samples = t_samples ∙ (q_samples ∙ s.samples) in
      let asked : d3.manager ≡ run_all world.host (request_plan world r d) d1.manager =
        q.manager ∙ ap (λ os. run_all world.host os d1.manager) (requests-stop_round r d) in
      let shown : (before_end world r d).manager
          ≡ run_all world.host (report_plan world r (is_due r d) d.samples) d4.manager =
        p.manager ∙ ap (λ os. run_all world.host os d4.manager) (report_plan_same r next samples) in
      record {
        manager = run_both world.host (stop_plan r d) _ d.manager s.manager (
            run_both world.host (request_plan world r d) _ d1.manager asked (
              run_both world.host (Operation.ticks r.now ∷ Operation.takes_removed ∷ []) _
                d3.manager t.manager shown));
        stopping_is = p.stopping_is ∙ (t_stopping ∙ (q_stopping ∙ s.stopping_is));
        deadline_is = p.deadline_is ∙ (t_deadline ∙ (q_deadline ∙ s.deadline_is));
        samples = p.samples ∙ taken r next samples;
      }
    where
      taken :
          (r : Round) {m n k l : ℕ}
          → m ≡ n
          → k ≡ l
          → (if leb m r.now.steady then k + 1 else k) ≡ (if leb n r.now.steady then l + 1 else l)
      taken r e f = rw (e, f) refl

  over_same :
      (now : ℕ) {a b : Bool} {m n : List Service} {k l : ℕ}
      → a ≡ b
      → m ≡ n
      → k ≡ l
      → (a && (all_stopped m || leb k now)) ≡ (b && (all_stopped n || leb l now))
  over_same now e f g = rw (e, f, g) refl

  end_same :
      (r : Round) {a b : Bool} {m n : ServiceManager} {k l : ℕ}
      → a ≡ b
      → m ≡ n
      → k ≡ l
      → run_all world.host (if a then end_plan world r (all_stopped m.services) k else []) m
        ≡ run_all world.host (if b then end_plan world r (all_stopped n.services) l else []) n
  end_same r e f g = rw (e, f, g) refl

  -- A round does what its plan says, and ends the loop when the plan does.
  round-plan :
      (r : Round) (d : Daemon)
      → ((round world r d).0.manager ≡ run_all world.host (round_plan world r d) d.manager)
        × ((round world r d).1 ≡ ends world r d)
  unfolding round round_plan ends
  round-plan r d =
      let e = before_end world r d in
      let h = before_end-IsReady r d in
      let (manager, over) = end_round_lem world r e in
      let same : is_over r e ≡ ends world r d =
        over_same r.now.steady h.stopping_is (ap (λ m. m.services) h.manager) h.deadline_is in
      (
        manager
            ∙ (end_same r same h.manager h.samples
                ∙ sym (run_all-append world.host (main_plan world r d) _ d.manager)),
        over ∙ same,
      )

  -- Whatever the daemon meets, its loop does to the manager what the plans of its rounds say, in their
  -- order: StopAll on the first stop request and KillAll on each later one; a reload that is asked for,
  -- granted and readable; every readable command among the first hundred messages and before an empty one,
  -- in order; a tick; TakeRemoved; the sample of a report that is due; and, once the daemon stops and
  -- nothing is left alive or the deadline has come, a kill and a tick of what is left, a last sample, and
  -- nothing more.
  pub run_rounds-plan :
      (steps : List Step) (d : Daemon)
      → (run_rounds world steps d).0.manager ≡ run_all world.host (plan world steps d) d.manager
  unfolding run_rounds plan step run_all
  run_rounds-plan [] d = refl
  run_rounds-plan (Step.asks_stop ∷ steps) d = run_rounds-plan steps _
  run_rounds-plan (Step.asks_reload ∷ steps) d = run_rounds-plan steps _
  run_rounds-plan (Step.turns r ∷ steps) d =
      let (manager, over) = round-plan r d in
      behind (round world r d) (ends world r d) (round_plan world r d)
        (plan world steps (round world r d).0) (run_rounds world steps (round world r d).0) manager
        over (run_rounds-plan steps (round world r d).0)
    where
      behind :
          (next : Daemon × Bool) (b : Bool) (os ps : List Operation) (rest : Daemon × Bool)
          → next.0.manager ≡ run_all world.host os d.manager
          → next.1 ≡ b
          → rest.0.manager ≡ run_all world.host ps next.0.manager
          → (if next.1 then (next.0, true) else rest).0.manager
            ≡ run_all world.host (os ++ (if b then [] else ps)) d.manager
      behind (e, true) true os ps rest manager over after =
          manager ∙ ap (λ os. run_all world.host os d.manager) (sym (append-nil os))
      behind (e, true) false os ps rest manager over after = absurd (ground arith)
      behind (e, false) true os ps rest manager over after = absurd (ground arith)
      behind (e, false) false os ps rest manager over after =
          run_both world.host os ps d.manager manager after
