-- ===== src/Daemon/Histories.antt =====
-- Histories of the manager's operations that a daemon of manager/src/Daemon.cpp gives it.
use improved_process_manager.Base.{
  ℕ, ◌+◌, ◌≡◌, refl, ap, Bool, true, false, List, [], ◌∷◌, ◌++◌, All, Text, if◌then◌else◌, ◌||◌,
}
use improved_process_manager.Command.{CommandMessage, command_code_from_byte}
use improved_process_manager.Daemon.{Daemon, World}
use improved_process_manager.Daemon.Plan.{
  is_due, stop_plan, parsed_plan, refuses, next_read, is_reload, reload_plan, command_plan,
  requests, request_plan, report_plan, main_plan, left_over, ends, end_plan, round_plan, plan,
  asked_stop,
}
use improved_process_manager.Daemon.Turns.{Round, Step, step}
use improved_process_manager.Launcher.{Host}
use improved_process_manager.Manager.{ServiceManager}
use improved_process_manager.Manager.Lookup.{all_stopped}
use improved_process_manager.Manager.Operations.{Operation, run, run_all}
use improved_process_manager.Manager.Quiet.{is_autostart}
use improved_process_manager.Parser.{Parsed, failed, parsed}
use improved_process_manager.Parser.Settings.{Config}
use improved_process_manager.Service.{Instant}

module _ (host : Host) where
  pub run_all-append :
      (os ps : List Operation) (m : ServiceManager)
      → run_all host (os ++ ps) m ≡ run_all host ps (run_all host os m)
  unfolding run_all
  run_all-append [] ps m = refl
  run_all-append (o ∷ os) ps m = run_all-append os ps (run host o m)

pub if_pair :
    {X : Type 0} (P : Daemon → Type 0) (b : Bool) (x y : Daemon × X)
    → P x.0
    → P y.0
    → P (if b then x else y).0
if_pair P true x y h k = h
if_pair P false x y h k = k

pub if_daemon : (P : Daemon → Type 0) (b : Bool) (x y : Daemon) → P x → P y → P (if b then x else y)
if_daemon P true x y h k = h
if_daemon P false x y h k = k

-- No operation is the start of the configured services.
abbrev pub IsQuiet : List Operation → Type 0
IsQuiet = All (λ o. is_autostart o ≡ false)

pub IsQuiet-append : (os ps : List Operation) → IsQuiet os → IsQuiet ps → IsQuiet (os ++ ps)
IsQuiet-append [] ps h k = k
IsQuiet-append (o ∷ os) ps (e, h) k = (e, IsQuiet-append os ps h k)

IsQuiet-if :
    (b : Bool) (os ps : List Operation) → IsQuiet os → IsQuiet ps → IsQuiet (if b then os else ps)
IsQuiet-if true os ps h k = h
IsQuiet-if false os ps h k = k

stop_plan-IsQuiet : (r : Round) (d : Daemon) → IsQuiet (stop_plan r d)
unfolding stop_plan
stop_plan-IsQuiet r d =
    IsQuiet-if (asked_stop r d) _ _ (IsQuiet-if d.stopping _ _ (refl, tt) (refl, tt)) tt

parsed_plan-IsQuiet : (now : Instant) (read : Parsed Config) → IsQuiet (parsed_plan now read)
unfolding parsed_plan
parsed_plan-IsQuiet now (failed error) = tt
parsed_plan-IsQuiet now (parsed fresh) = (refl, tt)

module _ (world : World) where
  reload_plan-IsQuiet :
      (path : Text) (stopping : Bool) (reads : ℕ) (now : Instant)
      → IsQuiet (reload_plan world path stopping reads now)
  unfolding reload_plan
  reload_plan-IsQuiet path stopping reads now =
      IsQuiet-if (refuses path stopping) _ _ tt (parsed_plan-IsQuiet now _)

  command_plan-IsQuiet :
      (path : Text) (stopping : Bool) (reads : ℕ) (now : Instant) (cs : List CommandMessage)
      → IsQuiet (command_plan world path stopping reads now cs)
  unfolding command_plan
  command_plan-IsQuiet path stopping reads now [] = tt
  command_plan-IsQuiet path stopping reads now (c ∷ cs) =
      let reloads = is_reload (command_code_from_byte c.command) in
      let next = if reloads then next_read path stopping reads else reads in
      let rest = command_plan-IsQuiet path stopping next now cs in
      IsQuiet-if reloads _ _
        (IsQuiet-append (reload_plan world path stopping reads now) _
          (reload_plan-IsQuiet path stopping reads now) rest)
        (refl, rest)

  request_plan-IsQuiet : (r : Round) (d : Daemon) → IsQuiet (request_plan world r d)
  unfolding request_plan requests
  request_plan-IsQuiet r d =
      let reloads = r.signalled_reload || d.reload_requested in
      IsQuiet-append _ _
        (IsQuiet-if reloads _ [] (reload_plan-IsQuiet d.config.path _ d.reads r.begun) tt)
        (command_plan-IsQuiet d.config.path _ _ r.now _)

  -- A plan behind the stop requests.
  later_plan-IsQuiet :
      (r : Round) (d : Daemon)
      → IsQuiet (
          request_plan world r d
          ++ ((Operation.ticks r.now ∷ Operation.takes_removed ∷ [])
              ++ report_plan world r (is_due r d) d.samples))
  unfolding report_plan
  later_plan-IsQuiet r d =
      IsQuiet-append (request_plan world r d) _ (request_plan-IsQuiet r d)
        (refl, (refl, IsQuiet-if (is_due r d) _ _ (refl, tt) tt))

  end_plan-IsQuiet :
      (r : Round) (stopped : Bool) (samples : ℕ) → IsQuiet (end_plan world r stopped samples)
  unfolding end_plan
  end_plan-IsQuiet r true samples = (refl, tt)
  end_plan-IsQuiet r false samples = (refl, (refl, (refl, tt)))

  -- What follows the test at the end of a round.
  last_plan-IsQuiet :
      (r : Round) (d : Daemon) (n : ℕ)
      → IsQuiet (
          if ends world r d
          then end_plan world r (all_stopped (left_over world r d).services) n
          else [])
  last_plan-IsQuiet r d n = IsQuiet-if (ends world r d) _ [] (end_plan-IsQuiet r _ n) tt

  pub plan-IsQuiet : (steps : List Step) (d : Daemon) → IsQuiet (plan world steps d)
  unfolding plan round_plan main_plan
  plan-IsQuiet [] d = tt
  plan-IsQuiet (Step.asks_stop ∷ steps) d = plan-IsQuiet steps _
  plan-IsQuiet (Step.asks_reload ∷ steps) d = plan-IsQuiet steps _
  plan-IsQuiet (Step.turns r ∷ steps) d =
      IsQuiet-append (round_plan world r d) _
        (IsQuiet-append (main_plan world r d) _
          (IsQuiet-append (stop_plan r d) _ (stop_plan-IsQuiet r d) (later_plan-IsQuiet r d))
          (last_plan-IsQuiet r d _))
        (IsQuiet-if (ends world r d) [] _ tt (plan-IsQuiet steps _))

  -- From the first stop request on, the plan is StopAll and operations that follow it.
  pub plan-stop :
      (r : Round) (steps : List Step) (d : Daemon)
      → d.stopping ≡ false
      → asked_stop r d ≡ true
      → (os : List Operation) × IsQuiet os
        × (plan world (Step.turns r ∷ steps) d ≡ Operation.stops_all r.begun ∷ os)
  unfolding plan round_plan main_plan stop_plan
  plan-stop r steps d stopping asked =
      let later =
        request_plan world r d
        ++ ((Operation.ticks r.now ∷ Operation.takes_removed ∷ [])
            ++ report_plan world r (is_due r d) d.samples) in
      let last : List Operation =
        if ends world r d
        then end_plan world r (all_stopped (left_over world r d).services)
            (if is_due r d then d.samples + 1 else d.samples)
        else [] in
      let rest : List Operation =
        if ends world r d then [] else plan world steps (step world (Step.turns r) d).0 in
      (
        (later ++ last) ++ rest,
        IsQuiet-append (later ++ last) rest
            (IsQuiet-append later last (later_plan-IsQuiet r d) (last_plan-IsQuiet r d _))
            (IsQuiet-if (ends world r d) [] _ tt (plan-IsQuiet steps _)),
        ap (λ os. ((os ++ later) ++ last) ++ rest)
            (first (asked_stop r d) d.stopping asked stopping),
      )
    where
      first :
          (a b : Bool)
          → a ≡ true
          → b ≡ false
          → (if a
              then (if b
                  then Operation.kills_all r.begun ∷ []
                  else Operation.stops_all r.begun ∷ [])
              else [])
            ≡ Operation.stops_all r.begun ∷ []
      first a b e f = rw (e, f) refl
