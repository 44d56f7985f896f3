-- ===== src/Daemon/Stopped.antt =====
-- What the stop requests of a round of manager/src/Daemon.cpp leave behind.
use improved_process_manager.Base.{
  ◌+◌, ◌≡◌, refl, Bool, true, false, not, ◌&&◌, ◌||◌, [], ◌∷◌, if◌then◌else◌,
}
use improved_process_manager.Daemon.{Daemon, World, begin_shutdown, shutdown_budget}
use improved_process_manager.Daemon.Plan.{asked_stop}
use improved_process_manager.Daemon.Turns.{Round, stop_round}
use improved_process_manager.Manager.Operations.{Operation, run, run_all}
use improved_process_manager.Service.{ms}

module _ (world : World) where
  -- The daemon behind the stop requests.
  pub record Stopped (r : Round) (d e : Daemon) (asked stopping : Bool) : Type 0 where
    pub manager :
        e.manager
        ≡ run_all world.host
            (if asked
              then (if stopping
                  then Operation.kills_all r.begun ∷ []
                  else Operation.stops_all r.begun ∷ [])
              else [])
            d.manager
    pub stopping_is : e.stopping ≡ (stopping || asked)
    pub deadline_is : e.shutdown_deadline ≡ (
        if asked && not stopping
        then r.begun.steady + ms (shutdown_budget d.config.services)
        else d.shutdown_deadline)
    pub path : e.config.path ≡ d.config.path
    pub reads : e.reads ≡ d.reads
    pub samples : e.samples ≡ d.samples
    pub next_publish : e.next_publish ≡ d.next_publish
    pub reload_requested : e.reload_requested ≡ d.reload_requested
    pub inbox : e.inbox ≡ d.inbox

  stop_in :
      (r : Round) (d : Daemon) (asked stopping : Bool)
      → d.stopping ≡ stopping
      → Stopped r d
          (if asked
            then (if not stopping
                then begin_shutdown r.begun (record d { stop_requested = false })
                else record d {
                  stop_requested = false;
                  manager = run world.host (Operation.kills_all r.begun) d.manager;
                })
            else record d { stop_requested = false })
          asked
          stopping
  unfolding begin_shutdown run_all run
  stop_in r d true false same = record {
    manager = refl;
    stopping_is = refl;
    deadline_is = refl;
    path = refl;
    reads = refl;
    samples = refl;
    next_publish = refl;
    reload_requested = refl;
    inbox = refl;
  }
  stop_in r d true true same = record {
    manager = refl;
    stopping_is = same;
    deadline_is = refl;
    path = refl;
    reads = refl;
    samples = refl;
    next_publish = refl;
    reload_requested = refl;
    inbox = refl;
  }
  stop_in r d false false same = record {
    manager = refl;
    stopping_is = same;
    deadline_is = refl;
    path = refl;
    reads = refl;
    samples = refl;
    next_publish = refl;
    reload_requested = refl;
    inbox = refl;
  }
  stop_in r d false true same = record {
    manager = refl;
    stopping_is = same;
    deadline_is = refl;
    path = refl;
    reads = refl;
    samples = refl;
    next_publish = refl;
    reload_requested = refl;
    inbox = refl;
  }

  pub stop_round-Stopped :
      (r : Round) (d : Daemon) → Stopped r d (stop_round r d) (asked_stop r d) d.stopping
  unfolding stop_round run
  stop_round-Stopped r d = stop_in r d (asked_stop r d) d.stopping refl
