-- ===== src/Service/Cards.antt =====
-- The configuration of a service and the mark of one that was dropped, through the commands.
use improved_process_manager.Base.{◌≡◌, refl, arith, Bool, true, false}
use improved_process_manager.Config.{ServiceConfig}
use improved_process_manager.Launcher.{Host, LaunchOutcome}
use improved_process_manager.Service.Methods.{
  start_now, start_in, start, restart_running, restart_in, restart, stop_in, stop, heartbeat,
}
use improved_process_manager.Service.Operations.{
  schedule_restart, apply_restart_policy, launch_succeeded, launch_failed, launch_with, launch,
  begin_stop,
}
use improved_process_manager.Service.Soundness.{Call, apply, is_command}
use improved_process_manager.Service.{Instant, Service, Turn}
use improved_process_manager.State.{ServiceState}

abbrev pub card : Service → ServiceConfig × Bool
card s = (s.config, s.removing)

apply_restart_policy-card :
    (now : Instant) (clean : Bool) (s : Service) → card (apply_restart_policy now clean s) ≡ card s
unfolding apply_restart_policy schedule_restart
apply_restart_policy-card now clean s = ground arith

launch_with-card :
    (outcome : LaunchOutcome) (now : Instant) (t : Turn)
    → card (launch_with outcome now t).0.service ≡ card t.service
unfolding launch_with launch_succeeded launch_failed
launch_with-card (LaunchOutcome.refused error) now t = apply_restart_policy-card now false _
launch_with-card (LaunchOutcome.started pid) now t = refl

start_now-card :
    (host : Host) (now : Instant) (ready : Bool) (t : Turn)
    → card (start_now host now ready t).0.service ≡ card t.service
unfolding start_now launch
start_now-card host now true t = launch_with-card _ now _
start_now-card host now false t = refl

pub start_in-card :
    (host : Host) (state : ServiceState) (now : Instant) (ready : Bool) (t : Turn)
    → card (start_in host state now ready t).0.service ≡ card t.service
unfolding start_in
start_in-card host ServiceState.waiting now ready t = start_now-card host now ready t
start_in-card host ServiceState.stopped now ready t = start_now-card host now ready _
start_in-card host ServiceState.failed now ready t = start_now-card host now ready _
start_in-card host ServiceState.backoff now ready t = start_now-card host now ready _
start_in-card host _ now ready t = refl

restart_in-card :
    (host : Host) (state : ServiceState) (now : Instant) (ready : Bool) (t : Turn)
    → card (restart_in host state now ready t).0.service ≡ card t.service
unfolding restart_in restart_running begin_stop start
restart_in-card host ServiceState.starting now ready t = refl
restart_in-card host ServiceState.running now ready t = refl
restart_in-card host ServiceState.unhealthy now ready t = refl
restart_in-card host ServiceState.stopping now ready t = refl
restart_in-card host _ now ready t = start_in-card host _ now ready t

stop_in-card :
    (state : ServiceState) (now : Instant) (t : Turn)
    → card (stop_in state now t).0.service ≡ card t.service
unfolding stop_in begin_stop
stop_in-card ServiceState.starting now t = refl
stop_in-card ServiceState.running now t = refl
stop_in-card ServiceState.unhealthy now t = refl
stop_in-card _ now t = refl

pub stop-card : (now : Instant) (t : Turn) → card (stop now t).0.service ≡ card t.service
unfolding stop
stop-card now t = stop_in-card t.service.state now t

heartbeat-card : (now : Instant) (t : Turn) → card (heartbeat now t).0.service ≡ card t.service
unfolding heartbeat
heartbeat-card now t = ground arith

pub command-card :
    (host : Host) (c : Call) (t : Turn)
    → is_command c ≡ true
    → card (apply host c t).service ≡ card t.service
unfolding apply start restart
command-card host (Call.starts now ready) t h = start_in-card host t.service.state now ready t
command-card host (Call.restarts now ready) t h = restart_in-card host t.service.state now ready t
command-card host (Call.stops now) t h = stop-card now t
command-card host (Call.heartbeats now) t h = heartbeat-card now t
command-card host _ t h = absurd (ground arith)
