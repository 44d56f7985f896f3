-- ===== src/Daemon.antt =====
-- manager/src/Daemon.cpp: the loop that takes stop and reload requests, commands, ticks and reports. What
-- the clocks read, what clients send and what the monitors and the file hold are arguments.
pub mod Turns
pub mod Histories
pub mod Rounds
pub mod Ending
pub mod Reloads
pub mod Plan
pub mod Planned
pub mod Stopped
pub mod Conformance
pub mod Refinement
use improved_process_manager.Base.{
  ℕ, zero, suc, ◌+◌, ◌-◌, ◌/◌, ◌%◌, ◌^◌, min, bit_or, Bool, true, false, not, ◌&&◌, ◌||◌, List, [],
  ◌∷◌, ◌++◌, Option, none, some, ltb, leb, ◌==◌, if◌then◌else◌, ℤ, Text, text, to_string,
}
use improved_process_manager.Command.{
  CommandCode, CommandResult, CommandMessage, CommandReply, command_byte, command_code_from_byte,
}
use improved_process_manager.Config.{ServiceConfig}
use improved_process_manager.Launcher.{Host, kill_grace}
use improved_process_manager.Manager.{ServiceManager, new_manager, load}
use improved_process_manager.Manager.Commands.{execute}
use improved_process_manager.Manager.Lookup.{statuses, all_stopped}
use improved_process_manager.Manager.Reload.{ReloadSummary, reload}
use improved_process_manager.Manager.Sampling.{GpuSnapshot, sample_manager}
use improved_process_manager.Manager.Ticking.{
  tick_manager, stop_all, kill_all, take_removed, start_autostart,
}
use improved_process_manager.Parser.{Paths, Parsed, failed, parsed, ConfigError}
use improved_process_manager.Parser.Files.{parse_file}
use improved_process_manager.Parser.Lexing.{is_empty}
use improved_process_manager.Parser.Settings.{Config, LogLevel}
use improved_process_manager.Reports.{
  Rounding, ReportBuilder, SystemSnapshot, build_health, build_report, health_message,
  report_message,
}
use improved_process_manager.Server.{
  Frame, CommandRequest, RequestCode, Received, receive, new_request, reply_frames,
}
use improved_process_manager.Service.{Instant, ms}

abbrev pub max_poll_wait : ℕ
max_poll_wait = 50

abbrev pub shutdown_margin : ℕ
shutdown_margin = 2000

abbrev pub max_shutdown : ℕ
max_shutdown = 600000

abbrev pub max_commands_per_round : ℕ
max_commands_per_round = 100

unfoldable pub stop_timeouts : List ServiceConfig → ℕ
stop_timeouts [] = 0
stop_timeouts (s ∷ ss) = s.stop_timeout + stop_timeouts ss

-- Milliseconds.
unfoldable pub shutdown_budget : List ServiceConfig → ℕ
shutdown_budget services =
    min (stop_timeouts services + (kill_grace + shutdown_margin)) max_shutdown

-- What leaves the daemon: a poll for so many milliseconds, messages, task groups to remove, and notes to
-- systemd.
pub data Sent : Type 0 where
  polled : ℕ → Sent
  replied : List Frame → Sent
  published : List Frame → List Frame → Sent
  removed_groups : List Text → Sent
  notified : Text → Sent

pub record Daemon : Type 0 where
  pub config : Config
  pub builder : ReportBuilder
  pub manager : ServiceManager
  pub inbox : List (List Frame)
  pub stop_requested : Bool
  pub reload_requested : Bool
  pub log_level_override : Option LogLevel
  pub log_level : LogLevel
  pub stopping : Bool
  pub shutdown_deadline : ℕ
  pub next_publish : ℕ
  -- How often the file was read and the monitors were asked.
  pub reads : ℕ
  pub samples : ℕ
  pub sent : List Sent

-- What the daemon meets: each read of the file and each sample of the monitors has its own answer.
pub record World : Type 0 where
  pub host : Host
  pub paths : Paths
  pub pattern : Rounding
  pub file : ℕ → Option Text
  pub system : ℕ → SystemSnapshot
  pub gpu : ℕ → GpuSnapshot
  pub gpu_available : Bool
  pub has_cgroups : Bool
  pub is_windows : Bool

abbrev pub send : Sent → Daemon → Daemon
send s d = record d { sent = d.sent ++ s ∷ [] }

abbrev pub request_stop : Daemon → Daemon
request_stop d = record d { stop_requested = true }

abbrev pub request_reload : Daemon → Daemon
request_reload d = record d { reload_requested = true }

unfoldable pub override_log_level : LogLevel → Daemon → Daemon
override_log_level level d = record d { log_level_override = some level; log_level = level }

-- Nothing without cgroups; the attempts on each group are calls of the system.
unfoldable pub remove_task_groups : Bool → List Text → Daemon → Daemon
remove_task_groups has_cgroups names d =
    if not has_cgroups then d else send (Sent.removed_groups names) d

unfoldable pub begin_shutdown : Instant → Daemon → Daemon
begin_shutdown now d =
    let stopped = send (Sent.notified (text "STOPPING=1")) (record d {
      stopping = true;
      shutdown_deadline = now.steady + ms (shutdown_budget d.config.services);
    }) in
    record stopped { manager = stop_all now stopped.manager }

abbrev reload_reply : CommandResult → Text → CommandReply
reload_reply result message = record {
  command = command_byte CommandCode.reload;
  result = result;
  service_name = [];
  message = message;
}

unfoldable pub describe_error : ConfigError → Text
describe_error error =
    if ltb 0 error.line
    then text "line " ++ (to_string error.line ++ (text ": " ++ error.message))
    else error.message

unfoldable pub describe_summary : ReloadSummary → Text
describe_summary s =
    to_string s.added
    ++ (text " added, "
        ++ (to_string s.removed ++ (text " removed, " ++ (to_string s.changed ++ text " changed"))))

-- `value_or`.
unfoldable pub level_of : Option LogLevel → LogLevel → LogLevel
level_of none level = level
level_of (some override) level = override

module _ (world : World) where
  -- The part of `Reload` behind the parser.
  unfoldable pub reload_with : Instant → Parsed Config → Daemon → Daemon × CommandReply
  reload_with now (failed error) d =
      (d, reload_reply CommandResult.reload_failed (describe_error error))
  reload_with now (parsed fresh) d =
      let settings = record d.config.manager {
        publish_interval = fresh.manager.publish_interval;
        log_level = fresh.manager.log_level;
      } in
      let applied = reload world.host fresh.services now d.manager in
      let noted = send (Sent.notified (text "RELOADING=1")) d in
      (
        send (Sent.notified (text "READY=1")) (record noted {
          config = record d.config { manager = settings; services = fresh.services };
          log_level = level_of d.log_level_override fresh.manager.log_level;
          manager = applied.0;
        }),
        reload_reply CommandResult.ok (describe_summary applied.1),
      )

  unfoldable pub reload_daemon : Instant → Daemon → Daemon × CommandReply
  reload_daemon now d =
      if is_empty d.config.path
      then (
        d,
        reload_reply CommandResult.reload_failed
            (text "the manager was started without a configuration file"),
      )
      else if d.stopping
      then (d, reload_reply CommandResult.shutting_down (text "the manager is shutting down"))
      else reload_with now (parse_file world.paths d.config.path (world.file d.reads))
          (record d { reads = d.reads + 1 })

  -- A command that is not `reload`, if it is a command at all.
  unfoldable pub execute_command :
      Option CommandCode → CommandMessage → Instant → Daemon → Daemon × CommandReply
  execute_command (some CommandCode.reload) message now d =
      let (reloaded, reply) = reload_daemon now d in
      (reloaded, record reply { command = message.command; service_name = message.service_name })
  execute_command code message now d =
      let (m, reply) = execute world.host message now d.manager in (record d { manager = m }, reply)

  abbrev answer : CommandRequest → Daemon × CommandReply → Daemon
  answer request (d, reply) = send (Sent.replied (reply_frames request reply)) d

  -- What is done with one message; nothing where there was none.
  unfoldable pub serve : Received → Instant → Daemon → Option Daemon
  serve r now d = elim r.code [
    | RequestCode.empty ↦ none
    | RequestCode.malformed ↦ some (
        answer r.request (
          d,
          record {
            command = 0;
            result = CommandResult.malformed;
            service_name = [];
            message = r.problem;
          },
        ))
    | RequestCode.ok ↦ some (
        answer r.request (
          execute_command (command_code_from_byte r.request.command.command) r.request.command now
            d))
  ]

  abbrev receive_next : List Frame → Received
  receive_next message = receive (some message) (new_request []) []

  -- `HandleCommands`, for so many rounds.
  unfoldable pub handle_commands : ℕ → Instant → Daemon → List (List Frame) → Daemon
  handle_commands zero now d inbox = record d { inbox = inbox }
  handle_commands (suc left) now d [] = record d { inbox = [] }
  handle_commands (suc left) now d (message ∷ inbox) =
      let served = serve (receive_next message) now d in
      elim served [
        | none ↦ record d { inbox = inbox }
        | some next ↦ handle_commands left now next inbox
      ]

  unfoldable pub report_flags : Bool → ℕ
  report_flags stopping =
      let f1 = bit_or 0 (if world.has_cgroups then 0x1 else 0) in
      let f2 = bit_or f1 (if world.gpu_available then 0x2 else 0) in
      let f3 = bit_or f2 (if stopping then 0x4 else 0) in
      bit_or f3 (if world.is_windows then 0x8 else 0)

  unfoldable pub publish : Instant → Daemon → Daemon
  publish now d =
      let gpu = world.gpu d.samples in
      let m = sample_manager world.host now gpu d.manager in
      let shown = statuses m.services in
      let report =
        build_report world.pattern d.builder shown (world.system d.samples) gpu now.wall_ns
          (d.config.manager.publish_interval % 2 ^ 32) (report_flags d.stopping) in
      send
        (Sent.published (health_message (build_health shown now.wall_ns)) (report_message report))
        (record d { manager = m; samples = d.samples + 1 })
