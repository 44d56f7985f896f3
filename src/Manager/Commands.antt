-- ===== src/Manager/Commands.antt =====
-- `Execute` and `ExecuteOne`, in manager/src/ServiceManager.cpp.
use improved_process_manager.Base.{
  ℕ, ◌+◌, Bool, true, false, not, ◌&&◌, List, [], ◌++◌, Option, none, some, ltb, if◌then◌else◌,
  length, get_elem?, Text, text, same_text, contains, to_string,
}
use improved_process_manager.Command.{
  CommandCode, CommandResult, CommandMessage, CommandReply, all_services, command_name,
  command_code_from_byte, is_success,
}
use improved_process_manager.Launcher.{Host}
use improved_process_manager.Manager.Dependencies.{start_with_dependencies, no_answer}
use improved_process_manager.Manager.Lookup.{find_index}
use improved_process_manager.Manager.{ServiceManager, ask_service, for_each}
use improved_process_manager.Service.Methods.{stop, heartbeat}
use improved_process_manager.Service.{Instant, Service, Answer}

-- What the loop over all services counts.
pub record Tally : Type 0 where
  pub manager : ServiceManager
  pub acted : ℕ
  pub failed : ℕ
  pub started : List Text

abbrev pub reply_to : CommandMessage → CommandResult → Text → CommandReply
reply_to m result answer = record {
  command = m.command;
  result = result;
  service_name = m.service_name;
  message = answer;
}

unfoldable pub is_ok : CommandResult → Bool
is_ok CommandResult.ok = true
is_ok _ = false

abbrev pub is_heartbeat : CommandCode → Bool
is_heartbeat CommandCode.heartbeat = true
is_heartbeat _ = false

abbrev pub is_reload : CommandCode → Bool
is_reload CommandCode.reload = true
is_reload _ = false

-- The reply to a command for all services.
unfoldable pub tally_message : CommandCode → ℕ → ℕ → Text
tally_message code acted failed =
    command_name code
    ++ (text " sent to "
        ++ (to_string acted
            ++ (text " services"
                ++ (if ltb 0 failed
                    then text ", " ++ (to_string failed ++ text " failed")
                    else []))))

unfoldable pub tally_reply : CommandCode → CommandMessage → Tally → CommandReply
tally_reply code message t =
    reply_to message (if ltb 0 t.failed then CommandResult.launch_failed else CommandResult.ok)
      (tally_message code t.acted t.failed)

unfoldable pub count_answer : (ServiceManager × Answer) × List Text → Tally → Tally
count_answer done t = record {
  manager = done.0.0;
  acted = t.acted + (if is_ok done.0.1.result then 1 else 0);
  failed = t.failed + (if is_success done.0.1.result then 0 else 1);
  started = done.1;
}

module _ (host : Host) where
  -- `ExecuteOne` for the service at an index, with the names that were started.
  unfoldable pub execute_one :
      CommandCode
      → ℕ
      → Service
      → Instant
      → List Text
      → ServiceManager
      → (ServiceManager × Answer) × List Text
  execute_one CommandCode.start i s now started m =
      start_with_dependencies host i s now false started m
  execute_one CommandCode.restart i s now started m =
      start_with_dependencies host i s now true started m
  execute_one CommandCode.stop i s now started m = (ask_service i (stop now) m no_answer, started)
  execute_one CommandCode.heartbeat i s now started m =
      (ask_service i (heartbeat now) m no_answer, started)
  execute_one CommandCode.reload i s now started m = (
    (m, record { result = CommandResult.unknown_command; message = text "unknown command" }),
    started,
  )

  unfoldable pub tally_service : CommandCode → Instant → ℕ → Option Service → Tally → Tally
  tally_service code now i none t = t
  tally_service code now i (some s) t =
      if s.removing
      then t
      else if contains t.started s.config.name
      then record t { acted = t.acted + 1 }
      else count_answer (execute_one code i s now t.started t.manager) t

  unfoldable pub tally_one : CommandCode → Instant → ℕ → Tally → Tally
  tally_one code now i t = tally_service code now i (get_elem? t.manager.services i) t

  unfoldable pub tally_all : CommandCode → Instant → ServiceManager → Tally
  tally_all code now m =
      for_each (length m.services) 0 (tally_one code now)
        (record { manager = m; acted = 0; failed = 0; started = [] })

  unfoldable pub execute_all :
      CommandCode → CommandMessage → Instant → ServiceManager → ServiceManager × CommandReply
  execute_all code message now m =
      if is_heartbeat code
      then (m, reply_to message CommandResult.malformed (text "a heartbeat names one service"))
      else (let t = tally_all code now m in (t.manager, tally_reply code message t))

  abbrev pub no_service_named : CommandMessage → CommandReply
  no_service_named message =
      reply_to message CommandResult.unknown_service
        (text "no service named " ++ message.service_name)

  unfoldable pub execute_found :
      CommandCode
      → CommandMessage
      → Instant
      → ℕ
      → Option Service
      → ServiceManager
      → ServiceManager × CommandReply
  execute_found code message now i none m = (m, no_service_named message)
  execute_found code message now i (some s) m =
      if s.removing
      then (m, no_service_named message)
      else (let done = execute_one code i s now [] m in
          (done.0.0, reply_to message done.0.1.result done.0.1.message))

  unfoldable pub execute_single :
      CommandCode
      → CommandMessage
      → Instant
      → Option ℕ
      → ServiceManager
      → ServiceManager × CommandReply
  execute_single code message now none m = (m, no_service_named message)
  execute_single code message now (some i) m =
      execute_found code message now i (get_elem? m.services i) m

  unfoldable pub execute_known :
      CommandCode → CommandMessage → Instant → ServiceManager → ServiceManager × CommandReply
  execute_known code message now m =
      if m.shutting_down && not (is_heartbeat code)
      then (m, reply_to message CommandResult.shutting_down (text "the manager is shutting down"))
      else if same_text message.service_name all_services
      then execute_all code message now m
      else execute_single code message now (find_index m.services message.service_name) m

  abbrev pub unknown_command : CommandMessage → CommandReply
  unknown_command message =
      reply_to message CommandResult.unknown_command
        (text "unknown command " ++ to_string message.command)

  unfoldable pub execute_code :
      Option CommandCode → CommandMessage → Instant → ServiceManager → ServiceManager × CommandReply
  execute_code none message now m = (m, unknown_command message)
  execute_code (some code) message now m =
      if is_reload code then (m, unknown_command message) else execute_known code message now m

  unfoldable pub execute : CommandMessage → Instant → ServiceManager → ServiceManager × CommandReply
  execute message now m = execute_code (command_code_from_byte message.command) message now m
