-- ===== src/Manager/Replies.antt =====
-- The replies of `Execute`, manager/src/ServiceManager.cpp.
use improved_process_manager.Base.{ℕ, ◌≡◌, refl, arith, Option, none, some}
use improved_process_manager.Command.{CommandCode, CommandMessage, CommandReply}
use improved_process_manager.Launcher.{Host}
use improved_process_manager.Manager.Commands.{
  tally_reply, execute_all, execute_found, execute_single, execute_known, execute_code, execute,
}
use improved_process_manager.Manager.Lookup.{find_index}
use improved_process_manager.Manager.{ServiceManager}
use improved_process_manager.Service.{Instant, Service}

abbrev Repeats : CommandMessage → CommandReply → Type 0
Repeats message reply =
    (reply.command ≡ message.command) × (reply.service_name ≡ message.service_name)

module _ (host : Host) (message : CommandMessage) (now : Instant) (m : ServiceManager) where
  execute_all-Repeats :
      (code : CommandCode) → Repeats message (execute_all host code message now m).1
  unfolding execute_all tally_reply
  execute_all-Repeats code = ground arith

  execute_found-Repeats :
      (code : CommandCode) (i : ℕ) (found : Option Service)
      → Repeats message (execute_found host code message now i found m).1
  unfolding execute_found
  execute_found-Repeats code i none = (refl, refl)
  execute_found-Repeats code i (some s) = ground arith

  execute_single-Repeats :
      (code : CommandCode) (found : Option ℕ)
      → Repeats message (execute_single host code message now found m).1
  unfolding execute_single
  execute_single-Repeats code none = (refl, refl)
  execute_single-Repeats code (some i) = execute_found-Repeats code i _

  execute_code-Repeats :
      (code : Option CommandCode) → Repeats message (execute_code host code message now m).1
  unfolding execute_code execute_known
  execute_code-Repeats none = (refl, refl)
  execute_code-Repeats (some code) = ground (
    arith,
    execute_all-Repeats code,
    execute_single-Repeats code (find_index m.services message.service_name),
  )

  -- Whatever a command asks and however it ends, the reply repeats the command's code and the name
  -- that it was sent for.
  pub execute-Repeats :
      ((execute host message now m).1.command ≡ message.command)
      × ((execute host message now m).1.service_name ≡ message.service_name)
  unfolding execute
  execute-Repeats = execute_code-Repeats _
