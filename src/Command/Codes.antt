-- ===== src/Command/Codes.antt =====
-- Command and result bytes of manager/src/CommandMessage.cpp.
use improved_process_manager.Base.{ℕ, ◌≡◌, ◌↔◌, refl, some, arith}
use improved_process_manager.Command.{
  CommandCode, CommandResult, command_byte, result_byte, command_code_from_byte,
  command_result_from_byte,
}

-- A byte is read as a command exactly when it is that command's value.
pub command_code_from_byte_iff :
    (value : ℕ) (code : CommandCode)
    → (command_code_from_byte value ≡ some code) ↔ (value ≡ command_byte code)
unfolding command_code_from_byte
command_code_from_byte_iff value CommandCode.start = (ground arith, ground arith)
command_code_from_byte_iff value _ = (ground arith, ground arith)

-- Every result is read back from its byte.
pub command_result_from_byte-result_byte :
    (result : CommandResult) → command_result_from_byte (result_byte result) ≡ result
unfolding command_result_from_byte
command_result_from_byte-result_byte CommandResult.ok = refl
command_result_from_byte-result_byte _ = refl
