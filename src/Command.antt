-- ===== src/Command.antt =====
-- manager/include/CommandMessage.hpp and manager/src/CommandMessage.cpp: commands and replies, their
-- codes and names, and the 65-byte and 128-byte structs that carry them.
pub mod Codec
pub mod Codes
use improved_process_manager.Base.{
  ℕ, Bool, true, false, ◌||◌, Option, none, some, ltb, ◌==◌, if◌then◌else◌, length, Bytes, Text,
  text,
}
use improved_process_manager.Wire.Writer.{new_writer, put_u8, put_text}
use improved_process_manager.Wire.Reader.{WireReader, u8, read_text}

pub data DecodeCode : Type 0 where
  ok bad_length bad_magic unsupported_version bad_layout : DecodeCode

pub data CommandCode : Type 0 where
  start stop restart heartbeat reload : CommandCode

pub data CommandResult : Type 0 where
  ok unknown_service unknown_command malformed already_in_state : CommandResult
  invalid_state launch_failed shutting_down reload_failed : CommandResult

pub record CommandMessage : Type 0 where
  pub command : ℕ
  pub service_name : Text
  pub args : Text

pub record CommandReply : Type 0 where
  pub command : ℕ
  pub result : CommandResult
  pub service_name : Text
  pub message : Text

abbrev pub command_message_size : ℕ
command_message_size = 65

abbrev pub command_reply_size : ℕ
command_reply_size = 128

abbrev pub command_name_size : ℕ
command_name_size = 32

abbrev pub command_args_size : ℕ
command_args_size = 32

abbrev pub reply_message_size : ℕ
reply_message_size = 94

abbrev pub all_services : Text
all_services = text "*"

-- The values of the enums.
abbrev pub command_byte : CommandCode → ℕ
command_byte CommandCode.start = 78
command_byte CommandCode.stop = 79
command_byte CommandCode.restart = 81
command_byte CommandCode.heartbeat = 90
command_byte CommandCode.reload = 91

abbrev pub result_byte : CommandResult → ℕ
result_byte CommandResult.ok = 0
result_byte CommandResult.unknown_service = 1
result_byte CommandResult.unknown_command = 2
result_byte CommandResult.malformed = 3
result_byte CommandResult.already_in_state = 4
result_byte CommandResult.invalid_state = 5
result_byte CommandResult.launch_failed = 6
result_byte CommandResult.shutting_down = 7
result_byte CommandResult.reload_failed = 8

-- `static_cast<CommandResult>` of a value inside the enum.
result_cast : ℕ → CommandResult
result_cast value =
    if value == 0
    then CommandResult.ok
    else if value == 1
    then CommandResult.unknown_service
    else if value == 2
    then CommandResult.unknown_command
    else if value == 3
    then CommandResult.malformed
    else if value == 4
    then CommandResult.already_in_state
    else if value == 5
    then CommandResult.invalid_state
    else if value == 6
    then CommandResult.launch_failed
    else if value == 7
    then CommandResult.shutting_down
    else CommandResult.reload_failed

unfoldable pub command_result_from_byte : ℕ → CommandResult
unfolding result_cast
command_result_from_byte value =
    if ltb (result_byte CommandResult.reload_failed) value
    then CommandResult.malformed
    else result_cast value

unfoldable pub encode_command : CommandMessage → Bytes
unfolding new_writer put_u8 put_text
encode_command m =
    let writer = new_writer command_message_size in
    let coded = put_u8 0 m.command writer in
    let named = put_text 1 command_name_size m.service_name coded in
    put_text 33 command_args_size m.args named

abbrev pub command_reader : Bytes → WireReader
command_reader payload = record { bytes = payload; base = 0; part = command_message_size }

abbrev pub reply_reader : Bytes → WireReader
reply_reader payload = record { bytes = payload; base = 0; part = command_reply_size }

-- `out` is left alone on failure.
unfoldable pub decode_command : Bytes → CommandMessage → DecodeCode × CommandMessage
decode_command payload out =
    let reader = command_reader payload in
    if length payload == command_message_size
    then (
      DecodeCode.ok,
      record {
        command = u8 reader 0;
        service_name = read_text reader 1 command_name_size;
        args = read_text reader 33 command_args_size;
      },
    )
    else (DecodeCode.bad_length, out)

unfoldable pub encode_reply : CommandReply → Bytes
unfolding new_writer put_u8 put_text
encode_reply r =
    let writer = new_writer command_reply_size in
    let coded = put_u8 0 r.command writer in
    let judged = put_u8 1 (result_byte r.result) coded in
    let named = put_text 2 command_name_size r.service_name judged in
    put_text 34 reply_message_size r.message named

unfoldable pub decode_reply : Bytes → CommandReply → DecodeCode × CommandReply
decode_reply payload out =
    let reader = reply_reader payload in
    if length payload == command_reply_size
    then (
      DecodeCode.ok,
      record {
        command = u8 reader 0;
        result = command_result_from_byte (u8 reader 1);
        service_name = read_text reader 2 command_name_size;
        message = read_text reader 34 reply_message_size;
      },
    )
    else (DecodeCode.bad_length, out)

unfoldable pub command_code_from_byte : ℕ → Option CommandCode
command_code_from_byte value =
    if value == command_byte CommandCode.start
    then some CommandCode.start
    else if value == command_byte CommandCode.stop
    then some CommandCode.stop
    else if value == command_byte CommandCode.restart
    then some CommandCode.restart
    else if value == command_byte CommandCode.heartbeat
    then some CommandCode.heartbeat
    else if value == command_byte CommandCode.reload
    then some CommandCode.reload
    else none

unfoldable pub command_name : CommandCode → Text
command_name CommandCode.start = text "start"
command_name CommandCode.stop = text "stop"
command_name CommandCode.restart = text "restart"
command_name CommandCode.heartbeat = text "heartbeat"
command_name CommandCode.reload = text "reload"

unfoldable pub command_result_name : CommandResult → Text
command_result_name CommandResult.ok = text "ok"
command_result_name CommandResult.unknown_service = text "unknown service"
command_result_name CommandResult.unknown_command = text "unknown command"
command_result_name CommandResult.malformed = text "malformed request"
command_result_name CommandResult.already_in_state = text "nothing to do"
command_result_name CommandResult.invalid_state = text "not possible now"
command_result_name CommandResult.launch_failed = text "launch failed"
command_result_name CommandResult.shutting_down = text "manager is shutting down"
command_result_name CommandResult.reload_failed = text "reload failed"

unfoldable pub is_success : CommandResult → Bool
is_success CommandResult.ok = true
is_success CommandResult.already_in_state = true
is_success _ = false
