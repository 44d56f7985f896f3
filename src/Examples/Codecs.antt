-- ===== src/Examples/Codecs.antt =====
-- The theorems on what is sent and on the configuration, applied to concrete inputs.
use improved_process_manager.Base.{◌≢◌}
use improved_process_manager.Server.{RequestCode, receive, new_request}
use improved_process_manager.Server.Requests.{
  sent_frames, received, receive-encode_command, receive-identity,
}
use improved_process_manager.Base.{
  ◌≤◌, ◌≡◌, ◌↔◌, ◌⊎◌, refl, arith, true, false, [], ◌∷◌, some, text, length, take, get_or,
}
use improved_process_manager.Command.{
  CommandCode, CommandResult, DecodeCode, encode_command, decode_command, encode_reply,
  decode_reply, command_byte, command_code_from_byte,
}
use improved_process_manager.Command.Codec.{
  decode_command-encode_command, decode_reply-encode_reply,
}
use improved_process_manager.Command.Codes.{command_code_from_byte_iff}
use improved_process_manager.Config.{StopSignal, same_service_config}
use improved_process_manager.Config.Same.{same_service_config_iff}
use improved_process_manager.Health.{encode_health_records, decode_health_records}
use improved_process_manager.Health.Codec.{carried_record}
use improved_process_manager.Health.Report.{decode_health_records-encode_health_records}
use improved_process_manager.Wire.Texts.{carried}
use improved_process_manager.Wire.Utf8.{fit_utf8_lem, fit_utf8_longest}
use improved_process_manager.Wire.Writer.{fit_utf8, is_continuation}
use improved_process_manager.Base.{◌++◌}
use improved_process_manager.Config.{stop_signal_name, parse_stop_signal}
use improved_process_manager.Config.Names.{parse_stop_signal-stop_signal_name}
use improved_process_manager.Examples.Data.{
  a_config, start_all, euro, a_reply, a_record, a_record-IsRepresentable,
}

parse_stop_signal_example :
    (parse_stop_signal (stop_signal_name StopSignal.quit) ≡ some StopSignal.quit)
    × (parse_stop_signal (text "SIG" ++ stop_signal_name StopSignal.quit) ≡ some StopSignal.quit)
parse_stop_signal_example = parse_stop_signal-stop_signal_name StopSignal.quit

decode_health_records_example :
    decode_health_records (encode_health_records (a_record ∷ []))
    ≡ (DecodeCode.ok, carried_record a_record ∷ [])
decode_health_records_example =
    decode_health_records-encode_health_records (a_record ∷ []) (a_record-IsRepresentable, tt)

decode_command_example : decode_command (encode_command start_all) start_all ≡ (
  DecodeCode.ok,
  record { command = 78; service_name = carried 32 (text "*"); args = carried 32 [] },
)
decode_command_example = decode_command-encode_command start_all start_all (omega arith)

decode_reply_example : decode_reply (encode_reply a_reply) a_reply ≡ (
  DecodeCode.ok,
  record {
    command = 78;
    result = CommandResult.ok;
    service_name = carried 32 (text "a");
    message = carried 94 (text "started");
  },
)
decode_reply_example = decode_reply-encode_reply a_reply a_reply (omega arith)

fit_utf8_example :
    (fit_utf8 euro 5 ≡ take (length (fit_utf8 euro 5)) euro)
    × (length (fit_utf8 euro 5) ≤ 5)
    × ((length (fit_utf8 euro 5) ≡ 0)
        ⊎ (is_continuation (get_or euro (length (fit_utf8 euro 5)) 0) ≡ false))
fit_utf8_example = fit_utf8_lem euro 5 (omega arith)

fit_utf8_longest_example : 3 ≤ length (fit_utf8 euro 5)
unfolding is_continuation
fit_utf8_longest_example = fit_utf8_longest euro 5 3 (omega arith) (omega arith) refl

same_service_config_example : (same_service_config a_config a_config ≡ true) ↔ (a_config ≡ a_config)
same_service_config_example = same_service_config_iff a_config a_config

command_code_from_byte_example :
    (command_code_from_byte 79 ≡ some CommandCode.stop) ↔ (79 ≡ command_byte CommandCode.stop)
command_code_from_byte_example = command_code_from_byte_iff 79 CommandCode.stop

receive-encode_command_example :
    receive (some (text "PMC" ∷ sent_frames 1 true start_all)) (new_request []) []
    ≡ received (text "PMC") true start_all []
receive-encode_command_example =
    receive-encode_command (text "PMC") 1 true start_all (new_request []) [] (omega arith)

receive-identity_example :
    ((receive (some (text "PMC" ∷ [] ∷ [])) (new_request []) []).code ≢ RequestCode.empty)
    × ((receive (some (text "PMC" ∷ [] ∷ [])) (new_request []) []).request.identity ≡ text "PMC")
receive-identity_example = receive-identity (text "PMC") ([] ∷ []) (new_request []) []
