-- ===== src/Examples/Invocations.antt =====
-- The theorems on manager/src/CommandLine.cpp, applied to concrete arguments, and runs that end in errors.
use improved_process_manager.Base.{◌≡◌, refl, List, [], ◌∷◌, true, none, Text, text, same_text}
use improved_process_manager.Config.{is_name_character, name_characters, is_valid_service_name}
use improved_process_manager.Invocation.{
  Mode, Options, ParseCode, refused, accepted, set_mode, set_service_mode, split_at_equals,
  split_flag, wants_value, set_heartbeat, set_timeout, apply_flag, parse_arguments, default_options,
  parse_command_line, last_colon, connect_endpoint,
}
use improved_process_manager.Invocation.Endpoints.{
  tcp_endpoint, reached, connect_endpoint-tcp_endpoint,
}
use improved_process_manager.Invocation.Modes.{IsOptions, parse_command_line-IsOptions}
use improved_process_manager.Parser.ServiceKeys.{find_equals}
use improved_process_manager.Parser.Values.{
  read_digits, read_natural, int64_of, parse_integer, in_range,
}

abbrev default_path : Text
default_path = text "/etc/berayprocessmanager/services.conf"

abbrev heartbeat_arguments : List Text
heartbeat_arguments =
    text "--heartbeat" ∷ text "camera" ∷ text "--timeout=250" ∷ text "-c" ∷ text "a=b" ∷ []

abbrev heartbeat_options : Options
heartbeat_options = record (default_options default_path) {
  mode = Mode.heartbeat;
  service_name = text "camera";
  config_path = text "a=b";
  config_given = true;
  timeout = 250;
  timeout_given = true;
}

heartbeat_accepted :
    parse_command_line default_path heartbeat_arguments ≡ accepted heartbeat_options
unfolding parse_command_line parse_arguments apply_flag set_mode set_service_mode split_at_equals
    split_flag wants_value set_heartbeat set_timeout find_equals same_text read_digits read_natural
    int64_of parse_integer in_range is_name_character name_characters is_valid_service_name
heartbeat_accepted = refl

parse_command_line_example : IsOptions heartbeat_options
parse_command_line_example =
    parse_command_line-IsOptions default_path heartbeat_arguments heartbeat_options
      heartbeat_accepted

-- Two modes are refused, and so is a flag without its value.
two_modes :
    parse_command_line default_path (text "--stop" ∷ text "*" ∷ text "-w" ∷ [])
    ≡ refused ParseCode.conflicting_modes (text "-w cannot be combined with another mode")
unfolding parse_command_line parse_arguments apply_flag set_mode set_service_mode split_at_equals
    split_flag wants_value find_equals same_text
two_modes = refl

no_value :
    parse_command_line default_path (text "--wide" ∷ text "--start" ∷ [])
    ≡ refused ParseCode.missing_value (text "--start needs a value")
unfolding parse_command_line parse_arguments apply_flag split_at_equals split_flag wants_value
    find_equals same_text
no_value = refl

no_colon : last_colon (text "5557") ≡ none
unfolding last_colon
no_colon = refl

connect_endpoint_example :
    connect_endpoint (tcp_endpoint (text "[::]") (text "5557"))
    ≡ tcp_endpoint (reached (text "[::]")) (text "5557")
connect_endpoint_example = connect_endpoint-tcp_endpoint (text "[::]") (text "5557") no_colon

loopback : tcp_endpoint (reached (text "[::]")) (text "5557") ≡ text "tcp://[::1]:5557"
unfolding tcp_endpoint reached same_text
loopback = refl
