-- ===== src/Examples/Configs.antt =====
-- Examples of the parser of manager/src/ConfigParser.cpp.
use improved_process_manager.Base.{
  ◌≡◌, refl, List, [], ◌∷◌, ◌++◌, false, Bool, none, some, Text, text, arith,
}
use improved_process_manager.Config.{ServiceConfig}
use improved_process_manager.Parser.{Paths, parsed}
use improved_process_manager.Parser.Acyclic.{GroundedFrom, find_cycle-Grounded}
use improved_process_manager.Parser.Arguments.{quoted_all, split_arguments-quoted_all}
use improved_process_manager.Parser.Marks.{Post}
use improved_process_manager.Parser.Numbers.{read_number-to_string}
use improved_process_manager.Parser.Settings.{Config, default_settings, default_service}
use improved_process_manager.Parser.Validated.{IsConfig, parse_text-IsConfig, checked-AllKnown}
use improved_process_manager.Parser.Lexing.{
  is_blank, drop_front, is_empty, drop_back, trim, cut, cut_at_comment, leading_blanks, closing,
  strip_plain, strip_shell, strip_inline_comment, unescape, is_enclosed, unquote,
}
use improved_process_manager.Parser.Values.{
  read_digits, read_natural, int64_of, parse_integer, parse_bool, in_range, parse_percent,
  push_item, split_items, split_list, lower_case, leading_digits, power_of, scale, sized,
  parse_byte_size, split_byte, split_bytes, split_end, split_arguments,
}
use improved_process_manager.Parser.Keys.{
  require, read_number, read_cgroups, read_gpu, set_endpoint, apply_manager_key, apply_output,
  apply_duration,
}
use improved_process_manager.Parser.ServiceKeys.{
  find_equals, read_variable, read_action, read_limit, apply_text_key, apply_number_key,
  apply_choice_key, apply_service_key,
}
use improved_process_manager.Parser.Sections.{
  is_none, is_nil, open_manager, open_defaults, open_service, open_section, parse_header, put_entry,
  apply_current, apply_key, parse_pair, parse_pair_at, parse_line, parse_lines,
}
use improved_process_manager.Parser.Files.{
  check_needs, check_service, check_services, judge_cycle, check_endpoints, validate, split_lines,
  drop_bom, parse_state, parse_text, parse_file,
}
use improved_process_manager.Parser.Cycles.{
  position, from_name, describe_cycle, visit_one, visit_each, name_of, needs_of, visit, visit_from,
  find_cycle,
}
use improved_process_manager.Parser.Settings.{parse_log_level}
use improved_process_manager.Base.{same_text, contains, to_string, ◌==◌}
use improved_process_manager.Config.{
  find_service, is_name_character, name_characters, is_valid_service_name,
}
use improved_process_manager.Parser.Cycles.{cycle}

-- Paths that begin with `/`.
abbrev pub unix_paths : Paths
unix_paths = record {
  is_absolute = λ t. begins_with_slash t;
  has_root_directory = λ t. begins_with_slash t;
}
  where
    begins_with_slash : Text → Bool
    begins_with_slash [] = false
    begins_with_slash (c ∷ cs) = b'/' == c

abbrev lines : List Text → Text
lines [] = []
lines (t ∷ ts) = t ++ 10 ∷ lines ts

abbrev pub sample_text : Text
sample_text = lines (
    text "[manager]  # the manager"
    ∷ text "publish_interval_ms = 250"
    ∷ text "[defaults]"
    ∷ text "restart_delay_ms = 2000"
    ∷ text "[service camera]"
    ∷ text "binary = '/opt/camera' ; here"
    ∷ text "memory_max = 512M"
    ∷ text "args = -x 'a b'"
    ∷ text "[service viewer]"
    ∷ text "binary = /opt/viewer"
    ∷ text "depends_on = camera"
    ∷ [])

abbrev pub camera : ServiceConfig
camera = record default_service {
  name = text "camera";
  binary = text "/opt/camera";
  restart_delay = 2000;
  memory_max = 536_870_912;
  arguments = text "-x" ∷ text "a b" ∷ [];
}

abbrev pub viewer : ServiceConfig
viewer = record default_service {
  name = text "viewer";
  binary = text "/opt/viewer";
  restart_delay = 2000;
  depends_on = text "camera" ∷ [];
}

abbrev pub sample_config : Config
sample_config = record {
  path = [];
  manager = record default_settings { publish_interval = 250 };
  services = camera ∷ viewer ∷ [];
}

sample_parsed : parse_text unix_paths sample_text ≡ parsed sample_config
unfolding is_blank drop_front is_empty drop_back trim cut cut_at_comment leading_blanks closing
    strip_plain strip_shell strip_inline_comment unescape is_enclosed unquote read_digits
    read_natural int64_of parse_integer parse_bool in_range parse_percent push_item split_items
    split_list lower_case leading_digits power_of scale sized parse_byte_size split_byte split_bytes
    split_end split_arguments require read_number read_cgroups read_gpu set_endpoint
    apply_manager_key apply_output apply_duration find_equals read_variable read_action read_limit
    apply_text_key apply_number_key apply_choice_key apply_service_key is_none is_nil open_manager
    open_defaults open_service open_section parse_header put_entry apply_current apply_key
    parse_pair parse_pair_at parse_line parse_lines check_needs check_service check_services
    judge_cycle check_endpoints validate split_lines drop_bom parse_state parse_text parse_file
    position from_name describe_cycle visit_one visit_each name_of needs_of visit visit_from
    find_cycle parse_log_level same_text contains find_service is_name_character name_characters
    is_valid_service_name
sample_parsed = refl

pub sample_config-IsConfig : IsConfig sample_config
sample_config-IsConfig = parse_text-IsConfig unix_paths sample_text sample_config sample_parsed

parse_text_example : IsConfig sample_config
parse_text_example = parse_text-IsConfig unix_paths sample_text sample_config sample_parsed

find_cycle_example :
    Post (λ marks. GroundedFrom (camera ∷ viewer ∷ []) 2 0) (find_cycle (camera ∷ viewer ∷ []))
find_cycle_example =
    find_cycle-Grounded (camera ∷ viewer ∷ [])
      (checked-AllKnown (camera ∷ viewer ∷ []) sample_config-IsConfig.checked)

read_number_example : read_number (text "max_restarts") (to_string 730) 4 0 1_000_000 ≡ parsed 730
read_number_example =
    read_number-to_string (text "max_restarts") 730 4 0 1_000_000 (ground arith) (ground arith)
      (ground arith)

split_arguments_example :
    split_arguments (quoted_all (text "-x" ∷ text "say 'hi'" ∷ [] ∷ []))
    ≡ some (text "-x" ∷ text "say 'hi'" ∷ [] ∷ [])
split_arguments_example = split_arguments-quoted_all (text "-x" ∷ text "say 'hi'" ∷ [] ∷ [])

-- A service that needs itself through another one is refused.
circle_refused :
    find_cycle (record camera { depends_on = text "viewer" ∷ [] } ∷ viewer ∷ [])
    ≡ cycle (text "camera -> viewer -> camera")
unfolding find_cycle visit_from visit visit_each visit_one position same_text name_of needs_of
    describe_cycle from_name
circle_refused = refl

-- 2^34 tebibytes do not fit.
too_large : parse_byte_size (text "17179869184T") ≡ none
unfolding parse_byte_size trim drop_front drop_back is_blank is_empty leading_digits sized
    parse_integer read_natural read_digits int64_of power_of lower_case same_text scale
too_large = refl
