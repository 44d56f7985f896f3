-- ===== src/Parser/Sections.antt =====
-- Sections and lines, in manager/src/ConfigParser.cpp.
use improved_process_manager.Base.{
  ℕ, ◌+◌, ◌-◌, Bool, true, false, not, ◌&&◌, ◌||◌, List, [], ◌∷◌, ◌++◌, Option, none, some, ltb,
  ◌==◌, if◌then◌else◌, length, get_elem?, get_or, set, take, drop, Text, text, same_text, contains,
}
use improved_process_manager.Config.{ServiceConfig, find_service, is_valid_service_name}
use improved_process_manager.Parser.{ConfigCode, Parsed, failed, parsed, ◌>>=◌, fail, Paths}
use improved_process_manager.Parser.Keys.{apply_manager_key}
use improved_process_manager.Parser.ServiceKeys.{Entry, find_equals, apply_service_key}
use improved_process_manager.Parser.Lexing.{
  is_blank, is_empty, trim, is_comment, strip_inline_comment,
}
use improved_process_manager.Parser.Settings.{Config, default_settings, default_service}

pub data Section : Type 0 where
  nothing manager defaults service : Section

abbrev pub is_outside : Section → Bool
is_outside Section.nothing = true
is_outside _ = false

pub record ParseState : Type 0 where
  pub config : Config
  pub defaults : ServiceConfig
  pub section : Section
  pub current : ℕ
  pub seen_keys : List Text
  pub manager_seen : Bool
  pub defaults_seen : Bool
  pub service_lines : List ℕ
  pub dependency_lines : List ℕ

abbrev pub new_state : ParseState
new_state = record {
  config = record { path = []; manager = default_settings; services = [] };
  defaults = default_service;
  section = Section.nothing;
  current = 0;
  seen_keys = [];
  manager_seen = false;
  defaults_seen = false;
  service_lines = [];
  dependency_lines = [];
}

unfoldable pub is_none {ℓ} : {A : Type ℓ} → Option A → Bool
is_none none = true
is_none (some a) = false

unfoldable pub is_nil {ℓ} : {A : Type ℓ} → List A → Bool
is_nil [] = true
is_nil (a ∷ rest) = false

-- The branches of `OpenSection`, behind `state.seenKeys.clear()`.
unfoldable pub open_manager : ParseState → ℕ → Parsed ParseState
open_manager st line =
    if st.manager_seen
    then fail ConfigCode.duplicate_key line (text "[manager] appears twice")
    else parsed (record st { manager_seen = true; section = Section.manager })

unfoldable pub open_defaults : ParseState → ℕ → Parsed ParseState
open_defaults st line =
    if not (is_nil st.config.services)
    then fail ConfigCode.syntax line (text "[defaults] must come before the first [service]")
    else if st.defaults_seen
    then fail ConfigCode.duplicate_key line (text "[defaults] appears twice")
    else parsed (record st { defaults_seen = true; section = Section.defaults })

unfoldable pub open_service : ParseState → Text → ℕ → Parsed ParseState
open_service st name line =
    if not (is_valid_service_name name)
    then fail ConfigCode.invalid_name line
        (text "service name '" ++ (name ++ text "' must be 1 to 31 of A-Z a-z 0-9 _ . -"))
    else if not (is_none (find_service st.config.services name))
    then fail ConfigCode.duplicate_service line
        (text "service '" ++ (name ++ text "' is defined twice"))
    else parsed (record st {
      config = record st.config {
        services = st.config.services ++ (record st.defaults { name = name }) ∷ [];
      };
      service_lines = st.service_lines ++ line ∷ [];
      dependency_lines = st.dependency_lines ++ 0 ∷ [];
      current = length st.config.services;
      section = Section.service;
    })

unfoldable pub open_section : ParseState → Text → ℕ → Parsed ParseState
open_section old header line =
    let st = record old { seen_keys = [] } in
    if same_text header (text "manager")
    then open_manager st line
    else if same_text header (text "defaults")
    then open_defaults st line
    else if ltb 7 (length header)
        && same_text (take 7 header) (text "service")
        && is_blank (get_or header 7 0)
    then open_service st (trim (drop 7 header)) line
    else fail ConfigCode.unknown_section line (
        text "unknown section ["
        ++ (header ++ text "]; expected [manager], [defaults] or [service NAME]"))

unfoldable pub parse_header : ParseState → Text → ℕ → Parsed ParseState
parse_header st header line =
    if not (get_or header (length header - 1) 0 == b']')
    then fail ConfigCode.syntax line (text "section header must end with ]")
    else open_section st (trim (take (length header - 2) (drop 1 header))) line

-- `state.config.services[state.current]` with its dependency line.
unfoldable pub put_entry : ParseState → Parsed Entry → Parsed ParseState
put_entry st (failed error) = failed error
put_entry st (parsed e) = parsed (record st {
  config = record st.config { services = set st.config.services st.current e.service };
  dependency_lines = set st.dependency_lines st.current e.dependency_line;
})

unfoldable pub apply_current :
    Paths → ParseState → Option ServiceConfig → Text → Text → ℕ → Parsed ParseState
apply_current paths st none key value line = parsed st
apply_current paths st (some s) key value line = put_entry st (
    apply_service_key paths
      (record { service = s; dependency_line = get_or st.dependency_lines st.current 0 }) false key
      value line)

unfoldable pub apply_key : Paths → ParseState → Section → Text → Text → ℕ → Parsed ParseState
apply_key paths st Section.nothing key value line = parsed st
apply_key paths st Section.manager key value line = do
  settings ← apply_manager_key st.config.manager key value line
  parsed (record st { config = record st.config { manager = settings } })
apply_key paths st Section.defaults key value line = do
  e ←
      apply_service_key paths (record { service = st.defaults; dependency_line = 0 }) true key value
        line
  parsed (record st { defaults = e.service })
apply_key paths st Section.service key value line =
    apply_current paths st (get_elem? st.config.services st.current) key value line

-- A `key = value` line whose `=` is at a place.
unfoldable pub parse_pair : Paths → ParseState → Text → ℕ → ℕ → Parsed ParseState
parse_pair paths st t equals line =
    let key = trim (take equals t) in
    let is_env = same_text key (text "env") in
    let value =
      trim (strip_inline_comment (drop (equals + 1) t) (same_text key (text "args") || is_env)) in
    if is_empty key
    then fail ConfigCode.syntax line (text "missing key before =")
    else if is_outside st.section
    then fail ConfigCode.syntax line (text "key '" ++ (key ++ text "' is outside any section"))
    else if not is_env && contains st.seen_keys key
    then fail ConfigCode.duplicate_key line
        (text "key '" ++ (key ++ text "' appears twice in this section"))
    else apply_key paths
        (record st { seen_keys = if is_env then st.seen_keys else st.seen_keys ++ key ∷ [] })
        st.section key value line

unfoldable pub parse_pair_at : Paths → ParseState → Text → Option ℕ → ℕ → Parsed ParseState
parse_pair_at paths st t none line = fail ConfigCode.syntax line (text "expected key = value")
parse_pair_at paths st t (some equals) line = parse_pair paths st t equals line

unfoldable pub parse_line : Paths → ParseState → Text → ℕ → Parsed ParseState
parse_line paths st raw line =
    let t = trim raw in
    if is_empty t || is_comment (get_or t 0 0)
    then parsed st
    else if get_or t 0 0 == b'['
    then parse_header st (trim (strip_inline_comment t false)) line
    else parse_pair_at paths st t (find_equals t) line

-- The loop of `ParseText` over its lines, which have numbers.
unfoldable pub parse_lines : Paths → List Text → ℕ → ParseState → Parsed ParseState
parse_lines paths [] line st = parsed st
parse_lines paths (raw ∷ raws) line st = do
  next ← parse_line paths st raw line
  parse_lines paths raws (line + 1) next
