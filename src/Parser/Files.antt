-- ===== src/Parser/Files.antt =====
-- `Validate`, `ParseText` and `ParseFile`, in manager/src/ConfigParser.cpp.
use improved_process_manager.Base.{
  ℕ, ◌+◌, ◌||◌, List, [], ◌∷◌, ◌++◌, Option, none, some, ltb, ◌==◌, if◌then◌else◌, get_or, take,
  drop, Text, text, same_text,
}
use improved_process_manager.Config.{ServiceConfig}
use improved_process_manager.Parser.{ConfigCode, Parsed, parsed, ◌>>=◌, fail, Paths}
use improved_process_manager.Parser.Cycles.{Visit, finished, cycle, position, find_cycle}
use improved_process_manager.Parser.Lexing.{is_empty}
use improved_process_manager.Parser.Sections.{ParseState, new_state, parse_lines, is_none}
use improved_process_manager.Parser.Settings.{Config, ManagerSettings}

abbrev pub Ok : Type 0
Ok = Unit

abbrev pub quoted_service : ServiceConfig → Text
quoted_service s = text "service '" ++ (s.name ++ text "'")

-- The loop over the dependencies of one service.
unfoldable pub check_needs : List ServiceConfig → ServiceConfig → ℕ → List Text → Parsed Ok
check_needs services s line [] = parsed tt
check_needs services s line (dependency ∷ dependencies) =
    let rest = check_needs services s line dependencies in
    if same_text dependency s.name
    then fail ConfigCode.dependency_cycle line (quoted_service s ++ text " depends on itself")
    else if is_none (position services dependency)
    then fail ConfigCode.unknown_dependency line
        (quoted_service s ++ (text " depends on unknown service '" ++ (dependency ++ text "'")))
    else rest

-- One round of the loop of `Validate`, with the lines of the service and of its dependencies.
unfoldable pub check_service : List ServiceConfig → ServiceConfig → ℕ → ℕ → Parsed Ok
check_service services s line needs_line =
    if is_empty s.binary
    then fail ConfigCode.missing_value line (quoted_service s ++ text " has no binary")
    else if ltb s.restart_delay_max s.restart_delay
    then fail ConfigCode.invalid_value line
        (quoted_service s ++ text ": restart_delay_max_ms is below restart_delay_ms")
    else check_needs services s (if needs_line == 0 then line else needs_line) s.depends_on

unfoldable pub check_services : ParseState → List ServiceConfig → ℕ → Parsed Ok
check_services st [] i = parsed tt
check_services st (s ∷ ss) i = do
  one ←
      check_service st.config.services s (get_or st.service_lines i 0)
        (get_or st.dependency_lines i 0)
  check_services st ss (i + 1)

-- Any answer but a finished search is a cycle; `find_cycle` gives no others.
unfoldable pub judge_cycle : Visit → Parsed Ok
judge_cycle (finished marks) = parsed tt
judge_cycle (cycle names) = fail ConfigCode.dependency_cycle 0 (text "dependency cycle: " ++ names)
judge_cycle _ = fail ConfigCode.dependency_cycle 0 []

unfoldable pub check_endpoints : ManagerSettings → Parsed Ok
check_endpoints m =
    if same_text m.health_endpoint m.report_endpoint
      || same_text m.health_endpoint m.command_endpoint
      || same_text m.report_endpoint m.command_endpoint
    then fail ConfigCode.invalid_value 0
        (text "health_endpoint, report_endpoint and command_endpoint must all differ")
    else parsed tt

unfoldable pub validate : ParseState → Parsed Ok
validate st = do
  each ← check_services st st.config.services 0
  ordered ← judge_cycle (find_cycle st.config.services)
  check_endpoints st.config.manager

-- The pieces between the newlines.
unfoldable pub split_lines : Text → List Text
split_lines [] = [] ∷ []
split_lines (c ∷ cs) = let rest = split_lines cs in if c == 10 then [] ∷ rest else push_front c rest
  where
    push_front : ℕ → List Text → List Text
    push_front b [] = (b ∷ []) ∷ []
    push_front b (t ∷ ts) = (b ∷ t) ∷ ts

abbrev pub utf8_bom : Text
utf8_bom = 0xEF ∷ 0xBB ∷ 0xBF ∷ []

unfoldable pub drop_bom : Text → Text
drop_bom t = if same_text (take 3 t) utf8_bom then drop 3 t else t

-- The state of `ParseText` before it writes its results.
unfoldable pub parse_state : Paths → Text → Parsed ParseState
parse_state paths t = do
  st ← parse_lines paths (split_lines (drop_bom t)) 1 new_state
  valid ← validate st
  parsed st

-- `out` is left alone on failure.
unfoldable pub parse_text : Paths → Text → Parsed Config
parse_text paths t = do st ← parse_state paths t; parsed st.config

-- `ParseFile` for what was read of the file.
unfoldable pub parse_file : Paths → Text → Option Text → Parsed Config
parse_file paths path none = fail ConfigCode.unreadable 0 (text "cannot read " ++ path)
parse_file paths path (some contents) = do
  config ← parse_text paths contents
  parsed (record config { path = path })
