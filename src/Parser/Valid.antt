-- ===== src/Parser/Valid.antt =====
-- The state of `ParseText`, manager/src/ConfigParser.cpp, line by line.
use improved_process_manager.Base.{
  ℕ, ◌+◌, ◌-◌, ◌≤◌, Bool, true, false, ◌||◌, List, [], ◌∷◌, ◌++◌, Option, none, some, ◌≡◌, refl,
  arith, inl, inr, if◌then◌else◌, length, get_or, get_elem?, take, drop, All, Text, text, same_text,
  Bool-cases,
}
use improved_process_manager.Config.{ServiceConfig, find_service, is_valid_service_name}
use improved_process_manager.Parser.{Parsed, failed, parsed, Paths}
use improved_process_manager.Parser.Keys.{
  min_publish_ms, max_publish_ms, apply_manager_key, set_endpoint, read_cgroups, read_gpu,
  read_number,
}
use improved_process_manager.Parser.ServiceKeys.{Entry, apply_service_key, find_equals}
use improved_process_manager.Parser.Bounds.{read_number-bounds}
use improved_process_manager.Parser.Lexing.{trim, strip_inline_comment, unquote}
use improved_process_manager.Parser.Limits.{
  InBounds, Keeps, default_service-InBounds, apply_service_key-Keeps,
}
use improved_process_manager.Parser.Outcome.{After, After-if, After-put, After->>=}
use improved_process_manager.Parser.Sections.{
  Section, ParseState, new_state, is_none, open_manager, open_defaults, open_service, open_section,
  parse_header, put_entry, apply_current, apply_key, parse_pair, parse_pair_at, parse_line,
  parse_lines,
}
use improved_process_manager.Parser.Settings.{ManagerSettings, parse_log_level}
use improved_process_manager.Parser.Distinct.{
  All-snoc, All-set, All-get, names, Distinct, names-snoc, names-set, Distinct-snoc,
  find_service-contains,
}

abbrev pub IsService : ServiceConfig → Type 0
IsService s = InBounds s × (is_valid_service_name s.name ≡ true)

abbrev pub IsPublished : ManagerSettings → Type 0
IsPublished m = (min_publish_ms ≤ m.publish_interval) × (m.publish_interval ≤ max_publish_ms)

-- The invariant of the state.
pub record IsParsed (st : ParseState) : Type 0 where
  pub defaults_fit : InBounds st.defaults
  pub services_fit : All IsService st.config.services
  pub distinct : Distinct (names st.config.services)
  pub published : IsPublished st.config.manager

-- The invariant reads four fields.
same_fields :
    {st : ParseState} {section : Section} {seen : List Text} {manager_seen defaults_seen : Bool}
    → IsParsed st
    → IsParsed (record st {
      seen_keys = seen;
      section = section;
      manager_seen = manager_seen;
      defaults_seen = defaults_seen;
    })
same_fields h = record {
  defaults_fit = h.defaults_fit;
  services_fit = h.services_fit;
  distinct = h.distinct;
  published = h.published;
}

pub new_state-IsParsed : IsParsed new_state
new_state-IsParsed = record {
  defaults_fit = default_service-InBounds;
  services_fit = tt;
  distinct = tt;
  published = ground arith;
}

set_endpoint-interval :
    (m : ManagerSettings) (key endpoint : Text)
    → (set_endpoint m key endpoint).publish_interval ≡ m.publish_interval
unfolding set_endpoint
set_endpoint-interval m key endpoint = ground arith

apply_manager_key-IsPublished :
    (m : ManagerSettings) (key value : Text) (line : ℕ)
    → IsPublished m
    → After IsPublished (apply_manager_key m key value line)
unfolding apply_manager_key
apply_manager_key-IsPublished m key value line h =
    let endpoint : IsPublished (set_endpoint m key (unquote value)) =
      rw (set_endpoint-interval m key (unquote value)) h in
    let interval =
      After->>= (λ ms. (min_publish_ms ≤ ms) × (ms ≤ max_publish_ms)) IsPublished
        (read_number key value line min_publish_ms max_publish_ms)
        (λ ms. parsed (record m { publish_interval = ms }))
        (read_number-bounds key value line min_publish_ms max_publish_ms) (λ ms b. b) in
    let level =
      After-put IsPublished (parse_log_level value) line
        (text "log_level must be error, warning, info or debug") (λ a. record m { log_level = a })
        (λ a e. h) in
    let mode =
      After-put IsPublished (read_cgroups value) line (text "cgroups must be auto, off or required")
        (λ a. record m { cgroups = a }) (λ a e. h) in
    let cards =
      After-put IsPublished (read_gpu value) line (text "gpu must be auto or off")
        (λ a. record m { gpu = a }) (λ a e. h) in
    search (After-if) depth 12

open_service-IsParsed :
    (st : ParseState) (name : Text) (line : ℕ)
    → IsParsed st
    → After IsParsed (open_service st name line)
unfolding open_service
open_service-IsParsed st name line h = elim (Bool-cases (is_valid_service_name name)) [
  | inr bad ↦ rw bad tt
  | inl valid ↦ elim (Bool-cases (is_none (find_service st.config.services name))) [
    | inr taken ↦ rw (valid, taken) tt
    | inl free ↦
        rw (valid, free)
          (record {
            defaults_fit = h.defaults_fit;
            services_fit =
                All-snoc IsService st.config.services (record st.defaults { name = name })
                  h.services_fit (h.defaults_fit, valid);
            distinct = rw (names-snoc st.config.services (record st.defaults { name = name })) (
                Distinct-snoc (names st.config.services) name h.distinct
                  (find_service-contains st.config.services name free));
            published = h.published;
          })
  ]
]

open_section-IsParsed :
    (st : ParseState) (header : Text) (line : ℕ)
    → IsParsed st
    → After IsParsed (open_section st header line)
unfolding open_section open_manager open_defaults
open_section-IsParsed st header line h =
    let cleared : IsParsed (record st { seen_keys = [] }) = same_fields h in
    let service =
      open_service-IsParsed (record st { seen_keys = [] }) (trim (drop 7 header)) line cleared in
    let manager : IsParsed
        (record st { seen_keys = []; manager_seen = true; section = Section.manager }) =
      same_fields h in
    let defaults : IsParsed
        (record st { seen_keys = []; defaults_seen = true; section = Section.defaults }) =
      same_fields h in
    search (After-if) depth 12

put_entry-IsParsed :
    (st : ParseState) (s : ServiceConfig) (r : Parsed Entry)
    → IsParsed st
    → get_elem? st.config.services st.current ≡ some s
    → After (λ e. Keeps s e.service) r
    → After IsParsed (put_entry st r)
unfolding put_entry
put_entry-IsParsed st s (failed error) h at_i keeps = tt
put_entry-IsParsed st s (parsed e) h at_i (same, fits) =
    let (bounds, valid) = All-get IsService st.config.services st.current s h.services_fit at_i in
    let named : is_valid_service_name e.service.name ≡ true = rw same at valid in
    record {
      defaults_fit = h.defaults_fit;
      services_fit =
          All-set IsService st.config.services st.current e.service h.services_fit (fits, named);
      distinct = rw (names-set st.config.services st.current s e.service at_i same) h.distinct;
      published = h.published;
    }

apply_current-IsParsed :
    (paths : Paths) (st : ParseState) (o : Option ServiceConfig) (key value : Text) (line : ℕ)
    → IsParsed st
    → get_elem? st.config.services st.current ≡ o
    → After IsParsed (apply_current paths st o key value line)
unfolding apply_current
apply_current-IsParsed paths st none key value line h at_i = h
apply_current-IsParsed paths st (some s) key value line h at_i =
    let (bounds, valid) = All-get IsService st.config.services st.current s h.services_fit at_i in
    put_entry-IsParsed st s _ h at_i (
      apply_service_key-Keeps s bounds paths (get_or st.dependency_lines st.current 0) false key
        value line)

apply_key-IsParsed :
    (paths : Paths) (st : ParseState) (section : Section) (key value : Text) (line : ℕ)
    → IsParsed st
    → After IsParsed (apply_key paths st section key value line)
unfolding apply_key
apply_key-IsParsed paths st Section.nothing key value line h = h
apply_key-IsParsed paths st Section.manager key value line h =
    After->>= IsPublished IsParsed (apply_manager_key st.config.manager key value line) _
      (apply_manager_key-IsPublished st.config.manager key value line h.published)
      (λ settings fits. record {
        defaults_fit = h.defaults_fit;
        services_fit = h.services_fit;
        distinct = h.distinct;
        published = fits;
      })
apply_key-IsParsed paths st Section.defaults key value line h =
    After->>= (λ e. Keeps st.defaults e.service) IsParsed
      (apply_service_key paths (record { service = st.defaults; dependency_line = 0 }) true key
        value line)
      _ (apply_service_key-Keeps st.defaults h.defaults_fit paths 0 true key value line)
      (λ e (same, fits). record {
        defaults_fit = fits;
        services_fit = h.services_fit;
        distinct = h.distinct;
        published = h.published;
      })
apply_key-IsParsed paths st Section.service key value line h =
    apply_current-IsParsed paths st (get_elem? st.config.services st.current) key value line h refl

parse_pair_at-IsParsed :
    (paths : Paths) (st : ParseState) (t : Text) (o : Option ℕ) (line : ℕ)
    → IsParsed st
    → After IsParsed (parse_pair_at paths st t o line)
unfolding parse_pair_at parse_pair
parse_pair_at-IsParsed paths st t none line h = tt
parse_pair_at-IsParsed paths st t (some equals) line h =
    let key = trim (take equals t) in
    let is_env = same_text key (text "env") in
    let value =
      trim (strip_inline_comment (drop (equals + 1) t) (same_text key (text "args") || is_env)) in
    let seen = if is_env then st.seen_keys else st.seen_keys ++ key ∷ [] in
    let applied =
      apply_key-IsParsed paths (record st { seen_keys = seen }) st.section key value line
        (same_fields h) in
    search (After-if) depth 8

parse_line-IsParsed :
    (paths : Paths) (st : ParseState) (raw : Text) (line : ℕ)
    → IsParsed st
    → After IsParsed (parse_line paths st raw line)
unfolding parse_line parse_header
parse_line-IsParsed paths st raw line h =
    let t = trim raw in
    let header = trim (strip_inline_comment t false) in
    let section =
      open_section-IsParsed st (trim (take (length header - 2) (drop 1 header))) line h in
    let pair = parse_pair_at-IsParsed paths st t (find_equals t) line h in search (After-if) depth 8

-- Every line keeps the invariant.
pub parse_lines-IsParsed :
    (paths : Paths) (raws : List Text) (line : ℕ) (st : ParseState)
    → IsParsed st
    → After IsParsed (parse_lines paths raws line st)
unfolding parse_lines
parse_lines-IsParsed paths [] line st h = h
parse_lines-IsParsed paths (raw ∷ raws) line st h =
    After->>= IsParsed IsParsed (parse_line paths st raw line) _
      (parse_line-IsParsed paths st raw line h)
      (λ next k. parse_lines-IsParsed paths raws (line + 1) next k)
