-- ===== src/Parser/Validated.antt =====
-- What `Validate` and `ParseText` promise, manager/src/ConfigParser.cpp.
use improved_process_manager.Base.{
  ℕ, ◌+◌, ◌≤◌, ◌<◌, Bool, true, false, ◌||◌, List, [], ◌∷◌, Option, none, some, ltb, ◌==◌, ◌≡◌, ◌≢◌,
  refl, arith, inl, inr, if◌then◌else◌, length, get_or, get_elem?, All, Text, text, same_text,
  same_text_iff, Bool-cases, Option-cases,
}
use improved_process_manager.Config.{ServiceConfig}
use improved_process_manager.Parser.{parsed, Paths, ConfigCode, fail}
use improved_process_manager.Parser.Acyclic.{Grounded, AllKnown, GroundedFrom, find_cycle-Grounded}
use improved_process_manager.Parser.Marks.{Post}
use improved_process_manager.Parser.Cycles.{
  Visit, finished, cycle, exhausted, missing, position, needs_of, find_cycle,
}
use improved_process_manager.Parser.Files.{
  Ok, check_needs, check_service, check_services, judge_cycle, check_endpoints, validate,
  parse_state, parse_text, parse_file, split_lines, drop_bom,
}
use improved_process_manager.Parser.Lexing.{is_empty}
use improved_process_manager.Parser.Outcome.{After, After-parsed, After->>=, After-weaken}
use improved_process_manager.Parser.Sections.{ParseState, new_state, parse_lines, is_none}
use improved_process_manager.Parser.Settings.{Config, ManagerSettings}
use improved_process_manager.Parser.Valid.{
  IsService, IsPublished, IsParsed, new_state-IsParsed, parse_lines-IsParsed,
}
use improved_process_manager.Parser.Distinct.{names, Distinct, All-get}

-- A dependency is another service of the file.
abbrev pub IsNeeded : List ServiceConfig → ServiceConfig → Text → Type 0
IsNeeded services s dependency =
    (same_text dependency s.name ≡ false) × ((j : ℕ) × (position services dependency ≡ some j))

-- What the loop over the services checks of one.
pub record IsChecked (services : List ServiceConfig) (s : ServiceConfig) : Type 0 where
  pub runnable : is_empty s.binary ≡ false
  pub delays : s.restart_delay ≤ s.restart_delay_max
  pub needs : All (IsNeeded services s) s.depends_on

abbrev pub AreDifferent : ManagerSettings → Type 0
AreDifferent m =
    (m.health_endpoint ≢ m.report_endpoint)
    × (m.health_endpoint ≢ m.command_endpoint)
    × (m.report_endpoint ≢ m.command_endpoint)

-- A configuration that the manager can run.
pub record IsConfig (c : Config) : Type 0 where
  pub services_fit : All IsService c.services
  pub distinct : Distinct (names c.services)
  pub checked : All (IsChecked c.services) c.services
  pub grounded : (i : ℕ) → i < length c.services → Grounded c.services i
  pub published : IsPublished c.manager
  pub endpoints : AreDifferent c.manager

known_position : (o : Option ℕ) → is_none o ≡ false → (j : ℕ) × (o ≡ some j)
unfolding is_none
known_position none e = absurd (ground arith)
known_position (some j) e = (j, refl)

check_needs-IsNeeded :
    (services : List ServiceConfig) (s : ServiceConfig) (line : ℕ) (needs : List Text)
    → After (λ (ok : Ok). All (IsNeeded services s) needs) (check_needs services s line needs)
unfolding check_needs
check_needs-IsNeeded services s line [] = tt
check_needs-IsNeeded services s line (dependency ∷ needs) =
    elim (Bool-cases (same_text dependency s.name)) [
      | inl self ↦ rw self tt
      | inr other ↦ elim (Bool-cases (is_none (position services dependency))) [
        | inl unknown ↦ rw (other, unknown) tt
        | inr known ↦
            let found = known_position (position services dependency) known in
            rw (other, known)
              (After-weaken _ _ (check_needs services s line needs)
                (check_needs-IsNeeded services s line needs) (λ ok rest. ((refl, found), rest)))
      ]
    ]

check_service-IsChecked :
    (services : List ServiceConfig) (s : ServiceConfig) (line needs_line : ℕ)
    → After (λ (ok : Ok). IsChecked services s) (check_service services s line needs_line)
unfolding check_service
check_service-IsChecked services s line needs_line = elim (Bool-cases (is_empty s.binary)) [
  | inl blank ↦ rw blank tt
  | inr runnable ↦ elim (Bool-cases (ltb s.restart_delay_max s.restart_delay)) [
    | inl below ↦ rw (runnable, below) tt
    | inr delays ↦
        let at = if needs_line == 0 then line else needs_line in
        rw (runnable, delays)
          (After-weaken _ _ (check_needs services s at s.depends_on)
            (check_needs-IsNeeded services s at s.depends_on)
            (λ ok needs. record { runnable = runnable; delays = ground arith; needs = needs }))
  ]
]

check_services-IsChecked :
    (st : ParseState) (ss : List ServiceConfig) (i : ℕ)
    → After (λ (ok : Ok). All (IsChecked st.config.services) ss) (check_services st ss i)
unfolding check_services
check_services-IsChecked st [] i = tt
check_services-IsChecked st (s ∷ ss) i =
    After->>= (λ (ok : Ok). IsChecked st.config.services s) _ _ _
      (check_service-IsChecked st.config.services s (get_or st.service_lines i 0)
        (get_or st.dependency_lines i 0))
      (λ ok one.
        After-weaken _ _ (check_services st ss (i + 1)) (check_services-IsChecked st ss (i + 1))
          (λ ok rest. (one, rest)))

pub checked-AllKnown :
    (services : List ServiceConfig) → All (IsChecked services) services → AllKnown services
unfolding needs_of
checked-AllKnown services checked i k dependency e = elim (Option-cases (get_elem? services i)) [
  | inl outside ↦ absurd (ground (arith, rw outside at e))
  | inr (s, found) ↦
      let one = All-get (IsChecked services) services i s checked found in
      let (other, known) =
        All-get (IsNeeded services s) s.depends_on k dependency one.needs (rw found at e) in
      known
]

judge_cycle-finished :
    (v : Visit) (X : Type 0) → Post (λ marks. X) v → After (λ (ok : Ok). X) (judge_cycle v)
unfolding judge_cycle
judge_cycle-finished (finished marks) X h = h
judge_cycle-finished (cycle path) X h = tt
judge_cycle-finished exhausted X h = tt
judge_cycle-finished missing X h = tt

check_endpoints-AreDifferent :
    (m : ManagerSettings) → After (λ (ok : Ok). AreDifferent m) (check_endpoints m)
unfolding check_endpoints
check_endpoints-AreDifferent m =
    endpoints_in (same_text m.health_endpoint m.report_endpoint)
      (same_text m.health_endpoint m.command_endpoint)
      (same_text m.report_endpoint m.command_endpoint) (same_text_iff _ _).1 (same_text_iff _ _).1
      (same_text_iff _ _).1
  where
    endpoints_in :
        (a b c : Bool)
        → (m.health_endpoint ≡ m.report_endpoint → a ≡ true)
        → (m.health_endpoint ≡ m.command_endpoint → b ≡ true)
        → (m.report_endpoint ≡ m.command_endpoint → c ≡ true)
        → After
            (λ (ok : Ok). AreDifferent m)
            (if a || b || c
              then fail ConfigCode.invalid_value 0
                  (text "health_endpoint, report_endpoint and command_endpoint must all differ")
              else parsed tt)
    endpoints_in true b c f g h = tt
    endpoints_in false true c f g h = tt
    endpoints_in false false true f g h = tt
    endpoints_in false false false f g h =
        (λ e. ground (arith, f e), λ e. ground (arith, g e), λ e. ground (arith, h e))

-- A state that passes is a configuration.
validate-IsConfig :
    (st : ParseState) → IsParsed st → After (λ (ok : Ok). IsConfig st.config) (validate st)
unfolding validate
validate-IsConfig st h =
    let services = st.config.services in
    let all_from_0 : (GroundedFrom services (length services) 0)
        → (i : ℕ) → i < length services
        → Grounded services i =
      λ g i inside. g i (omega arith) (omega arith) in
    After->>= (λ (ok : Ok). All (IsChecked services) services) (λ (ok : Ok). IsConfig st.config)
      (check_services st services 0) _ (check_services-IsChecked st services 0)
      (λ each checked.
        After->>= (λ (ok : Ok). GroundedFrom services (length services) 0)
          (λ (ok : Ok). IsConfig st.config) (judge_cycle (find_cycle services)) _
          (judge_cycle-finished (find_cycle services) _
            (find_cycle-Grounded services (checked-AllKnown services checked)))
          (λ ordered grounded.
            After-weaken _ _ (check_endpoints st.config.manager)
              (check_endpoints-AreDifferent st.config.manager)
              (λ ok different. record {
                services_fit = h.services_fit;
                distinct = h.distinct;
                checked = checked;
                grounded = all_from_0 grounded;
                published = h.published;
                endpoints = different;
              })))

parse_text-After : (paths : Paths) (t : Text) → After IsConfig (parse_text paths t)
unfolding parse_text parse_state
parse_text-After paths t =
    let raws = split_lines (drop_bom t) in
    After->>= (λ st. IsConfig st.config) IsConfig _ _
      (After->>= IsParsed (λ st. IsConfig st.config) (parse_lines paths raws 1 new_state) _
        (parse_lines-IsParsed paths raws 1 new_state new_state-IsParsed)
        (λ st h.
          After->>= (λ (ok : Ok). IsConfig st.config) (λ st. IsConfig st.config) (validate st) _
            (validate-IsConfig st h) (λ ok config. config)))
      (λ st config. config)

-- A configuration that `ParseText` accepts is one that the manager can run: every service has a valid
-- name of its own, a binary, numbers in their ranges and a largest restart delay that is no less than
-- the first; every dependency is another service of the file, and no chain of dependencies goes on
-- forever; the publish interval is in its range and the three endpoints differ.
pub parse_text-IsConfig :
    (paths : Paths) (t : Text) (config : Config)
    → parse_text paths t ≡ parsed config
    → IsConfig config
parse_text-IsConfig paths t config e =
    After-parsed IsConfig (parse_text paths t) config (parse_text-After paths t) e

pub parse_file-After :
    (paths : Paths) (path : Text) (contents : Option Text)
    → After IsConfig (parse_file paths path contents)
unfolding parse_file
parse_file-After paths path none = tt
parse_file-After paths path (some contents) =
    After->>= IsConfig IsConfig (parse_text paths contents) _ (parse_text-After paths contents)
      (λ config v. record {
        services_fit = v.services_fit;
        distinct = v.distinct;
        checked = v.checked;
        grounded = v.grounded;
        published = v.published;
        endpoints = v.endpoints;
      })
