-- ===== src/Invocation/Modes.antt =====
-- What the options of manager/src/CommandLine.cpp have in common, whatever the arguments are.
use improved_process_manager.Base.{
  ℕ, ◌≤◌, Bool, true, false, not, ◌&&◌, ◌||◌, List, [], ◌∷◌, Option, none, some, ◌==◌, ◌≡◌, refl,
  arith, inl, inr, Text, text, same_text, Bool-cases,
}
use improved_process_manager.Config.{is_valid_service_name}
use improved_process_manager.Invocation.{
  Mode, mode_number, Options, accepted, Choice, max_timeout_ms, set_mode, set_service_mode,
  split_flag, set_heartbeat, set_timeout, set_log_level, apply_flag, takes_next, parse_arguments,
  default_options, parse_command_line,
}
use improved_process_manager.Invocation.Acceptance.{After, After->>=, After-if, After-cases}
use improved_process_manager.Parser.Bounds.{in_range-bounds}
use improved_process_manager.Parser.Settings.{LogLevel, parse_log_level}
use improved_process_manager.Parser.Values.{parse_integer, in_range}

-- The name that a mode asks for.
abbrev pub Names : Mode → Text → Type 0
Names Mode.start t = (same_text t (text "*") || is_valid_service_name t) ≡ true
Names Mode.stop t = (same_text t (text "*") || is_valid_service_name t) ≡ true
Names Mode.restart t = (same_text t (text "*") || is_valid_service_name t) ≡ true
Names Mode.heartbeat t = is_valid_service_name t ≡ true
Names _ t = Unit

pub record IsOptions (o : Options) : Type 0 where
  pub named : Names o.mode o.service_name
  pub watched : o.watch ≡ true → o.mode ≡ Mode.status
  pub timeout_low : 1 ≤ o.timeout
  pub timeout_high : o.timeout ≤ max_timeout_ms

record IsChoice (c : Choice) : Type 0 where
  fits : IsOptions c.options
  decided : c.options.watch ≡ true → c.mode_set ≡ true

status_alone : (m : Mode) → (mode_number Mode.status == mode_number m) ≡ true → m ≡ Mode.status
status_alone Mode.status e = refl
status_alone Mode.run e = absurd (ground arith)
status_alone Mode.start e = absurd (ground arith)
status_alone Mode.stop e = absurd (ground arith)
status_alone Mode.restart e = absurd (ground arith)
status_alone Mode.reload e = absurd (ground arith)
status_alone Mode.heartbeat e = absurd (ground arith)
status_alone Mode.check e = absurd (ground arith)
status_alone Mode.help e = absurd (ground arith)
status_alone Mode.version e = absurd (ground arith)

-- A mode that is accepted leaves a watch in the mode of the status.
set_mode-IsChoice :
    (c : Choice) (m : Mode) (flag : Text)
    → Names m c.options.service_name
    → (c.options.watch ≡ true
        → (c.mode_set && not (mode_number c.options.mode == mode_number m)) ≡ false
        → m ≡ Mode.status)
    → 1 ≤ c.options.timeout
    → c.options.timeout ≤ max_timeout_ms
    → After IsChoice (set_mode c m flag)
unfolding set_mode
set_mode-IsChoice c m flag named watched low high =
    elim (Bool-cases (c.mode_set && not (mode_number c.options.mode == mode_number m))) [
      | inl conflict ↦ rw conflict tt
      | inr free ↦
          let fits : IsOptions (record c.options { mode = m }) = record {
            named = named;
            watched = λ w. watched w free;
            timeout_low = low;
            timeout_high = high;
          } in
          let choice : IsChoice
              (record { options = record c.options { mode = m }; mode_set = true }) =
            record { fits = fits; decided = λ w. refl } in
          rw free choice
    ]

watch_keeps :
    (c : Choice) (m : Mode)
    → IsChoice c
    → c.options.watch ≡ true
    → (c.mode_set && not (mode_number c.options.mode == mode_number m)) ≡ false
    → m ≡ Mode.status
watch_keeps c m h w free =
    let set = h.decided w in
    let status = h.fits.watched w in
    let free' : (true && not (mode_number Mode.status == mode_number m)) ≡ false =
      rw (set, status) at free in
    let same : (mode_number Mode.status == mode_number m) ≡ true = ground arith in
    status_alone m same

set_service_mode-IsChoice :
    (c : Choice) (m : Mode) (flag value : Text)
    → IsChoice c
    → ((same_text value (text "*") || is_valid_service_name value) ≡ true → Names m value)
    → After IsChoice (set_service_mode c m flag value)
unfolding set_service_mode
set_service_mode-IsChoice c m flag value h named =
    elim (Bool-cases (not (same_text value (text "*")) && not (is_valid_service_name value))) [
      | inl wrong ↦ rw wrong tt
      | inr right ↦
          let set =
            set_mode-IsChoice (record c { options = record c.options { service_name = value } }) m
              flag (named (ground arith)) (watch_keeps c m h) h.fits.timeout_low
              h.fits.timeout_high in
          rw right set
    ]

set_heartbeat-IsChoice :
    (c : Choice) (flag value : Text) → IsChoice c → After IsChoice (set_heartbeat c flag value)
unfolding set_heartbeat
set_heartbeat-IsChoice c flag value h = elim (Bool-cases (same_text value (text "*"))) [
  | inl star ↦ rw star tt
  | inr other ↦
      let set = set_service_mode-IsChoice c Mode.heartbeat flag value h (λ e. rw other at e) in
      rw other set
]

set_timeout-IsChoice :
    (c : Choice) (o : Option ℕ)
    → IsChoice c
    → ((n : ℕ) → o ≡ some n → (1 ≤ n) × (n ≤ max_timeout_ms))
    → After IsChoice (set_timeout c o)
unfolding set_timeout
set_timeout-IsChoice c none h bounds = tt
set_timeout-IsChoice c (some n) h bounds =
    let (low, high) = bounds n refl in
    record {
      fits = record {
        named = h.fits.named;
        watched = h.fits.watched;
        timeout_low = low;
        timeout_high = high;
      };
      decided = h.decided;
    }

-- Options that the invariant does not read.
other_fields :
    {c : Choice} {path command report : Text} {given wide : Bool} {level : Option LogLevel}
    → IsChoice c
    → IsChoice (record c {
      options = record c.options {
        config_path = path;
        config_given = given;
        command_endpoint = command;
        report_endpoint = report;
        wide = wide;
        log_level = level;
      };
    })
other_fields h = record {
  fits = record {
    named = h.fits.named;
    watched = h.fits.watched;
    timeout_low = h.fits.timeout_low;
    timeout_high = h.fits.timeout_high;
  };
  decided = h.decided;
}

set_log_level-IsChoice :
    (c : Choice) (o : Option LogLevel) → IsChoice c → After IsChoice (set_log_level c o)
unfolding set_log_level
set_log_level-IsChoice c none h = tt
set_log_level-IsChoice c (some level) h = other_fields h

apply_flag-IsChoice :
    (c : Choice) (argument flag value : Text)
    → IsChoice c
    → After IsChoice (apply_flag c argument flag value)
unfolding apply_flag
apply_flag-IsChoice c argument flag value h =
    let plain : (m : Mode) → Names m c.options.service_name → After IsChoice (set_mode c m flag) =
      λ m e.
        set_mode-IsChoice c m flag e (watch_keeps c m h) h.fits.timeout_low h.fits.timeout_high in
    let watch : After IsChoice
        (set_mode (record c { options = record c.options { watch = true } }) Mode.status flag) =
      set_mode-IsChoice (record c { options = record c.options { watch = true } }) Mode.status flag
        tt (λ w free. refl) h.fits.timeout_low h.fits.timeout_high in
    let help_mode = plain Mode.help tt in
    let version_mode = plain Mode.version tt in
    let status_mode = plain Mode.status tt in
    let reload_mode = plain Mode.reload tt in
    let check_mode = plain Mode.check tt in
    let start_mode = set_service_mode-IsChoice c Mode.start flag value h (λ e. e) in
    let stop_mode = set_service_mode-IsChoice c Mode.stop flag value h (λ e. e) in
    let restart_mode = set_service_mode-IsChoice c Mode.restart flag value h (λ e. e) in
    let heartbeat_mode = set_heartbeat-IsChoice c flag value h in
    let waits =
      set_timeout-IsChoice c (in_range 1 max_timeout_ms (parse_integer value)) h
        (in_range-bounds 1 max_timeout_ms (parse_integer value)) in
    let level = set_log_level-IsChoice c (parse_log_level value) h in
    search (After-if, other_fields) depth 24

parse_arguments-IsChoice :
    (arguments : List Text) (c : Choice) → IsChoice c → After IsChoice (parse_arguments arguments c)
unfolding parse_arguments
parse_arguments-IsChoice [] c h = h
parse_arguments-IsChoice (a ∷ []) c h =
    let f = split_flag a in
    After-if IsChoice (takes_next f) _ _ tt (apply_flag-IsChoice c a f.name f.value h)
parse_arguments-IsChoice (a ∷ (b ∷ rest)) c h =
    let f = split_flag a in
    let taken =
      After->>= IsChoice IsChoice (apply_flag c a f.name b) (parse_arguments rest)
        (apply_flag-IsChoice c a f.name b h) (parse_arguments-IsChoice rest) in
    let alone =
      After->>= IsChoice IsChoice (apply_flag c a f.name f.value) (parse_arguments (b ∷ rest))
        (apply_flag-IsChoice c a f.name f.value h) (parse_arguments-IsChoice (b ∷ rest)) in
    After-cases IsChoice (takes_next f) _ _ taken alone

-- Options that are accepted name a service where their mode asks for one, a heartbeat one service and not
-- all; they watch only in the mode of the status, and wait between a millisecond and ten minutes.
pub parse_command_line-IsOptions :
    (path : Text) (arguments : List Text) (o : Options)
    → parse_command_line path arguments ≡ accepted o
    → IsOptions o
unfolding parse_command_line
parse_command_line-IsOptions path arguments o e =
    let start : Choice = record { options = default_options path; mode_set = false } in
    let fits : IsChoice start = record {
      fits = record {
        named = tt;
        watched = λ w. absurd (ground arith);
        timeout_low = omega arith;
        timeout_high = omega arith;
      };
      decided = λ w. absurd (ground arith);
    } in
    let all : After IsOptions (parse_command_line path arguments) =
      After->>= IsChoice IsOptions (parse_arguments arguments start) (λ c. accepted c.options)
        (parse_arguments-IsChoice arguments start fits) (λ c h. h.fits) in
    rw e at all
