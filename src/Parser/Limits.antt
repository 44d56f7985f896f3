-- ===== src/Parser/Limits.antt =====
-- The numbers of a service while its keys are read, in manager/src/ConfigParser.cpp.
use improved_process_manager.Base.{
  ℕ, ◌-◌, ◌^◌, ◌≤◌, ◌<◌, Bool, true, false, [], ◌∷◌, ◌++◌, Option, none, some, ◌≡◌, refl, arith,
  if◌then◌else◌, Text, text,
}
use improved_process_manager.Config.{ServiceConfig, parse_restart_mode, parse_stop_signal}
use improved_process_manager.Parser.{Parsed, failed, parsed, ◌>>=◌, Paths, ConfigCode, fail}
use improved_process_manager.Parser.Keys.{
  max_duration_ms, max_window_s, max_count, read_number, apply_duration, apply_output,
}
use improved_process_manager.Parser.ServiceKeys.{
  read_limit, Entry, apply_text_key, apply_number_key, apply_choice_key, or_else, or_fail,
  apply_service_key, read_action, read_variable, find_equals,
}
use improved_process_manager.Parser.Outcome.{After, After-if, After-put, After->>=}
use improved_process_manager.Parser.Settings.{default_service}
use improved_process_manager.Parser.Values.{
  max_cpu_percent, parse_byte_size, parse_percent, parse_bool, split_arguments,
}
use improved_process_manager.Parser.Bounds.{
  read_number-bounds, parse_byte_size-bound, parse_percent-bound, read_limit-bound,
}

-- The ranges of the numbers of a service.
abbrev pub InBounds : ServiceConfig → Type 0
InBounds s =
    (s.restart_delay ≤ max_duration_ms)
    × (s.restart_delay_max ≤ max_duration_ms)
    × (s.start_grace ≤ max_duration_ms)
    × (s.stop_timeout ≤ max_duration_ms)
    × (s.heartbeat_interval ≤ max_duration_ms)
    × (s.max_restarts ≤ max_count)
    × ((1 ≤ s.restart_window) × (s.restart_window ≤ max_window_s))
    × ((1 ≤ s.heartbeat_tolerance) × (s.heartbeat_tolerance ≤ max_count))
    × (s.memory_max < 2 ^ 64)
    × (s.cpu_max_percent ≤ max_cpu_percent)

pub default_service-InBounds : InBounds default_service
default_service-InBounds = ground arith

-- A step from a service keeps its name, and its numbers in their ranges.
abbrev pub Keeps : ServiceConfig → ServiceConfig → Type 0
Keeps s t = (s.name ≡ t.name) × InBounds t

-- A key that is no key of the group, or the outcome of one that is.
abbrev Group : (ServiceConfig → Type 0) → Option (Parsed ServiceConfig) → Type 0
Group P none = Unit
Group P (some r) = After P r

Group-if :
    (P : ServiceConfig → Type 0) (b : Bool) (x y : Option (Parsed ServiceConfig))
    → Group P x
    → Group P y
    → Group P (if b then x else y)
Group-if P true x y h k = h
Group-if P false x y h k = k

module _ (paths : Paths) (s : ServiceConfig) (h : InBounds s) where
  apply_output-Keeps : (value : Text) (line : ℕ) → After (Keeps s) (apply_output paths s value line)
  unfolding apply_output
  apply_output-Keeps value line = search (After-if) depth 10

  apply_text_key-Keeps :
      (key value : Text) (line : ℕ) → Group (Keeps s) (apply_text_key paths s key value line)
  unfolding apply_text_key
  apply_text_key-Keeps key value line =
      let args =
        After-put (Keeps s) (split_arguments value) line (text "args has an unterminated quote")
          (λ a. record s { arguments = a }) (λ a e. (refl, h)) in
      let env =
        After-put (Keeps s) (read_variable value (find_equals value)) line
          (text "env must look like NAME=value")
          (λ v. record s { environment = s.environment ++ v ∷ [] }) (λ a e. (refl, h)) in
      search (Group-if, After-if) depth 12

module _ (s : ServiceConfig) (h : InBounds s) where
  read_number-Keeps :
      (key value : Text) (line minimum maximum : ℕ) (f : ℕ → ServiceConfig)
      → ((n : ℕ) → (minimum ≤ n) × (n ≤ maximum) → Keeps s (f n))
      → After (Keeps s) (do n ← read_number key value line minimum maximum; parsed (f n))
  read_number-Keeps key value line minimum maximum f keeps =
      After->>= (λ n. (minimum ≤ n) × (n ≤ maximum)) (Keeps s) _ _
        (read_number-bounds key value line minimum maximum) keeps

  apply_number_key-Keeps :
      (key value : Text) (line : ℕ) → Group (Keeps s) (apply_number_key s key value line)
  unfolding apply_number_key apply_duration
  apply_number_key-Keeps key value line =
      let (delay, most, grace, stop, beat, count, window, tolerance, memory, cpu) = h in
      let duration = read_number-Keeps key value line 0 max_duration_ms in
      let r1 =
        duration (λ n. record s { restart_delay = n })
          (λ n b. (refl, (b.1, most, grace, stop, beat, count, window, tolerance, memory, cpu))) in
      let r2 =
        duration (λ n. record s { restart_delay_max = n })
          (λ n b. (refl, (delay, b.1, grace, stop, beat, count, window, tolerance, memory, cpu))) in
      let r3 =
        duration (λ n. record s { start_grace = n })
          (λ n b. (refl, (delay, most, b.1, stop, beat, count, window, tolerance, memory, cpu))) in
      let r4 =
        duration (λ n. record s { stop_timeout = n })
          (λ n b. (refl, (delay, most, grace, b.1, beat, count, window, tolerance, memory, cpu))) in
      let r5 =
        duration (λ n. record s { heartbeat_interval = n })
          (λ n b. (refl, (delay, most, grace, stop, b.1, count, window, tolerance, memory, cpu))) in
      let r6 =
        read_number-Keeps key value line 0 max_count (λ n. record s { max_restarts = n })
          (λ n b. (refl, (delay, most, grace, stop, beat, b.1, window, tolerance, memory, cpu))) in
      let r7 =
        read_number-Keeps key value line 1 max_window_s (λ n. record s { restart_window = n })
          (λ n b. (refl, (delay, most, grace, stop, beat, count, b, tolerance, memory, cpu))) in
      let r8 =
        read_number-Keeps key value line 1 max_count (λ n. record s { heartbeat_tolerance = n })
          (λ n b. (refl, (delay, most, grace, stop, beat, count, window, b, memory, cpu))) in
      search (Group-if) depth 12

  apply_choice_key-Keeps :
      (paths : Paths) (key value : Text) (line : ℕ)
      → Group (Keeps s) (apply_choice_key paths s key value line)
  unfolding apply_choice_key
  apply_choice_key-Keeps paths key value line =
      let (delay, most, grace, stop, beat, count, window, tolerance, memory, cpu) = h in
      let r1 =
        After-put (Keeps s) (parse_bool value) line (text "autostart must be true or false")
          (λ a. record s { autostart = a }) (λ a e. (refl, h)) in
      let r2 =
        After-put (Keeps s) (parse_restart_mode value) line
          (text "restart must be never, on-failure or always") (λ a. record s { restart = a })
          (λ a e. (refl, h)) in
      let r3 =
        After-put (Keeps s) (parse_stop_signal value) line
          (text "stop_signal must be TERM, INT, HUP, QUIT, KILL, USR1 or USR2")
          (λ a. record s { stop_signal = a }) (λ a e. (refl, h)) in
      let r4 =
        After-put (Keeps s) (read_action value) line
          (text "unhealthy_action must be none or restart") (λ a. record s { unhealthy_action = a })
          (λ a e. (refl, h)) in
      let r5 = apply_output-Keeps paths s h value line in
      let r6 =
        After-put (Keeps s) (read_limit parse_byte_size value) line
          (text "memory_max must be a size such as 512M, or none")
          (λ a. record s { memory_max = a })
          (λ a e. (
            refl,
            (
              delay,
              most,
              grace,
              stop,
              beat,
              count,
              window,
              tolerance,
              lt_of (
                  read_limit-bound parse_byte_size (2 ^ 64 - 1) value a
                    (λ m f. omega (arith, parse_byte_size-bound value m f)) e),
              cpu,
            ),
          )) in
      let r7 =
        After-put (Keeps s) (read_limit parse_percent value) line
          (text "cpu_max must be a percentage of one core such as 150%, or none")
          (λ a. record s { cpu_max_percent = a })
          (λ a e. (
            refl,
            (
              delay,
              most,
              grace,
              stop,
              beat,
              count,
              window,
              tolerance,
              memory,
              read_limit-bound parse_percent max_cpu_percent value a (parse_percent-bound value) e,
            ),
          )) in
      search (Group-if) depth 12
    where
      lt_of : {a : ℕ} → a ≤ 2 ^ 64 - 1 → a < 2 ^ 64
      lt_of h = omega arith

  pub apply_service_key-Keeps :
      (paths : Paths) (old : ℕ) (defaults : Bool) (key value : Text) (line : ℕ)
      → After
          (λ e. Keeps s e.service)
          (apply_service_key paths
            (record { service = s; dependency_line = old })
            defaults
            key
            value
            line)
  unfolding apply_service_key
  apply_service_key-Keeps paths old defaults key value line =
      let choice = apply_choice_key paths s key value line in
      let rest =
        or_else-Keeps (apply_number_key s key value line) choice
          (apply_number_key-Keeps key value line) (apply_choice_key-Keeps paths key value line) in
      let found =
        or_else-Keeps (apply_text_key paths s key value line)
          (or_else (apply_number_key s key value line) choice)
          (apply_text_key-Keeps paths s h key value line) rest in
      search (After-if, or_fail-Keeps) depth 6
    where
      or_else-Keeps :
          (a b : Option (Parsed ServiceConfig))
          → Group (Keeps s) a
          → Group (Keeps s) b
          → Group (Keeps s) (or_else a b)
      or_else-Keeps none b f g = g
      or_else-Keeps (some r) b f g = f

      or_fail-Keeps :
          (e : Entry) (o : Option (Parsed ServiceConfig)) (message : Text)
          → Group (Keeps s) o
          → After (λ e. Keeps s e.service) (or_fail e o (fail ConfigCode.unknown_key line message))
      or_fail-Keeps e none message g = tt
      or_fail-Keeps e (some (failed error)) message g = tt
      or_fail-Keeps e (some (parsed t)) message g = g
