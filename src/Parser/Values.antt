-- ===== src/Parser/Values.antt =====
-- Numbers, flags, sizes and lists, in manager/src/ConfigParser.cpp.
use improved_process_manager.Base.{
  ℕ, zero, suc, ◌+◌, ◌-◌, ◌*◌, ◌/◌, ◌^◌, Bool, true, false, not, ◌&&◌, ◌||◌, List, [], ◌∷◌, ◌++◌,
  map, Option, none, some, ltb, leb, ◌==◌, if◌then◌else◌, length, get_or, take, drop, ℤ, pos,
  negsuc, Text, text, same_text,
}
use improved_process_manager.Parser.Lexing.{
  is_blank, is_empty, trim, is_quote, is_escape, double_quote,
}

abbrev pub max_cpu_percent : ℕ
max_cpu_percent = 409600

abbrev pub is_digit : ℕ → Bool
is_digit c = leb b'0' c && leb c b'9'

-- The digits behind a number that was read so far.
unfoldable pub read_digits : ℕ → Text → Option ℕ
read_digits n [] = some n
read_digits n (c ∷ cs) = if is_digit c then read_digits (n * 10 + (c - b'0')) cs else none

-- At least one digit, and nothing else.
unfoldable pub read_natural : Text → Option ℕ
read_natural [] = none
read_natural (c ∷ cs) = read_digits 0 (c ∷ cs)

abbrev pub negated : ℕ → ℤ
negated zero = pos 0
negated (suc n) = negsuc n

unfoldable pub int64_of : Bool → Option ℕ → Option ℤ
int64_of minus none = none
int64_of true (some n) = if leb n (2 ^ 63) then some (negated n) else none
int64_of false (some n) = if ltb n (2 ^ 63) then some (pos n) else none

-- `std::from_chars` of a 64-bit integer that has to take the whole text.
unfoldable pub parse_integer : Text → Option ℤ
parse_integer [] = none
parse_integer (c ∷ cs) =
    if c == b'-' then int64_of true (read_natural cs) else int64_of false (read_natural (c ∷ cs))

unfoldable pub parse_bool : Text → Option Bool
parse_bool t =
    if same_text t (text "true")
      || same_text t (text "yes")
      || same_text t (text "on")
      || same_text t (text "1")
    then some true
    else if same_text t (text "false")
        || same_text t (text "no")
        || same_text t (text "off")
        || same_text t (text "0")
    then some false
    else none

-- A number in a range whose lower end is not negative.
unfoldable pub in_range : ℕ → ℕ → Option ℤ → Option ℕ
in_range minimum maximum none = none
in_range minimum maximum (some (negsuc n)) = none
in_range minimum maximum (some (pos n)) = if ltb n minimum || ltb maximum n then none else some n

unfoldable pub parse_percent : Text → Option ℕ
parse_percent t =
    let bare =
      if not (is_empty t) && get_or t (length t - 1) 0 == b'%' then take (length t - 1) t else t in
    in_range 0 max_cpu_percent (parse_integer (trim bare))

unfoldable pub push_item : List Text → Text → List Text
push_item items current = if is_empty current then items else items ++ current ∷ []

-- The loop of `SplitList`, with the items so far and the current one.
unfoldable pub split_items : List Text → Text → Text → List Text
split_items items current [] = push_item items current
split_items items current (c ∷ cs) =
    let next = split_items (push_item items current) [] cs in
    let longer = split_items items (current ++ c ∷ []) cs in
    if c == b',' || is_blank c then next else longer

unfoldable pub split_list : Text → List Text
split_list t = split_items [] [] t

unfoldable pub lower_case : Text → Text
lower_case t = map (λ c. if leb b'A' c && leb c b'Z' then c - b'A' + b'a' else c) t

unfoldable pub leading_digits : Text → ℕ
leading_digits [] = 0
leading_digits (c ∷ cs) = let rest = leading_digits cs in if is_digit c then suc rest else 0

-- The map of suffixes to powers of 1024.
unfoldable pub power_of : Text → Option ℕ
power_of suffix =
    let is = same_text suffix in
    if is [] || is (text "b")
    then some 0
    else if is (text "k") || is (text "kb") || is (text "kib")
    then some 1
    else if is (text "m") || is (text "mb") || is (text "mib")
    then some 2
    else if is (text "g") || is (text "gb") || is (text "gib")
    then some 3
    else if is (text "t") || is (text "tb") || is (text "tib")
    then some 4
    else none

-- The last loop of `ParseByteSize`.
unfoldable pub scale : ℕ → ℕ → Option ℕ
scale zero bytes = some bytes
scale (suc left) bytes =
    let more = scale left (bytes * 1024) in if ltb ((2 ^ 64 - 1) / 1024) bytes then none else more

unfoldable pub sized : Option ℤ → Option ℕ → Option ℕ
sized (some (pos n)) (some power) = scale power n
sized _ _ = none

unfoldable pub parse_byte_size : Text → Option ℕ
parse_byte_size untrimmed =
    let t = trim untrimmed in
    let digits = leading_digits t in
    if digits == 0
    then none
    else sized (parse_integer (take digits t)) (power_of (lower_case (trim (drop digits t))))

-- The state of `SplitArguments`: the arguments so far, the current one, whether it has begun, and the
-- open quote, or 0.
pub record Splitting : Type 0 where
  pub arguments : List Text
  pub current : Text
  pub in_token : Bool
  pub quote : ℕ

abbrev pub push_byte : ℕ → Splitting → Splitting
push_byte c s = record s { current = s.current ++ c ∷ [] }

-- One byte that is not the first of an escape.
unfoldable pub split_byte : ℕ → Splitting → Splitting
split_byte c s =
    if not (s.quote == 0)
    then (if c == s.quote then record s { quote = 0 } else push_byte c s)
    else if is_blank c
    then (if s.in_token
        then record s { arguments = s.arguments ++ s.current ∷ []; current = []; in_token = false }
        else s)
    else if is_quote c
    then record s { quote = c; in_token = true }
    else record (push_byte c s) { in_token = true }

-- The loop; an escape between double quotes takes two bytes.
unfoldable pub split_bytes : Text → Splitting → Splitting
split_bytes [] s = s
split_bytes (c ∷ []) s = split_byte c s
split_bytes (c ∷ (d ∷ ds)) s =
    let escaped = split_bytes ds (push_byte d s) in
    let plain = split_bytes (d ∷ ds) (split_byte c s) in
    if s.quote == double_quote && is_escape c d then escaped else plain

-- The arguments, or nothing where a quote is not closed.
unfoldable pub split_end : Splitting → Option (List Text)
split_end s =
    if not (s.quote == 0)
    then none
    else some (if s.in_token then s.arguments ++ s.current ∷ [] else s.arguments)

unfoldable pub split_arguments : Text → Option (List Text)
split_arguments t =
    split_end (split_bytes t (record { arguments = []; current = []; in_token = false; quote = 0 }))
