-- ===== src/Parser/Lexing.antt =====
-- Blanks, comments and quotes, in manager/src/ConfigParser.cpp.
use improved_process_manager.Base.{
  ℕ, suc, ◌+◌, ◌-◌, Bool, true, false, not, ◌&&◌, ◌||◌, [], ◌∷◌, ◌++◌, Option, none, some, leb,
  ◌==◌, if◌then◌else◌, length, get_or, take, drop, Text,
}

-- The bytes that the source names by character.
abbrev pub double_quote : ℕ
double_quote = 34

abbrev pub single_quote : ℕ
single_quote = 39

abbrev pub backslash : ℕ
backslash = 92

unfoldable pub is_blank : ℕ → Bool
is_blank c = c == 32 || c == 9 || c == 13 || c == 10 || c == 12 || c == 11

-- The two loops of `Trim`.
unfoldable pub drop_front : Text → Text
drop_front [] = []
drop_front (c ∷ cs) = if is_blank c then drop_front cs else c ∷ cs

unfoldable pub is_empty : Text → Bool
is_empty [] = true
is_empty (c ∷ cs) = false

unfoldable pub drop_back : Text → Text
drop_back [] = []
drop_back (c ∷ cs) = let rest = drop_back cs in if is_blank c && is_empty rest then [] else c ∷ rest

unfoldable pub trim : Text → Text
trim t = drop_back (drop_front t)

abbrev pub is_comment : ℕ → Bool
is_comment c = c == b'#' || c == b';'

-- The loop of `CutAtComment`; the flag says that a comment can begin here.
unfoldable pub cut : Bool → Text → Text
cut free [] = []
cut free (c ∷ cs) = let rest = cut (is_blank c) cs in if is_comment c && free then [] else c ∷ rest

unfoldable pub cut_at_comment : Text → ℕ → Text
cut_at_comment value from =
    take from value ++ cut (from == 0 || is_blank (get_or value (from - 1) 0)) (drop from value)

-- How many blanks a text begins with.
unfoldable pub leading_blanks : Text → ℕ
leading_blanks [] = 0
leading_blanks (c ∷ cs) = let rest = leading_blanks cs in if is_blank c then suc rest else 0

abbrev pub is_quote : ℕ → Bool
is_quote c = c == double_quote || c == single_quote

-- `\"` and `\\`, which double quotes allow.
abbrev pub is_escape : ℕ → ℕ → Bool
is_escape c d = c == backslash && (d == double_quote || d == backslash)

-- Where the opening quote is closed, counted from behind it.
unfoldable pub closing : ℕ → Text → Option ℕ
closing opening [] = none
closing opening (c ∷ []) = if c == opening then some 0 else none
closing opening (c ∷ (d ∷ ds)) =
    let behind_escape : Option ℕ = elim (closing opening ds) [
      | none ↦ none
      | some i ↦ some (suc (suc i))
    ] in
    let behind : Option ℕ = elim (closing opening (d ∷ ds)) [
      | none ↦ none
      | some i ↦ some (suc i)
    ] in
    if c == opening
    then some 0
    else if opening == double_quote && is_escape c d
    then behind_escape
    else behind

-- `StripInlineComment` where only a quote around the whole value protects.
unfoldable pub strip_plain : Text → Text
strip_plain value =
    let first = leading_blanks value in
    if first == length value || not (is_quote (get_or value first 0))
    then cut_at_comment value 0
    else elim (closing (get_or value first 0) (drop (first + 1) value)) [
      | none ↦ value
      | some i ↦ cut_at_comment value (first + 1 + i + 1)
    ]

-- `StripInlineComment` for shell-split values, with the open quote, or 0.
unfoldable pub strip_shell : ℕ → Bool → Text → Text
strip_shell quote free [] = []
strip_shell quote free (c ∷ []) =
    if quote == 0 && not (is_quote c) && is_comment c && free then [] else c ∷ []
strip_shell quote free (c ∷ (d ∷ ds)) =
    let closed = c ∷ strip_shell 0 (is_blank c) (d ∷ ds) in
    let escaped = c ∷ (d ∷ strip_shell quote (is_blank d) ds) in
    let inside = c ∷ strip_shell quote (is_blank c) (d ∷ ds) in
    let opened = c ∷ strip_shell c (is_blank c) (d ∷ ds) in
    if not (quote == 0)
    then (if c == quote
        then closed
        else if quote == double_quote && c == backslash
        then escaped
        else inside)
    else if is_quote c
    then opened
    else if is_comment c && free
    then []
    else inside

unfoldable pub strip_inline_comment : Text → Bool → Text
strip_inline_comment value shell_quotes =
    if shell_quotes then strip_shell 0 true value else strip_plain value

-- The loop of `Unquote` between double quotes.
unfoldable pub unescape : Text → Text
unescape [] = []
unescape (c ∷ []) = c ∷ []
unescape (c ∷ (d ∷ ds)) =
    let escaped = d ∷ unescape ds in
    let plain = c ∷ unescape (d ∷ ds) in if is_escape c d then escaped else plain

-- The value begins and ends with the quote.
unfoldable pub is_enclosed : ℕ → Text → Bool
is_enclosed quote value =
    leb 2 (length value) && get_or value 0 0 == quote && get_or value (length value - 1) 0 == quote

abbrev pub inner : Text → Text
inner value = take (length value - 2) (drop 1 value)

unfoldable pub unquote : Text → Text
unquote value =
    if is_enclosed single_quote value
    then inner value
    else if is_enclosed double_quote value
    then unescape (inner value)
    else value
