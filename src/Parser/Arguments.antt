-- ===== src/Parser/Arguments.antt =====
-- Arguments in double quotes, as `SplitArguments` of manager/src/ConfigParser.cpp reads them.
use improved_process_manager.Base.{
  ℕ, true, false, ◌||◌, List, [], ◌∷◌, ◌++◌, some, ◌==◌, ◌≡◌, refl, sym, ap, ◌∙◌, arith, inl, inr,
  if◌then◌else◌, append_assoc, append-nil, Text, Bool-cases,
}
use improved_process_manager.Parser.Lexing.{double_quote, backslash, is_blank}
use improved_process_manager.Parser.Values.{
  Splitting, split_byte, split_bytes, split_end, split_arguments,
}

-- The bytes of an argument between double quotes.
unfoldable pub escaped : Text → Text
escaped [] = []
escaped (c ∷ cs) =
    if c == double_quote || c == backslash then backslash ∷ (c ∷ escaped cs) else c ∷ escaped cs

-- Each argument in double quotes, a space behind it.
abbrev pub quoted_all : List Text → Text
quoted_all [] = []
quoted_all (a ∷ rest) = double_quote ∷ (escaped a ++ (double_quote ∷ (32 ∷ quoted_all rest)))

abbrev closed : List Text → Splitting
closed done = record { arguments = done; current = []; in_token = false; quote = 0 }

abbrev opened : List Text → Text → Splitting
opened done current = record {
  arguments = done;
  current = current;
  in_token = true;
  quote = double_quote;
}

-- A byte that is no backslash stands for itself, where another byte is behind it.
split_bytes-plain :
    (c d : ℕ) (t u : Text) (s : Splitting)
    → (c == backslash) ≡ false
    → split_bytes (c ∷ (t ++ d ∷ u)) s ≡ split_bytes (t ++ d ∷ u) (split_byte c s)
unfolding split_bytes
split_bytes-plain c d [] u s plain = ground arith
split_bytes-plain c d (e ∷ t) u s plain = ground arith

split_bytes-escaped :
    (c : ℕ) (t : Text) (done : List Text) (bytes : Text)
    → (c == double_quote || c == backslash) ≡ true
    → split_bytes (backslash ∷ (c ∷ t)) (opened done bytes)
      ≡ split_bytes t (opened done (bytes ++ c ∷ []))
unfolding split_bytes
split_bytes-escaped c t done bytes special = rw special refl

split_byte-inside :
    (c : ℕ) (done : List Text) (bytes : Text)
    → (c == double_quote) ≡ false
    → split_byte c (opened done bytes) ≡ opened done (bytes ++ c ∷ [])
unfolding split_byte
split_byte-inside c done bytes other = rw other refl

inside_quotes :
    (a u bytes : Text) (done : List Text)
    → split_bytes (escaped a ++ double_quote ∷ u) (opened done bytes)
      ≡ split_bytes (double_quote ∷ u) (opened done (bytes ++ a))
unfolding escaped
inside_quotes [] u bytes done = rw (append-nil bytes) refl
inside_quotes (c ∷ cs) u bytes done =
    let more : bytes ++ c ∷ cs ≡ (bytes ++ c ∷ []) ++ cs = sym (append_assoc bytes (c ∷ []) cs) in
    elim (Bool-cases (c == double_quote || c == backslash)) [
      | inl special ↦
          rw (special, more)
            (split_bytes-escaped c (escaped cs ++ double_quote ∷ u) done bytes special
              ∙ inside_quotes cs u (bytes ++ c ∷ []) done)
      | inr plain ↦
          rw (plain, more)
            (split_bytes-plain c double_quote (escaped cs) u (opened done bytes) (ground arith)
              ∙ (ap (split_bytes (escaped cs ++ double_quote ∷ u))
                    (split_byte-inside c done bytes (ground arith))
                  ∙ inside_quotes cs u (bytes ++ c ∷ []) done))
    ]

-- The closing quote and the space behind it end the argument.
closing_quote :
    (u a : Text) (done : List Text)
    → split_bytes (double_quote ∷ (32 ∷ u)) (opened done a)
      ≡ split_bytes u (closed (done ++ a ∷ []))
unfolding split_bytes split_byte is_blank
closing_quote [] a done = refl
closing_quote (d ∷ u) a done = refl

opening_quote : (done : List Text) → split_byte double_quote (closed done) ≡ opened done []
unfolding split_byte is_blank
opening_quote done = refl

quoted_lem :
    (arguments done : List Text)
    → split_bytes (quoted_all arguments) (closed done) ≡ closed (done ++ arguments)
unfolding split_bytes
quoted_lem [] done = rw (append-nil done) refl
quoted_lem (a ∷ rest) done =
    let u = 32 ∷ quoted_all rest in
    split_bytes-plain double_quote double_quote (escaped a) u (closed done) refl
    ∙ (ap (split_bytes (escaped a ++ double_quote ∷ u)) (opening_quote done)
        ∙ (inside_quotes a u [] done
            ∙ (closing_quote (quoted_all rest) a done
                ∙ (quoted_lem rest (done ++ a ∷ [])
                    ∙ ap closed (append_assoc done (a ∷ []) rest)))))

-- Arguments that are each put in double quotes, `"` and `\` with a backslash in front, are read back,
-- whatever they hold.
pub split_arguments-quoted_all :
    (arguments : List Text) → split_arguments (quoted_all arguments) ≡ some arguments
unfolding split_arguments split_end
split_arguments-quoted_all arguments = rw (quoted_lem arguments []) refl
