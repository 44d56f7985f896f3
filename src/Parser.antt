-- ===== src/Parser.antt =====
-- manager/include/ConfigParser.hpp and manager/src/ConfigParser.cpp: the configuration file. A failure
-- ends the parse, so a step returns either its error or the state after it. What a path means to the
-- operating system is a parameter, `Paths`.
pub mod Settings
pub mod Lexing
pub mod Values
pub mod Keys
pub mod ServiceKeys
pub mod Sections
pub mod Cycles
pub mod Files
pub mod Marks
pub mod Acyclic
pub mod Outcome
pub mod Bounds
pub mod Limits
pub mod Distinct
pub mod Valid
pub mod Validated
pub mod Arguments
pub mod Numbers
use improved_process_manager.Base.{ℕ, Bool, Text}

pub data ConfigCode : Type 0 where
  ok unreadable syntax unknown_section unknown_key duplicate_key invalid_value missing_value :
      ConfigCode
  invalid_name duplicate_service unknown_dependency dependency_cycle : ConfigCode

pub record ConfigError : Type 0 where
  pub code : ConfigCode
  pub line : ℕ
  pub message : Text

-- `ConfigCode::Ok` with what was read, or the error that `Fail` writes.
pub data Parsed {ℓ} (A : Type ℓ) : Type ℓ where
  failed : ConfigError → Parsed A
  parsed : A → Parsed A

infixl 1 ◌>>=◌
abbrev pub ◌>>=◌ {ℓ κ} : {A : Type ℓ} {B : Type κ} → Parsed A → (A → Parsed B) → Parsed B
failed error >>= f = failed error
parsed a >>= f = f a

abbrev pub fail {ℓ} : {A : Type ℓ} → ConfigCode → ℕ → Text → Parsed A
fail code line message = failed (record { code = code; line = line; message = message })

-- `std::filesystem::path`, which differs between the operating systems.
pub record Paths : Type 0 where
  pub is_absolute : Text → Bool
  pub has_root_directory : Text → Bool
