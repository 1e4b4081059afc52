-- ===== src/Config/Host.antt =====
-- The interface to what the configuration is read from: the file system with its rules for paths,
-- and the TOML library, which is not part of the repository.
use go_boxcopy.Base.{ℕ, String, Bool, List, Option}
use go_boxcopy.Base.Int.{ℤ}
use go_boxcopy.Base.Errors.{Result}

-- A section of a document. The program asks only whether a value is there.
pub record Section : Type 0 where
  pub get_string : String → Option String
  pub get_int : String → Option ℤ
  pub get_bool : String → Option Bool

pub record Document : Type 0 where
  pub section : String → Option Section
  pub table_array : String → Option (List Section)

pub record Host : Type 0 where
  -- os.UserHomeDir, and the permission bits of os.Stat
  pub home : Option String
  pub stat : String → Result ℕ
  -- filepath.Abs, Dir, IsAbs and Join
  pub abs : String → Result String
  pub dir : String → String
  pub is_abs : String → Bool
  pub join : String → String → String
  -- toml.Parse of a file, and toml.ParseString
  pub parse : String → Result Document
  pub parse_string : String → Result Document
