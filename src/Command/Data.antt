-- ===== src/Command/Data.antt =====
-- cmd/boxcopy/main.go: the flags of the commands, as the package flag parses them, and the file system
-- that they work on.
use go_boxcopy.Base.{ℕ, String, Bool, List, Option}
use go_boxcopy.Base.Assoc.{Assoc}
use go_boxcopy.Base.Errors.{Error}
use go_boxcopy.Store.Ops.{Content, Disk}

pub record CopyFlags : Type 0 where
  pub config : String
  pub key : String
  pub perform : Bool

pub record VerifyFlags : Type 0 where
  pub config : String
  pub key : String

pub record InitFlags : Type 0 where
  pub output : String
  pub force : Bool

-- A parse that fails, or is asked for help, ends the program with a code of the package's.
pub data Parsed {ℓ} (A : Type ℓ) : Type ℓ where
  parsed : A → Parsed A
  exits : ℕ → Parsed A

pub record FlagSets : Type 0 where
  pub copy_flags : List String → Parsed CopyFlags
  pub verify_flags : List String → Parsed VerifyFlags
  pub encrypt_key : List String → Parsed String
  pub init_flags : List String → Parsed InitFlags

-- The file system: the disk that the state file lives on too, and the modes of the files.
pub record Files : Type 0 where
  pub disk : Disk
  pub modes : Assoc String ℕ

-- The failures of the system calls of `init`, and what a write that fails leaves in the file; a stat
-- fails besides where there is no file.
pub record InitFaults : Type 0 where
  pub stat_error : Option Error
  pub mkdir_error : Option Error
  pub write_error : Option Error
  pub written : Option Content
