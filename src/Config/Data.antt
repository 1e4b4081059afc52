-- ===== src/Config/Data.antt =====
-- internal/config/config.go: the records.
use go_boxcopy.Base.{String, Bool, List}
use go_boxcopy.Base.Int.{ℤ}

pub record GeneralConfig : Type 0 where
  pub state_file : String
  pub log_level : String
  pub progress : ℤ

pub record CopyParameters : Type 0 where
  pub messages_per_second : ℤ
  pub max_connections : ℤ

pub record ServerConfig : Type 0 where
  pub host : String
  pub port : ℤ
  pub tls : Bool

pub record MailboxConfig : Type 0 where
  pub name : String
  pub source_user : String
  pub source_password : String
  pub target_user : String
  pub target_password : String

pub record Config : Type 0 where
  pub general : GeneralConfig
  pub copy_param : CopyParameters
  pub source : ServerConfig
  pub target : ServerConfig
  pub mailboxes : List MailboxConfig
