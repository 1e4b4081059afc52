-- ===== src/Mailbox/Data.antt =====
-- internal/mailbox/mailbox.go: the state of a mailbox copy. What never changes is the job; what the
-- methods change is the mailbox, beside the sync state that it shares and the world.
use go_boxcopy.Base.{List, ℕ, ◌+◌, ◌%◌, ◌^◌, String, Bool, Option, none, some}
use go_boxcopy.Base.Errors.{Error, wrapf, Arg, ok}
use go_boxcopy.Base.Exec.{Exec, pure, raise, handle}
use go_boxcopy.Config.Data.{ServerConfig, MailboxConfig}
use go_boxcopy.State.Data.{Time, State}
use go_boxcopy.Imap.Api.{Api}
use go_boxcopy.Imap.Client.{Client, Link}

pub data Status : Type 0 where
  idle connecting copying disconnecting error stopped : Status

-- `Status.String`; the type has no other values.
unfoldable pub status_string : Status → String
status_string idle = "idle"
status_string connecting = "connecting"
status_string copying = "copying"
status_string disconnecting = "disconnecting"
status_string error = "error"
status_string stopped = "stopped"

-- `throttled` is whether there is a throttle.
pub record Job : Type 0 where
  pub config : MailboxConfig
  pub source_server : ServerConfig
  pub target_server : ServerConfig
  pub throttled : Bool

-- The counters are the bit patterns of `int64`s.
pub record Mailbox (Conn : Type 0) : Type 0 where
  pub source_client : Option (Client Conn)
  pub target_client : Option (Client Conn)
  pub status : Status
  pub last_error : Option Error
  pub last_sync : Time
  pub sync_count : ℕ
  pub folders_created : ℕ
  pub messages_copied : ℕ
  pub messages_skipped : ℕ
  pub bytes_copied : ℕ

unfoldable pub new_mailbox : {Conn : Type 0} → Mailbox Conn
new_mailbox = record {
  source_client = none;
  target_client = none;
  status = idle;
  last_error = none;
  last_sync = 0;
  sync_count = 0;
  folders_created = 0;
  messages_copied = 0;
  messages_skipped = 0;
  bytes_copied = 0;
}

module _ {Conn : Type 0} where
  abbrev pub set_status : Status → Mailbox Conn → Mailbox Conn
  set_status st m = record m { status = st }

  abbrev pub set_error : Error → Mailbox Conn → Mailbox Conn
  set_error e m = record m { last_error = some e; status = error }

  abbrev pub add_copied : ℕ → ℕ → Mailbox Conn → Mailbox Conn
  add_copied count bytes m = record m {
    messages_copied = (m.messages_copied + count) % 2 ^ 64;
    bytes_copied = (m.bytes_copied + bytes) % 2 ^ 64;
  }

  abbrev pub add_skipped : ℕ → Mailbox Conn → Mailbox Conn
  add_skipped count m = record m { messages_skipped = (m.messages_skipped + count) % 2 ^ 64 }

  abbrev pub add_folders_created : ℕ → Mailbox Conn → Mailbox Conn
  add_folders_created count m = record m { folders_created = (m.folders_created + count) % 2 ^ 64 }

-- A mailbox with both clients connected, while folders are copied.
pub record Session (Conn World : Type 0) : Type 0 where
  pub box : Mailbox Conn
  pub source : Client Conn
  pub target : Client Conn
  pub state : State
  pub world : World

-- A mailbox, the sync state and the world.
pub record Sys (Conn World : Type 0) : Type 0 where
  pub box : Mailbox Conn
  pub state : State
  pub world : World

module _ (api : Api) where
  open api use {World, Conn}

  abbrev pub InSession : Type 0 → Type 0
  InSession A = Exec (Session Conn World) A

  abbrev pub InSys : Type 0 → Type 0
  InSys A = Exec (Sys Conn World) A

  -- m.sourceClient.F() and m.targetClient.F()
  abbrev pub on_source : {A : Type 0} → Exec (Link api) A → InSession A
  on_source f s = let (r, (c, w)) = f (s.source, s.world) in (r, record s { source = c; world = w })

  abbrev pub on_target : {A : Type 0} → Exec (Link api) A → InSession A
  on_target f s = let (r, (c, w)) = f (s.target, s.world) in (r, record s { target = c; world = w })

  abbrev pub update_state : (State → State) → InSession (Unit {0})
  update_state f s = (ok tt, record s { state = f s.state })

  abbrev pub update_box : (Mailbox Conn → Mailbox Conn) → InSession (Unit {0})
  update_box f s = (ok tt, record s { box = f s.box })

-- An error under a new message.
abbrev pub relabeled {ℓ} : {S A : Type ℓ} → String → List Arg → Exec S A → Exec S A
relabeled format args m = handle m pure (λ e. raise (wrapf format args e))
