-- ===== src/State/Data.antt =====
-- internal/state/state.go: the records. Go reaches them through pointers; each is reached from one
-- map entry alone, so a pointer is read and written here through its mailbox and folder names.
use go_boxcopy.Base.{ℕ, String, Bool, false, []}
use go_boxcopy.Base.Assoc.{Assoc}
use go_boxcopy.State.UidSet.{UidSet}

-- An instant; 0 is the zero `time.Time{}`.
abbrev pub Time : Type 0
Time = ℕ

abbrev pub zero_time : Time
zero_time = 0

pub record FolderState : Type 0 where
  pub name : String
  pub uid_validity : ℕ
  pub uid_next : ℕ
  pub last_sync : Time
  pub synced_uids : UidSet
  pub highest_uid : ℕ
  pub message_count : ℕ
  pub uid_map : Assoc ℕ ℕ

-- `sync_count` is the bit pattern of an `int64`.
pub record MailboxState : Type 0 where
  pub name : String
  pub folders : Assoc String FolderState
  pub last_sync : Time
  pub sync_count : ℕ

pub record State : Type 0 where
  pub path : String
  pub mailboxes : Assoc String MailboxState
  pub dirty : Bool

abbrev pub empty_folder : String → FolderState
empty_folder name = record {
  name = name;
  uid_validity = 0;
  uid_next = 0;
  last_sync = zero_time;
  synced_uids = [];
  highest_uid = 0;
  message_count = 0;
  uid_map = [];
}

abbrev pub empty_mailbox : String → MailboxState
empty_mailbox name = record { name = name; folders = []; last_sync = zero_time; sync_count = 0 }

unfoldable pub new : String → State
new path = record { path = path; mailboxes = []; dirty = false }
