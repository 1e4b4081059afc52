-- ===== src/Mailbox/Status.antt =====
-- internal/mailbox/mailbox.go: `Status`, what the methods show of a mailbox.
use go_boxcopy.Base.{ℕ, String, Bool, true, false, Option, none, some}
use go_boxcopy.Base.Errors.{Error}
use go_boxcopy.State.Data.{Time}
use go_boxcopy.Mailbox.Data.{Status, Job, Mailbox}

pub record StatusInfo : Type 0 where
  pub name : String
  pub status : Status
  pub last_error : Option Error
  pub last_sync : Time
  pub sync_count : ℕ
  pub folders_created : ℕ
  pub messages_copied : ℕ
  pub messages_skipped : ℕ
  pub bytes_copied : ℕ
  pub is_connected : Bool

unfoldable pub status_info : {Conn : Type 0} → Job → Mailbox Conn → StatusInfo
status_info job m = record {
  name = job.config.name;
  status = m.status;
  last_error = m.last_error;
  last_sync = m.last_sync;
  sync_count = m.sync_count;
  folders_created = m.folders_created;
  messages_copied = m.messages_copied;
  messages_skipped = m.messages_skipped;
  bytes_copied = m.bytes_copied;
  is_connected = elim m.source_client [
    | none ↦ false
    | some _ ↦ elim m.target_client [ none ↦ false | some _ ↦ true ]
  ];
}
