-- ===== src/Store/Ops.antt =====
-- internal/state/store.go: `Load`, `Save`, `SaveIfDirty` and `Stats`, over a disk whose system
-- calls may fail.
use go_boxcopy.Base.{
  ℕ, ◌+◌, String, Bool, false, not, List, [], ◌∷◌, Option, none, some, ltb, length, string_eq,
  if◌then◌else◌,
}
use go_boxcopy.Base.Assoc.{Assoc, lookup, insert}
use go_boxcopy.Base.Errors.{Error, errorf, wrapf, external, num, Result, ok, err}
use go_boxcopy.State.UidSet.{len}
use go_boxcopy.State.Data.{Time, zero_time, FolderState, MailboxState, State, new}
use go_boxcopy.Store.Disk.{remove, rename, temp_path}
use go_boxcopy.Store.File.{StateFile, current_version, marshal, unmarshal}

-- What the bytes of a file hold: a document, a text that is none, such as a configuration, or
-- anything else that cannot be parsed. A write that fails may leave part of its content.
pub data Content : Type 0 where
  document : StateFile → Content
  plain : String → Content
  garbage : Content

abbrev pub Disk : Type 0
Disk = Assoc String Content

-- The failures of one load or save, of the encoder and the system calls, and what they leave behind.
pub record Faults : Type 0 where
  pub stuck : Bool
  pub read_error : Option Error
  pub marshal_error : Option Error
  pub mkdir_error : Option Error
  pub write_error : Option Error
  pub written : Option Content
  pub rename_error : Option Error

-- os.Remove with its error ignored: a stuck file stays.
abbrev pub try_remove : Faults → String → Disk → Disk
try_remove faults path disk = if faults.stuck then disk else remove path disk

pub data Loaded : Type 0 where
  loaded : State → Loaded
  failed : Error → Loaded
  panicked : Loaded

unfoldable pub load_document : String → StateFile → Loaded
load_document path file =
    if ltb current_version file.version
    then failed (
        errorf "state file version %d is newer than supported version %d"
          (num file.version ∷ num current_version ∷ []))
    else elim (unmarshal file) [
      | none ↦ panicked
      | some mailboxes ↦ loaded (record { path = path; mailboxes = mailboxes; dirty = false })
    ]

unfoldable pub load_content : String → Option Content → Loaded
unfolding load_document
load_content path none = loaded (new path)
load_content path (some garbage) =
    failed (wrapf "failed to parse state file: %w" [] (external "json"))
load_content path (some (plain text)) =
    failed (wrapf "failed to parse state file: %w" [] (external "json"))
load_content path (some (document file)) = load_document path file

unfoldable pub load : String → Faults → Disk → Loaded × Disk
unfolding load_content
load path faults disk =
    let disk' = try_remove faults (temp_path path) disk in
    elim faults.read_error [
      | some e ↦ (failed (wrapf "failed to read state file: %w" [] e), disk')
      | none ↦ (load_content path (lookup path disk'), disk')
    ]

-- The outcome of a save, with the disk after each system call, the last one first.
pub record Saved : Type 0 where
  pub result : Result (Unit {0})
  pub state : State
  pub disks : List Disk

unfoldable pub final : Disk → Saved → Disk
final disk saved = elim saved.disks [ [] ↦ disk | d ∷ _ ↦ d ]

-- The temporary file after a write that failed.
abbrev pub leave : String → Option Content → Disk → Disk
leave temp none disk = disk
leave temp (some c) disk = insert temp c disk

unfoldable pub save_unlocked : State → Time → Faults → Disk → Saved
save_unlocked s now faults disk =
    let temp = temp_path s.path in
    let written = insert temp (document (marshal s now)) disk in
    elim faults.marshal_error [
      | some e ↦ record {
        result = err (wrapf "failed to serialize state: %w" [] e);
        state = s;
        disks = [];
      }
      | none ↦ elim faults.mkdir_error [
        | some e ↦ record {
          result = err (wrapf "failed to create state directory: %w" [] e);
          state = s;
          disks = [];
        }
        | none ↦ elim faults.write_error [
          | some e ↦ record {
            result = err (wrapf "failed to write state file: %w" [] e);
            state = s;
            disks = leave temp faults.written disk ∷ [];
          }
          | none ↦ elim faults.rename_error [
            | some e ↦ record {
              result = err (wrapf "failed to save state file: %w" [] e);
              state = s;
              disks = try_remove faults temp written ∷ written ∷ [];
            }
            | none ↦ record {
              result = ok tt;
              state = record s { dirty = false };
              disks = rename temp s.path written ∷ written ∷ [];
            }
          ]
        ]
      ]
    ]

unfoldable pub save : State → Time → Faults → Disk → Saved
unfolding save_unlocked
save s now faults disk = save_unlocked s now faults disk

unfoldable pub save_if_dirty : State → Time → Faults → Disk → Saved
unfolding save_unlocked
save_if_dirty s now faults disk =
    if not s.dirty
    then record { result = ok tt; state = s; disks = [] }
    else save_unlocked s now faults disk

pub record Stats : Type 0 where
  pub mailbox_count : ℕ
  pub folder_count : ℕ
  pub total_synced_uids : ℕ
  pub last_updated : Time

-- The loop over the folders of a mailbox: the UIDs synced, and the latest of `latest` and the
-- folders' syncs.
unfoldable pub folder_stats : Assoc String FolderState → Stats → Stats
folder_stats [] st = st
folder_stats ((_, fs) ∷ folders) st = folder_stats folders (record st {
  total_synced_uids = st.total_synced_uids + len fs.synced_uids;
  last_updated = if ltb st.last_updated fs.last_sync then fs.last_sync else st.last_updated;
})

unfoldable pub mailbox_stats : Assoc String MailboxState → Stats → Stats
mailbox_stats [] st = st
mailbox_stats ((_, ms) ∷ mailboxes) st =
    mailbox_stats mailboxes
      (folder_stats ms.folders (record st { folder_count = st.folder_count + length ms.folders }))

unfoldable pub stats : State → Stats
stats s = mailbox_stats s.mailboxes (record {
  mailbox_count = length s.mailboxes;
  folder_count = 0;
  total_synced_uids = 0;
  last_updated = zero_time;
})
