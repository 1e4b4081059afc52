-- ===== src/State/Ops.antt =====
-- internal/state/state.go: the operations that change the state. Each holds the lock from its first
-- read to its last write, so each is one step.
use go_boxcopy.Base.{
  ℕ, ◌+◌, ◌%◌, ◌^◌, String, Bool, true, false, not, ◌&&◌, ◌||◌, List, [], ◌∷◌, none, some, ltb,
  ◌==◌, nat_eq, string_eq, if◌then◌else◌,
}
use go_boxcopy.Base.Assoc.{lookup, insert}
use go_boxcopy.State.UidSet.{add}
use go_boxcopy.State.Data.{
  Time, zero_time, FolderState, MailboxState, State, empty_folder, empty_mailbox,
}

-- `ms.F = v` through a pointer that the map of mailboxes holds.
abbrev pub write_mailbox : State → String → MailboxState → State
write_mailbox s mailbox ms = record s { mailboxes = insert mailbox ms s.mailboxes }

-- `fs.F = v` through a pointer that the map of folders holds.
unfoldable pub write_folder : State → String → String → FolderState → State
write_folder s mailbox folder fs = elim (lookup mailbox s.mailboxes) [
  | none ↦ s
  | some ms ↦ write_mailbox s mailbox (record ms { folders = insert folder fs ms.folders })
]

unfoldable pub get_or_create_mailbox : State → String → State × MailboxState
get_or_create_mailbox s name = elim (lookup name s.mailboxes) [
  | some ms ↦ (s, ms)
  | none ↦ (
    record s { mailboxes = insert name (empty_mailbox name) s.mailboxes; dirty = true },
    empty_mailbox name,
  )
]

unfoldable pub get_or_create_folder : State → String → String → State × FolderState
unfolding get_or_create_mailbox
get_or_create_folder s mailbox folder =
    let (s', ms) = get_or_create_mailbox s mailbox in
    elim (lookup folder ms.folders) [
      | some fs ↦ (s', fs)
      | none ↦ (
        record (write_mailbox s' mailbox
            (record ms { folders = insert folder (empty_folder folder) ms.folders })) {
              dirty = true;
            },
        empty_folder folder,
      )
    ]

unfoldable pub set_uid_validity : State → String → String → ℕ → State × Bool
set_uid_validity s mailbox folder validity =
    let (s', fs) = get_or_create_folder s mailbox folder in
    if fs.uid_validity == validity
    then (s', false)
    else let changed = not (fs.uid_validity == 0) && not (fs.uid_validity == validity) in
      let fs' = record fs { uid_validity = validity } in
      let fs'' =
        if changed
        then record fs' { synced_uids = []; highest_uid = 0; last_sync = zero_time }
        else fs' in
      (record (write_folder s' mailbox folder fs'') { dirty = true }, changed)

-- The body of both loops that record a UID.
unfoldable pub mark : FolderState → ℕ → FolderState
mark fs uid = record fs {
  synced_uids = add fs.synced_uids uid;
  highest_uid = if ltb fs.highest_uid uid then uid else fs.highest_uid;
}

unfoldable pub mark_synced : State → String → String → ℕ → State × Bool
mark_synced s mailbox folder uid =
    if uid == 0
    then (s, false)
    else let (s', fs) = get_or_create_folder s mailbox folder in
      (record (write_folder s' mailbox folder (mark fs uid)) { dirty = true }, true)

unfoldable pub mark_all : FolderState → List ℕ → FolderState
mark_all fs [] = fs
mark_all fs (uid ∷ uids) = mark_all (if uid == 0 then fs else mark fs uid) uids

unfoldable pub mark_multiple_synced : State → String → String → List ℕ → State
mark_multiple_synced s mailbox folder [] = s
mark_multiple_synced s mailbox folder (uid ∷ uids) =
    let (s', fs) = get_or_create_folder s mailbox folder in
    record (write_folder s' mailbox folder (mark_all fs (uid ∷ uids))) { dirty = true }

-- The map is never nil here: it is made with its folder, and a nil map from a file is replaced.
unfoldable pub set_uid_mapping : State → String → String → ℕ → ℕ → State
set_uid_mapping s mailbox folder source_uid target_uid =
    if source_uid == 0 || target_uid == 0
    then s
    else let (s', fs) = get_or_create_folder s mailbox folder in
      let fs' = record fs { uid_map = insert source_uid target_uid fs.uid_map } in
      record (write_folder s' mailbox folder fs') { dirty = true }

-- `ms.LastSync = now; ms.SyncCount++`
abbrev pub touch_mailbox : MailboxState → Time → MailboxState
touch_mailbox ms now = record ms { last_sync = now; sync_count = (ms.sync_count + 1) % 2 ^ 64 }

unfoldable pub update_last_sync : State → String → String → Time → State
update_last_sync s mailbox folder now =
    let (s', fs) = get_or_create_folder s mailbox folder in
    let s'' = write_folder s' mailbox folder (record fs { last_sync = now }) in
    elim (lookup mailbox s''.mailboxes) [
      | none ↦ record s'' { dirty = true }
      | some ms ↦ record (write_mailbox s'' mailbox (touch_mailbox ms now)) { dirty = true }
    ]

unfoldable pub update_mailbox_last_sync : State → String → Time → State
update_mailbox_last_sync s mailbox now =
    let (s', ms) = get_or_create_mailbox s mailbox in
    record (write_mailbox s' mailbox (touch_mailbox ms now)) { dirty = true }

unfoldable pub clear_folder : State → String → String → State
clear_folder s mailbox folder = elim (lookup mailbox s.mailboxes) [
  | none ↦ s
  | some ms ↦ elim (lookup folder ms.folders) [
    | none ↦ s
    | some fs ↦
        let fs' = record fs {
          synced_uids = [];
          uid_map = [];
          highest_uid = 0;
          last_sync = zero_time;
          uid_validity = 0;
        } in
        record (write_folder s mailbox folder fs') { dirty = true }
  ]
]

unfoldable pub clear_mailbox : State → String → State
clear_mailbox s mailbox = elim (lookup mailbox s.mailboxes) [
  | none ↦ s
  | some _ ↦ record (write_mailbox s mailbox (empty_mailbox mailbox)) { dirty = true }
]
