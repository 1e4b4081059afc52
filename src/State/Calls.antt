-- ===== src/State/Calls.antt =====
-- The calls that change the state as data, and what each does to its mailbox alone. Workers copy
-- mailboxes in parallel over one state; its lock makes any run a sequence of such calls.
use go_boxcopy.Base.{
  ℕ, String, ◌≡◌, ◌||◌, List, [], ◌∷◌, none, some, arith, ◌==◌, Option-cases, inl, inr, string_eq,
  nat_eq, if◌then◌else◌,
}
use go_boxcopy.Base.Assoc.{lookup, insert, lookup-insert}
use go_boxcopy.State.Data.{Time, zero_time, FolderState, MailboxState, State, empty_mailbox}
use go_boxcopy.State.Ops.{
  write_folder, get_or_create_mailbox, get_or_create_folder, set_uid_validity, mark, mark_synced,
  mark_all, mark_multiple_synced, set_uid_mapping, touch_mailbox, update_last_sync,
  update_mailbox_last_sync, clear_folder, clear_mailbox,
}
use go_boxcopy.State.View.{
  mailbox_at, folder_in, put_folder, folder_at, mailbox_at-write_mailbox,
  mailbox_at-get_or_create_mailbox, get_or_create_mailbox_lem, get_or_create_folder_lem,
  mailbox_at-get_or_create_folder, mailbox_at-write_folder, write_folder_found,
}

-- The calls on one mailbox, by the names of the methods.
pub data Call : Type 0 where
  gets_mailbox : Call
  gets_folder : String → Call
  sets_validity : String → ℕ → Call
  marks : String → ℕ → Call
  marks_multiple : String → List ℕ → Call
  maps_uid : String → ℕ → ℕ → Call
  syncs_folder : String → Time → Call
  syncs_mailbox : Time → Call
  clears_folder : String → Call
  clears_mailbox : Call

unfoldable pub apply : State → String → Call → State
apply s m gets_mailbox = (get_or_create_mailbox s m).0
apply s m (gets_folder f) = (get_or_create_folder s m f).0
apply s m (sets_validity f v) = (set_uid_validity s m f v).0
apply s m (marks f uid) = (mark_synced s m f uid).0
apply s m (marks_multiple f uids) = mark_multiple_synced s m f uids
apply s m (maps_uid f source target) = set_uid_mapping s m f source target
apply s m (syncs_folder f now) = update_last_sync s m f now
apply s m (syncs_mailbox now) = update_mailbox_last_sync s m now
apply s m (clears_folder f) = clear_folder s m f
apply s m clears_mailbox = clear_mailbox s m

unfoldable pub with_validity : FolderState → ℕ → FolderState
with_validity fs v =
    if fs.uid_validity == v
    then fs
    else if fs.uid_validity == 0
    then record fs { uid_validity = v }
    else record fs { uid_validity = v; synced_uids = []; highest_uid = 0; last_sync = zero_time }

abbrev pub cleared : FolderState → FolderState
cleared fs = record fs {
  synced_uids = [];
  uid_map = [];
  highest_uid = 0;
  last_sync = zero_time;
  uid_validity = 0;
}

-- What a call makes of the state of the mailbox `m`.
unfoldable pub act : String → MailboxState → Call → MailboxState
act m ms gets_mailbox = ms
act m ms (gets_folder f) = put_folder ms f (folder_in ms f)
act m ms (sets_validity f v) = put_folder ms f (with_validity (folder_in ms f) v)
act m ms (marks f uid) = if uid == 0 then ms else put_folder ms f (mark (folder_in ms f) uid)
act m ms (marks_multiple f []) = ms
act m ms (marks_multiple f (uid ∷ uids)) = put_folder ms f (mark_all (folder_in ms f) (uid ∷ uids))
act m ms (maps_uid f source target) =
    let fs = folder_in ms f in
    if source == 0 || target == 0
    then ms
    else put_folder ms f (record fs { uid_map = insert source target fs.uid_map })
act m ms (syncs_folder f now) =
    let fs = folder_in ms f in touch_mailbox (put_folder ms f (record fs { last_sync = now })) now
act m ms (syncs_mailbox now) = touch_mailbox ms now
act m ms (clears_folder f) = elim (lookup f ms.folders) [
  | none ↦ ms
  | some fs ↦ put_folder ms f (cleared fs)
]
act m ms clears_mailbox = empty_mailbox m

module _ (s : State) (m n : String) where
  abbrev Updates : State → MailboxState → Type 0
  Updates t ms = mailbox_at t n ≡ (if m == n then ms else mailbox_at s n)

  set_uid_validity-Updates :
      (f : String) (v : ℕ)
      → Updates
          (set_uid_validity s m f v).0
          (put_folder (mailbox_at s m) f (with_validity (folder_at s m f) v))
  unfolding set_uid_validity with_validity mailbox_at
  set_uid_validity-Updates f v = ground (
    arith,
    get_or_create_folder_lem s m f,
    mailbox_at-get_or_create_folder s m f n,
    mailbox_at-write_folder s m f (with_validity (folder_at s m f) v) n,
  )

  mark_synced-Updates :
      (f : String) (uid : ℕ)
      → Updates (mark_synced s m f uid).0 (act m (mailbox_at s m) (marks f uid))
  unfolding mark_synced act mailbox_at
  mark_synced-Updates f uid = ground (
    arith,
    string_eq.beq_iff m n,
    get_or_create_folder_lem s m f,
    mailbox_at-write_folder s m f (mark (folder_at s m f) uid) n,
  )

  mark_multiple_synced-Updates :
      (f : String) (uids : List ℕ)
      → Updates (mark_multiple_synced s m f uids) (act m (mailbox_at s m) (marks_multiple f uids))
  unfolding mark_multiple_synced act mailbox_at
  mark_multiple_synced-Updates f [] = ground (arith, string_eq.beq_iff m n)
  mark_multiple_synced-Updates f (uid ∷ uids) = ground (
    arith,
    get_or_create_folder_lem s m f,
    mailbox_at-write_folder s m f (mark_all (folder_at s m f) (uid ∷ uids)) n,
  )

  set_uid_mapping-Updates :
      (f : String) (source target : ℕ)
      → Updates
          (set_uid_mapping s m f source target)
          (act m (mailbox_at s m) (maps_uid f source target))
  unfolding set_uid_mapping act mailbox_at
  set_uid_mapping-Updates f source target = ground (
    arith,
    string_eq.beq_iff m n,
    get_or_create_folder_lem s m f,
    mailbox_at-write_folder s m f
        (record (folder_at s m f) { uid_map = insert source target (folder_at s m f).uid_map }) n,
  )

  update_mailbox_last_sync-Updates :
      (now : Time) → Updates (update_mailbox_last_sync s m now) (touch_mailbox (mailbox_at s m) now)
  unfolding update_mailbox_last_sync mailbox_at
  update_mailbox_last_sync-Updates now = ground (
    arith,
    get_or_create_mailbox_lem s m,
    mailbox_at-get_or_create_mailbox s m n,
    mailbox_at-write_mailbox (get_or_create_mailbox s m).0 m n (touch_mailbox (mailbox_at s m) now),
  )

  clear_mailbox-Updates : Updates (clear_mailbox s m) (empty_mailbox m)
  unfolding clear_mailbox mailbox_at
  clear_mailbox-Updates =
      ground (arith, string_eq.beq_iff m n, lookup-insert m n (empty_mailbox m) s.mailboxes)

  clear_folder-Updates :
      (f : String) → Updates (clear_folder s m f) (act m (mailbox_at s m) (clears_folder f))
  unfolding clear_folder act write_folder mailbox_at lookup
  clear_folder-Updates f = elim (Option-cases (lookup m s.mailboxes)) [
    | inl e ↦ ground (arith, string_eq.beq_iff m n)
    | inr (ms, e) ↦ elim (Option-cases (lookup f ms.folders)) [
      | inl e' ↦ ground (arith, string_eq.beq_iff m n)
      | inr (fs, e') ↦ ground (arith, lookup-insert m n (put_folder ms f (cleared fs)) s.mailboxes)
    ]
  ]

  update_last_sync-Updates :
      (f : String) (now : Time)
      → Updates (update_last_sync s m f now) (act m (mailbox_at s m) (syncs_folder f now))
  unfolding update_last_sync act mailbox_at
  update_last_sync-Updates f now =
      let fs = record (folder_at s m f) { last_sync = now } in
      ground (
        arith,
        get_or_create_folder_lem s m f,
        write_folder_found s m f fs,
        mailbox_at-write_folder s m f fs n,
        mailbox_at-write_mailbox (write_folder (get_or_create_folder s m f).0 m f fs) m n
            (touch_mailbox (put_folder (mailbox_at s m) f fs) now),
      )

-- Each call changes its own mailbox, by a function of that mailbox, and no other.
pub mailbox_at-apply :
    (s : State) (m n : String) (c : Call)
    → mailbox_at (apply s m c) n ≡ (if m == n then act m (mailbox_at s m) c else mailbox_at s n)
unfolding apply act
mailbox_at-apply s m n gets_mailbox =
    ground (arith, mailbox_at-get_or_create_mailbox s m n, string_eq.beq_iff m n)
mailbox_at-apply s m n (gets_folder f) = mailbox_at-get_or_create_folder s m f n
mailbox_at-apply s m n (sets_validity f v) = set_uid_validity-Updates s m n f v
mailbox_at-apply s m n (marks f uid) = mark_synced-Updates s m n f uid
mailbox_at-apply s m n (marks_multiple f uids) = mark_multiple_synced-Updates s m n f uids
mailbox_at-apply s m n (maps_uid f source target) = set_uid_mapping-Updates s m n f source target
mailbox_at-apply s m n (syncs_folder f now) = update_last_sync-Updates s m n f now
mailbox_at-apply s m n (syncs_mailbox now) = update_mailbox_last_sync-Updates s m n now
mailbox_at-apply s m n (clears_folder f) = clear_folder-Updates s m n f
mailbox_at-apply s m n clears_mailbox = clear_mailbox-Updates s m n
