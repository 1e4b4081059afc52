-- ===== src/State/Paths.antt =====
-- internal/state/state.go: no call moves the state to another file.
use go_boxcopy.Base.{ℕ, String, ◌≡◌, refl, List, [], ◌∷◌, arith, ◌∙◌, nat_eq, string_eq}
use go_boxcopy.State.Data.{Time, FolderState, State}
use go_boxcopy.State.Ops.{
  write_folder, get_or_create_mailbox, get_or_create_folder, set_uid_validity, mark_synced,
  mark_multiple_synced, set_uid_mapping, update_last_sync, update_mailbox_last_sync, clear_folder,
  clear_mailbox,
}
use go_boxcopy.State.Calls.{
  Call, gets_mailbox, gets_folder, sets_validity, marks, marks_multiple, maps_uid, syncs_folder,
  syncs_mailbox, clears_folder, clears_mailbox, apply,
}

module _ (s : State) (m : String) where
  path-get_or_create_mailbox : (get_or_create_mailbox s m).0.path ≡ s.path
  unfolding get_or_create_mailbox
  path-get_or_create_mailbox = ground arith

  path-write_folder : (f : String) (fs : FolderState) → (write_folder s m f fs).path ≡ s.path
  unfolding write_folder
  path-write_folder f fs = ground arith

  path-get_or_create_folder : (f : String) → (get_or_create_folder s m f).0.path ≡ s.path
  unfolding get_or_create_folder
  path-get_or_create_folder f = ground (arith, path-get_or_create_mailbox)

-- A write to the folder that was just found or created.
path-write_created :
    (s : State) (m f : String) (fs : FolderState)
    → (write_folder (get_or_create_folder s m f).0 m f fs).path ≡ s.path
path-write_created s m f fs =
    path-write_folder (get_or_create_folder s m f).0 m f fs ∙ path-get_or_create_folder s m f

module _ (s : State) (m : String) where
  path-set_uid_validity : (f : String) (v : ℕ) → ((set_uid_validity s m f v).0).path ≡ s.path
  unfolding set_uid_validity
  path-set_uid_validity f v = grind (arith, path-write_created, path-get_or_create_folder)

  path-mark_synced : (f : String) (uid : ℕ) → ((mark_synced s m f uid).0).path ≡ s.path
  unfolding mark_synced
  path-mark_synced f uid = grind (arith, path-write_created, path-get_or_create_folder)

  path-mark_multiple_synced :
      (f : String) (uids : List ℕ) → (mark_multiple_synced s m f uids).path ≡ s.path
  unfolding mark_multiple_synced
  path-mark_multiple_synced f [] = refl
  path-mark_multiple_synced f (uid ∷ uids) = path-write_created s m f _

  path-set_uid_mapping :
      (f : String) (source target : ℕ) → (set_uid_mapping s m f source target).path ≡ s.path
  unfolding set_uid_mapping
  path-set_uid_mapping f source target =
      grind (arith, path-write_created, path-get_or_create_folder)

  path-update_last_sync : (f : String) (now : Time) → (update_last_sync s m f now).path ≡ s.path
  unfolding update_last_sync
  path-update_last_sync f now = grind (arith, path-write_created, path-get_or_create_folder)

  path-update_mailbox_last_sync : (now : Time) → (update_mailbox_last_sync s m now).path ≡ s.path
  unfolding update_mailbox_last_sync
  path-update_mailbox_last_sync now = ground (arith, path-get_or_create_mailbox s m)

  path-clear_folder : (f : String) → (clear_folder s m f).path ≡ s.path
  unfolding clear_folder
  path-clear_folder f = grind (arith, path-write_folder)

  pub path-clear_mailbox : (clear_mailbox s m).path ≡ s.path
  unfolding clear_mailbox
  path-clear_mailbox = ground arith

  -- A call stays with the file of its state.
  pub path-apply : (c : Call) → (apply s m c).path ≡ s.path
  unfolding apply
  path-apply gets_mailbox = path-get_or_create_mailbox s m
  path-apply (gets_folder f) = path-get_or_create_folder s m f
  path-apply (sets_validity f v) = path-set_uid_validity f v
  path-apply (marks f uid) = path-mark_synced f uid
  path-apply (marks_multiple f uids) = path-mark_multiple_synced f uids
  path-apply (maps_uid f source target) = path-set_uid_mapping f source target
  path-apply (syncs_folder f now) = path-update_last_sync f now
  path-apply (syncs_mailbox now) = path-update_mailbox_last_sync now
  path-apply (clears_folder f) = path-clear_folder f
  path-apply clears_mailbox = path-clear_mailbox
