-- ===== src/State/Dirty.antt =====
-- The dirty flag, by which `SaveIfDirty` decides.
use go_boxcopy.Base.{String, ◌≡◌, refl, false, [], ◌∷◌, inl, inr, arith, string_eq, Option-cases}
use go_boxcopy.Base.Assoc.{lookup}
use go_boxcopy.State.Data.{State}
use go_boxcopy.State.Ops.{
  get_or_create_mailbox, get_or_create_folder, set_uid_validity, mark_synced, mark_multiple_synced,
  set_uid_mapping, update_last_sync, update_mailbox_last_sync, clear_folder, clear_mailbox,
}
use go_boxcopy.State.Calls.{Call, gets_folder, sets_validity, marks_multiple, apply}

get_or_create_folder_clean :
    (s : State) (m f : String)
    → (get_or_create_folder s m f).0.dirty ≡ false
    → (get_or_create_folder s m f).0 ≡ s
unfolding get_or_create_folder
get_or_create_folder_clean s m f h = elim (Option-cases (lookup m s.mailboxes)) [
  | inl e ↦ absurd (ground arith)
  | inr (ms, e) ↦ ground arith
]

-- A call that leaves the flag off has changed nothing at all, so no change is lost by a save that
-- is skipped.
pub apply_clean :
    (s : State) (m : String) (c : Call) → (apply s m c).dirty ≡ false → apply s m c ≡ s
unfolding apply get_or_create_mailbox set_uid_validity mark_synced mark_multiple_synced
    set_uid_mapping update_last_sync update_mailbox_last_sync clear_folder clear_mailbox
apply_clean s m (gets_folder f) h = get_or_create_folder_clean s m f h
apply_clean s m (sets_validity f v) h = ground (arith, get_or_create_folder_clean s m f)
apply_clean s m (marks_multiple f []) h = refl
apply_clean s m (marks_multiple f (uid ∷ uids)) h = cc
apply_clean s m _ h = ground arith
