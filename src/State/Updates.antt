-- ===== src/State/Updates.antt =====
-- The readers as functions of the abstract folder, and the writers as updates of it.
use go_boxcopy.Base.{
  ℕ, String, ◌≡◌, refl, Bool, not, ◌&&◌, ◌||◌, List, [], ◌∷◌, arith, ◌==◌, string_eq, nat_eq,
  contains, length, ap, if◌then◌else◌,
}
use go_boxcopy.Base.Assoc.{lookup, insert}
use go_boxcopy.State.UidSet.{len}
use go_boxcopy.State.Data.{State}
use go_boxcopy.State.Ops.{
  set_uid_validity, mark, mark_synced, mark_all, mark_multiple_synced, set_uid_mapping,
}
use go_boxcopy.State.Reads.{
  get_uid_validity, get_target_uid, is_synced, unsynced, get_unsynced_uids, get_highest_synced_uid,
  get_synced_count,
}
use go_boxcopy.State.Calls.{
  sets_validity, marks, marks_multiple, maps_uid, apply, act, with_validity, mailbox_at-apply,
}
use go_boxcopy.State.View.{mailbox_at, folder_at, folder_in-put_folder, find_folder-folder_in}

-- The readers look at the abstract folder only.
module _ (s : State) (m f : String) where
  pub is_synced_lem : (x : ℕ) → is_synced s m f x ≡ contains (folder_at s m f).synced_uids x
  unfolding is_synced contains
  is_synced_lem x = ground (arith, find_folder-folder_in s m f)

  pub get_uid_validity_lem : get_uid_validity s m f ≡ (folder_at s m f).uid_validity
  unfolding get_uid_validity
  get_uid_validity_lem = ground (arith, find_folder-folder_in s m f)

  pub get_target_uid_lem : (x : ℕ) → get_target_uid s m f x ≡ lookup x (folder_at s m f).uid_map
  unfolding get_target_uid lookup
  get_target_uid_lem x = ground (arith, find_folder-folder_in s m f)

  pub get_highest_synced_uid_lem : get_highest_synced_uid s m f ≡ (folder_at s m f).highest_uid
  unfolding get_highest_synced_uid
  get_highest_synced_uid_lem = ground (arith, find_folder-folder_in s m f)

  pub get_synced_count_lem : get_synced_count s m f ≡ length (folder_at s m f).synced_uids
  unfolding get_synced_count len
  get_synced_count_lem = ground (arith, find_folder-folder_in s m f)

  unsynced_none : (uids : List ℕ) → unsynced [] uids ≡ uids
  unfolding unsynced contains
  unsynced_none [] = refl
  unsynced_none (uid ∷ uids) = ap (◌∷◌ uid) (unsynced_none uids)

  pub get_unsynced_uids_lem :
      (uids : List ℕ) → get_unsynced_uids s m f uids ≡ unsynced (folder_at s m f).synced_uids uids
  unfolding get_unsynced_uids
  get_unsynced_uids_lem uids = ground (arith, find_folder-folder_in s m f, unsynced_none uids)

module _ (s : State) (m f n g : String) where
  abbrev here : Bool
  here = m == n && f == g

  -- Each writer updates the abstract folder at its names.
  pub folder_at-mark_synced :
      (uid : ℕ)
      → folder_at (mark_synced s m f uid).0 n g
        ≡ (if not (uid == 0) && here then mark (folder_at s m f) uid else folder_at s n g)
  unfolding apply act
  folder_at-mark_synced uid = ground (
    arith,
    mailbox_at-apply s m n (marks f uid),
    string_eq.beq_iff m n,
    folder_in-put_folder (mailbox_at s m) f g (mark (folder_at s m f) uid),
  )

  pub folder_at-mark_multiple_synced :
      (uids : List ℕ)
      → folder_at (mark_multiple_synced s m f uids) n g
        ≡ (if here then mark_all (folder_at s m f) uids else folder_at s n g)
  unfolding apply act mark_multiple_synced mark_all
  folder_at-mark_multiple_synced [] = ground (arith, string_eq.beq_iff m n, string_eq.beq_iff f g)
  folder_at-mark_multiple_synced (uid ∷ uids) = ground (
    arith,
    mailbox_at-apply s m n (marks_multiple f (uid ∷ uids)),
    string_eq.beq_iff m n,
    folder_in-put_folder (mailbox_at s m) f g (mark_all (folder_at s m f) (uid ∷ uids)),
  )

  pub folder_at-set_uid_validity :
      (v : ℕ)
      → folder_at (set_uid_validity s m f v).0 n g
        ≡ (if here then with_validity (folder_at s m f) v else folder_at s n g)
  unfolding apply act
  folder_at-set_uid_validity v = ground (
    arith,
    mailbox_at-apply s m n (sets_validity f v),
    string_eq.beq_iff m n,
    folder_in-put_folder (mailbox_at s m) f g (with_validity (folder_at s m f) v),
  )

  pub folder_at-set_uid_mapping :
      (source target : ℕ)
      → folder_at (set_uid_mapping s m f source target) n g ≡ (
          if not (source == 0 || target == 0) && here
          then record (folder_at s m f) { uid_map = insert source target (folder_at s m f).uid_map }
          else folder_at s n g)
  unfolding apply act
  folder_at-set_uid_mapping source target = ground (
    arith,
    mailbox_at-apply s m n (maps_uid f source target),
    string_eq.beq_iff m n,
    folder_in-put_folder (mailbox_at s m) f g
        (record (folder_at s m f) { uid_map = insert source target (folder_at s m f).uid_map }),
  )
