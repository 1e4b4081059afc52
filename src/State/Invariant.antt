-- ===== src/State/Invariant.antt =====
-- The invariant of the sync state: it holds of a new state and every call keeps it.
use go_boxcopy.Base.{
  subst, ℕ, ◌<◌, String, ◌≡◌, ◌||◌, List, [], ◌∷◌, some, inl, inr, arith, ◌==◌, string_eq, nat_eq,
  Option-cases, Bool-cases,
}
use go_boxcopy.Base.Assoc.{lookup, insert, insert-Distinct}
use go_boxcopy.State.Data.{Time, FolderState, MailboxState, State, new}
use go_boxcopy.State.Ops.{touch_mailbox}
use go_boxcopy.State.Calls.{
  Call, gets_mailbox, gets_folder, sets_validity, marks, marks_multiple, maps_uid, syncs_folder,
  syncs_mailbox, clears_folder, clears_mailbox, apply, act, mailbox_at-apply,
}
use go_boxcopy.State.Interleave.{run}
use go_boxcopy.State.View.{mailbox_at, folder_in, put_folder, folder_in-put_folder}
use go_boxcopy.State.Valid.{
  IsValidFolder, IsValidMailbox, IsValid, NonZero-insert, mark-IsValidFolder,
  with_validity-IsValidFolder, cleared-IsValidFolder, mark_all-IsValidFolder,
  empty_mailbox-IsValidMailbox,
}

put_folder-IsValidMailbox :
    {m : String} {ms : MailboxState} (f : String) (fs : FolderState)
    → IsValidFolder f fs
    → IsValidMailbox m ms
    → IsValidMailbox m (put_folder ms f fs)
put_folder-IsValidMailbox {ms = ms} f fs vf v = record {
  named = v.named;
  folders_valid = λ g. rw folder_in-put_folder (elim (Bool-cases (f == g)) [
    | inl e ↦ rw e (subst (λ x. IsValidFolder x fs) ((string_eq.beq_iff f g).0 e) vf)
    | inr e ↦ rw e (v.folders_valid g)
  ]);
  folders_once = insert-Distinct f fs ms.folders v.folders_once;
}

mapped-IsValidFolder :
    {f : String} {fs : FolderState} (source target : ℕ)
    → 0 < source
    → 0 < target
    → IsValidFolder f fs
    → IsValidFolder f (record fs { uid_map = insert source target fs.uid_map })
mapped-IsValidFolder {fs = fs} source target h g v = record {
  named = v.named;
  highest_is_max = v.highest_is_max;
  no_zero = v.no_zero;
  unique = v.unique;
  mapped_nonzero = NonZero-insert source target fs.uid_map h g v.mapped_nonzero;
  mapped_once = insert-Distinct source target fs.uid_map v.mapped_once;
}

synced_at-IsValidFolder :
    {f : String} {fs : FolderState} (now : Time)
    → IsValidFolder f fs
    → IsValidFolder f (record fs { last_sync = now })
synced_at-IsValidFolder now v = ground arith

touch_mailbox-IsValidMailbox :
    {m : String} {ms : MailboxState} (now : Time)
    → IsValidMailbox m ms
    → IsValidMailbox m (touch_mailbox ms now)
unfolding folder_in
touch_mailbox-IsValidMailbox now v = record {
  named = v.named;
  folders_valid = v.folders_valid;
  folders_once = v.folders_once;
}

found_valid :
    {f : String} (ms : MailboxState) {fs : FolderState}
    → lookup f ms.folders ≡ some fs
    → IsValidFolder f (folder_in ms f)
    → IsValidFolder f fs
unfolding folder_in
found_valid ms e v = rw e at v

pub act-IsValidMailbox :
    (m : String) (ms : MailboxState) (c : Call)
    → IsValidMailbox m ms
    → IsValidMailbox m (act m ms c)
unfolding act
act-IsValidMailbox m ms gets_mailbox v = v
act-IsValidMailbox m ms (gets_folder f) v = put_folder-IsValidMailbox f _ (v.folders_valid f) v
act-IsValidMailbox m ms (sets_validity f w) v =
    put_folder-IsValidMailbox f _ (with_validity-IsValidFolder w (v.folders_valid f)) v
act-IsValidMailbox m ms (marks f uid) v = elim (Bool-cases (uid == 0)) [
  | inl e ↦ rw e v
  | inr e ↦
      rw e (
        put_folder-IsValidMailbox f _ (mark-IsValidFolder uid (ground arith) (v.folders_valid f)) v)
]
act-IsValidMailbox m ms (marks_multiple f []) v = v
act-IsValidMailbox m ms (marks_multiple f (uid ∷ uids)) v =
    put_folder-IsValidMailbox f _ (mark_all-IsValidFolder (uid ∷ uids) (v.folders_valid f)) v
act-IsValidMailbox m ms (maps_uid f source target) v =
    elim (Bool-cases (source == 0 || target == 0)) [
      | inl e ↦ rw e v
      | inr e ↦ rw e (
          put_folder-IsValidMailbox f _
            (mapped-IsValidFolder source target (ground arith) (ground arith) (v.folders_valid f))
            v)
    ]
act-IsValidMailbox m ms (syncs_folder f now) v =
    touch_mailbox-IsValidMailbox now
      (put_folder-IsValidMailbox f _ (synced_at-IsValidFolder now (v.folders_valid f)) v)
act-IsValidMailbox m ms (syncs_mailbox now) v = touch_mailbox-IsValidMailbox now v
act-IsValidMailbox m ms (clears_folder f) v = elim (Option-cases (lookup f ms.folders)) [
  | inl e ↦ rw (e, act) v
  | inr (fs, e) ↦
      rw (e, act)
        (put_folder-IsValidMailbox f _
          (cleared-IsValidFolder (found_valid ms e (v.folders_valid f))) v)
]
act-IsValidMailbox m ms clears_mailbox v = empty_mailbox-IsValidMailbox m

pub apply-IsValid : (s : State) (m : String) (c : Call) → IsValid s → IsValid (apply s m c)
apply-IsValid s m c v = record {
  mailbox_valid = λ n. rw mailbox_at-apply (elim (Bool-cases (m == n)) [
    | inl e ↦ rw e (
        subst (λ x. IsValidMailbox x (act m (mailbox_at s m) c)) ((string_eq.beq_iff m n).0 e)
          (act-IsValidMailbox m _ c (v.mailbox_valid m)))
    | inr e ↦ rw e (v.mailbox_valid n)
  ]);
}

-- Every run of calls by any workers keeps the invariant of the sync state.
pub run-IsValid : (s : State) (calls : List (String × Call)) → IsValid s → IsValid (run s calls)
unfolding run
run-IsValid s [] v = v
run-IsValid s ((m, c) ∷ calls) v = run-IsValid (apply s m c) calls (apply-IsValid s m c v)

pub new-IsValid : (path : String) → IsValid (new path)
unfolding new mailbox_at lookup
new-IsValid path = record { mailbox_valid = empty_mailbox-IsValidMailbox }
