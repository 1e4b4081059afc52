-- ===== src/Store/Roundtrip.antt =====
-- internal/state/store.go: what is saved is loaded again.
use mathlib.Core.Option
use go_boxcopy.Base.{
  subst, ℕ, String, ◌≡◌, refl, ◌∙◌, false, List, [], ◌∷◌, Option, none, some, inl, inr, arith,
  string_eq, nat_eq, contains, leb, Option-cases, ap,
}
use go_boxcopy.Base.Assoc.{Assoc, lookup}
use go_boxcopy.Base.Errors.{ok}
use go_boxcopy.Base.Sort.{sort_by, contains-sort_by, Ascends, insert_by-Ascends, Ascends-unique}
use go_boxcopy.State.UidSet.{UidSet, to_slice, contains-add}
use go_boxcopy.State.Data.{Time, FolderState, MailboxState, State}
use go_boxcopy.State.Valid.{IsUnique}
use go_boxcopy.State.Reads.{
  get_uid_validity, get_target_uid, is_synced, get_highest_synced_uid, get_unsynced_uids, unsynced,
}
use go_boxcopy.State.View.{mailbox_at, folder_in, folder_at}
use go_boxcopy.State.Updates.{
  is_synced_lem, get_uid_validity_lem, get_target_uid_lem, get_highest_synced_uid_lem,
  get_unsynced_uids_lem,
}
use go_boxcopy.Store.Disk.{temp_path, temp_path-ne, lookup-remove}
use go_boxcopy.Store.File.{
  marshal_uids, unmarshal_uids, map_values, marshal_folder, marshal_mailbox, marshal,
  unmarshal_folder, load_values, unmarshal_mailbox, unmarshal,
}
use go_boxcopy.Store.Ops.{document, Disk, Faults, loaded, load, final, save}
use go_boxcopy.Store.Atomic.{Promise, save-Promise}

to_slice_lem : (u : UidSet) → to_slice u ≡ u
unfolding to_slice
to_slice_lem [] = refl
to_slice_lem (uid ∷ u) = ap (◌∷◌ uid) (to_slice_lem u)

contains-marshal_uids : (u : UidSet) (x : ℕ) → contains (marshal_uids u) x ≡ contains u x
unfolding marshal_uids
contains-marshal_uids u x =
    contains-sort_by leb (to_slice u) x ∙ ap (λ w. contains w x) (to_slice_lem u)

contains-unmarshal_uids :
    (uids : List ℕ) (x : ℕ) → contains (unmarshal_uids uids) x ≡ contains uids x
unfolding unmarshal_uids contains
contains-unmarshal_uids [] x = refl
contains-unmarshal_uids (uid ∷ uids) x =
    ground (arith, contains-add (unmarshal_uids uids) uid x, contains-unmarshal_uids uids x)

sort_by-Ascends : (u : UidSet) → IsUnique u → Ascends (sort_by leb u)
unfolding sort_by
sort_by-Ascends [] h = tt
sort_by-Ascends (uid ∷ u) h =
    insert_by-Ascends uid (sort_by leb u) (contains-sort_by leb u uid ∙ h.0) (sort_by-Ascends u h.1)

-- The array in the file does not depend on the order in which the map yields the UIDs: two sets
-- with the same members, none twice, are written alike.
pub marshal_uids_canonical :
    (u w : UidSet)
    → IsUnique u
    → IsUnique w
    → ((x : ℕ) → contains u x ≡ contains w x)
    → marshal_uids u ≡ marshal_uids w
unfolding marshal_uids
marshal_uids_canonical u w hu hw same =
    rw (to_slice_lem, to_slice_lem)
      (Ascends-unique (sort_by leb u) (sort_by leb w) (sort_by-Ascends u hu) (sort_by-Ascends w hw)
        (λ x. ground (arith, contains-sort_by leb u x, contains-sort_by leb w x, same x)))

-- What a folder is after a save and a load.
unfoldable pub restore_folder : FolderState → FolderState
restore_folder fs = record fs { synced_uids = unmarshal_uids (marshal_uids fs.synced_uids) }

unfoldable pub restore_mailbox : MailboxState → MailboxState
restore_mailbox ms = record ms { folders = map_values restore_folder ms.folders }

unfoldable pub restore : State → State
restore s = record s { mailboxes = map_values restore_mailbox s.mailboxes; dirty = false }

load_values-map_values {ℓ κ μ} :
    {V : Type ℓ} {W : Type κ} {X : Type μ} (f : W → Option X) (g : V → W) (h : V → X)
    → ((v : V) → f (g v) ≡ some (h v))
    → (m : Assoc String V) → load_values f (map_values (λ v. some (g v)) m) ≡ some (map_values h m)
unfolding load_values map_values
load_values-map_values f g h e [] = refl
load_values-map_values f g h e ((k, v) ∷ m) = rw (e v, load_values-map_values f g h e m)

unmarshal_mailbox-marshal_mailbox :
    (ms : MailboxState) → unmarshal_mailbox (marshal_mailbox ms) ≡ some (restore_mailbox ms)
unfolding unmarshal_mailbox marshal_mailbox restore_mailbox
unmarshal_mailbox-marshal_mailbox ms = rw (
    load_values-map_values (λ f. some (unmarshal_folder f)) marshal_folder restore_folder
      (λ fs. unfold unmarshal_folder marshal_folder restore_folder in refl) ms.folders)

unmarshal-marshal :
    (s : State) (now : Time) → unmarshal (marshal s now) ≡ some (restore s).mailboxes
unfolding unmarshal marshal restore
unmarshal-marshal s now =
    load_values-map_values unmarshal_mailbox marshal_mailbox restore_mailbox
      unmarshal_mailbox-marshal_mailbox s.mailboxes

lookup-map_values {ℓ κ} :
    {V : Type ℓ} {W : Type κ} (f : V → W) (k : String) (m : Assoc String V)
    → lookup k (map_values f m) ≡ Option.map f (lookup k m)
unfolding lookup map_values
lookup-map_values f k [] = refl
lookup-map_values f k ((j, v) ∷ m) = ground (arith, lookup-map_values f k m)

folder_in-restore_mailbox :
    (ms : MailboxState) (f : String)
    → folder_in (restore_mailbox ms) f ≡ restore_folder (folder_in ms f)
unfolding folder_in restore_mailbox restore_folder unmarshal_uids marshal_uids to_slice sort_by
folder_in-restore_mailbox ms f = ground (arith, lookup-map_values restore_folder f ms.folders)

folder_at-restore :
    (s : State) (m f : String) → folder_at (restore s) m f ≡ restore_folder (folder_at s m f)
unfolding mailbox_at restore
folder_at-restore s m f = rw lookup-map_values (elim (Option-cases (lookup m s.mailboxes)) [
  | inl e ↦
      rw e (
        unfold folder_in restore_folder unmarshal_uids marshal_uids to_slice sort_by lookup in refl)
  | inr (ms, e) ↦ rw e (folder_in-restore_mailbox ms f)
])

-- Two states that answer every question about UIDs alike.
pub record SameAnswers (s t : State) : Type 0 where
  pub synced : (m f : String) (x : ℕ) → is_synced s m f x ≡ is_synced t m f x
  pub unsynced_of :
      (m f : String) (uids : List ℕ) → get_unsynced_uids s m f uids ≡ get_unsynced_uids t m f uids
  pub target : (m f : String) (x : ℕ) → get_target_uid s m f x ≡ get_target_uid t m f x
  pub validity : (m f : String) → get_uid_validity s m f ≡ get_uid_validity t m f
  pub highest : (m f : String) → get_highest_synced_uid s m f ≡ get_highest_synced_uid t m f

unsynced_ext :
    (u w : UidSet) (uids : List ℕ)
    → ((x : ℕ) → contains u x ≡ contains w x)
    → unsynced u uids ≡ unsynced w uids
unfolding unsynced
unsynced_ext u w [] h = refl
unsynced_ext u w (uid ∷ uids) h = rw (h uid, unsynced_ext u w uids h)

restore-SameAnswers : (s : State) → SameAnswers s (restore s)
unfolding restore_folder
restore-SameAnswers s = record {
  synced = λ m f x. ground (
    arith,
    is_synced_lem s m f x,
    is_synced_lem (restore s) m f x,
    folder_at-restore s m f,
    kept m f x,
  );
  unsynced_of = λ m f uids. ground (
    arith,
    get_unsynced_uids_lem s m f uids,
    get_unsynced_uids_lem (restore s) m f uids,
    folder_at-restore s m f,
    unsynced_ext _ _ uids (kept m f),
  );
  target = λ m f x. ground (
    arith,
    get_target_uid_lem s m f x,
    get_target_uid_lem (restore s) m f x,
    folder_at-restore s m f,
  );
  validity = λ m f. ground (
    arith,
    get_uid_validity_lem s m f,
    get_uid_validity_lem (restore s) m f,
    folder_at-restore s m f,
  );
  highest = λ m f. ground (
    arith,
    get_highest_synced_uid_lem s m f,
    get_highest_synced_uid_lem (restore s) m f,
    folder_at-restore s m f,
  );
}
  where
    kept :
        (m f : String) (x : ℕ)
        → contains (unmarshal_uids (marshal_uids (folder_at s m f).synced_uids)) x
          ≡ contains (folder_at s m f).synced_uids x
    kept m f x = contains-unmarshal_uids _ x ∙ contains-marshal_uids _ x

load_found :
    (s : State) (now : Time) (reading : Faults) (disk : Disk)
    → reading.read_error ≡ none
    → lookup s.path disk ≡ some (document (marshal s now))
    → (load s.path reading disk).0 ≡ loaded (restore s)
unfolding load marshal restore
load_found s now reading disk readable found = ground (
  arith,
  unmarshal-marshal s now,
  lookup-remove (temp_path s.path) s.path disk,
  temp_path-ne s.path,
)

-- When a save reports success and the file can then be read, it is loaded again: the state that
-- comes back has the same path, is clean, and answers every question about UIDs and validities as
-- before.
pub load-save :
    (s : State) (now : Time) (faults reading : Faults) (disk : Disk)
    → (save s now faults disk).result ≡ ok tt
    → reading.read_error ≡ none
    → (t : State) × ((load s.path reading (final disk (save s now faults disk))).0 ≡ loaded t)
      × SameAnswers s t
      × (t.path ≡ s.path)
      × (t.dirty ≡ false)
load-save s now faults reading disk saved readable =
    let outcome = save s now faults disk in
    let kept =
      subst (λ r. Promise s now faults disk r outcome.state (final disk outcome)) saved
        (save-Promise s now faults disk) in
    (
      restore s,
      load_found s now reading (final disk outcome) readable kept.0,
      restore-SameAnswers s,
      unfold restore in refl,
      unfold restore in refl,
    )
