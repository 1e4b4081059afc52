-- ===== src/State/Valid.antt =====
-- When a folder, a mailbox and the sync state are well formed, and the folder updates that keep it.
use go_boxcopy.Base.{
  ℕ, ◌≤◌, ◌<◌, max, String, ◌≡◌, refl, true, false, List, [], ◌∷◌, inl, inr, arith, ◌==◌, string_eq,
  nat_eq, contains, Bool-cases, if◌then◌else◌,
}
use go_boxcopy.Base.Assoc.{Assoc, lookup, insert, Distinct}
use go_boxcopy.State.UidSet.{UidSet, add, contains-add}
use go_boxcopy.State.Data.{FolderState, MailboxState, State, empty_folder, empty_mailbox}
use go_boxcopy.State.Ops.{mark, mark_all}
use go_boxcopy.State.Calls.{with_validity, cleared}
use go_boxcopy.State.View.{mailbox_at, folder_in}

-- The largest UID of a set, 0 for the empty one.
unfoldable pub highest : UidSet → ℕ
highest [] = 0
highest (uid ∷ u) = max uid (highest u)

-- No UID twice.
abbrev pub IsUnique : UidSet → Type 0
IsUnique [] = Unit
IsUnique (uid ∷ u) = (contains u uid ≡ false) × IsUnique u

-- A target UID is recorded for valid UIDs only.
abbrev pub NonZero : Assoc ℕ ℕ → Type 0
NonZero [] = Unit
NonZero ((source, target) ∷ m) = (0 < source) × (0 < target) × NonZero m

pub record IsValidFolder (name : String) (fs : FolderState) : Type 0 where
  pub named : fs.name ≡ name
  pub highest_is_max : fs.highest_uid ≡ highest fs.synced_uids
  pub no_zero : contains fs.synced_uids 0 ≡ false
  pub unique : IsUnique fs.synced_uids
  pub mapped_nonzero : NonZero fs.uid_map
  pub mapped_once : Distinct fs.uid_map

pub record IsValidMailbox (name : String) (ms : MailboxState) : Type 0 where
  pub named : ms.name ≡ name
  pub folders_valid : (f : String) → IsValidFolder f (folder_in ms f)
  pub folders_once : Distinct ms.folders

pub record IsValid (s : State) : Type 0 where
  pub mailbox_valid : (m : String) → IsValidMailbox m (mailbox_at s m)

pub contains-le-highest : (u : UidSet) (uid : ℕ) → contains u uid ≡ true → uid ≤ highest u
unfolding contains highest
contains-le-highest [] uid h = cc
contains-le-highest (x ∷ u) uid h = ground (arith, contains-le-highest u uid)

highest-add : (u : UidSet) (uid : ℕ) → highest (add u uid) ≡ max uid (highest u)
unfolding add highest
highest-add u uid = ground (arith, contains-le-highest u uid)

add-IsUnique : (u : UidSet) (uid : ℕ) → IsUnique u → IsUnique (add u uid)
unfolding add
add-IsUnique u uid h = ground arith

pub NonZero-insert : (k v : ℕ) (m : Assoc ℕ ℕ) → 0 < k → 0 < v → NonZero m → NonZero (insert k v m)
unfolding insert
NonZero-insert k v [] h g n = (h, g, tt)
NonZero-insert k v ((j, w) ∷ m) h g n = ground (arith, NonZero-insert k v m)

module _ {f : String} {fs : FolderState} where
  pub mark-IsValidFolder : (uid : ℕ) → 0 < uid → IsValidFolder f fs → IsValidFolder f (mark fs uid)
  unfolding mark
  mark-IsValidFolder uid h v = record {
    named = v.named;
    highest_is_max = ground (arith, highest-add fs.synced_uids uid, v.highest_is_max);
    no_zero = ground (arith, contains-add fs.synced_uids uid 0, v.no_zero);
    unique = add-IsUnique fs.synced_uids uid v.unique;
    mapped_nonzero = v.mapped_nonzero;
    mapped_once = v.mapped_once;
  }

  mark_step-IsValidFolder :
      (uid : ℕ) → IsValidFolder f fs → IsValidFolder f (if uid == 0 then fs else mark fs uid)
  mark_step-IsValidFolder uid v = elim (Bool-cases (uid == 0)) [
    | inl e ↦ rw e v
    | inr e ↦ rw e (mark-IsValidFolder uid (ground arith) v)
  ]

  pub with_validity-IsValidFolder :
      (w : ℕ) → IsValidFolder f fs → IsValidFolder f (with_validity fs w)
  unfolding with_validity highest contains
  with_validity-IsValidFolder w v = ground arith

  pub cleared-IsValidFolder : IsValidFolder f fs → IsValidFolder f (cleared fs)
  unfolding highest contains
  cleared-IsValidFolder v = ground arith

pub mark_all-IsValidFolder :
    {f : String} (uids : List ℕ) {fs : FolderState}
    → IsValidFolder f fs
    → IsValidFolder f (mark_all fs uids)
unfolding mark_all
mark_all-IsValidFolder [] v = v
mark_all-IsValidFolder (uid ∷ uids) v = mark_all-IsValidFolder uids (mark_step-IsValidFolder uid v)

pub empty_folder-IsValidFolder : (f : String) → IsValidFolder f (empty_folder f)
unfolding highest contains
empty_folder-IsValidFolder f = ground arith

pub empty_mailbox-IsValidMailbox : (m : String) → IsValidMailbox m (empty_mailbox m)
unfolding folder_in lookup
empty_mailbox-IsValidMailbox m = record {
  named = refl;
  folders_valid = empty_folder-IsValidFolder;
  folders_once = tt;
}
