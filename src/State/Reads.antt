-- ===== src/State/Reads.antt =====
-- internal/state/state.go: the operations that read the state under the read lock.
use go_boxcopy.Base.{
  ℕ, String, Bool, false, not, List, [], ◌∷◌, Option, none, some, contains, nat_eq, string_eq,
  if◌then◌else◌,
}
use go_boxcopy.Base.Assoc.{Assoc, lookup, keys}
use go_boxcopy.State.UidSet.{UidSet, len}
use go_boxcopy.State.Data.{Time, zero_time, FolderState, State}

unfoldable pub is_dirty : State → Bool
is_dirty s = s.dirty

unfoldable pub mailboxes : State → List String
mailboxes s = keys s.mailboxes

unfoldable pub folders : State → String → List String
folders s mailbox = elim (lookup mailbox s.mailboxes) [ none ↦ [] | some ms ↦ keys ms.folders ]

-- The lookup that the readers begin with: mailbox, then folder.
unfoldable pub find_folder : State → String → String → Option FolderState
find_folder s mailbox folder = elim (lookup mailbox s.mailboxes) [
  | none ↦ none
  | some ms ↦ lookup folder ms.folders
]

unfoldable pub get_uid_validity : State → String → String → ℕ
get_uid_validity s mailbox folder = elim (find_folder s mailbox folder) [
  | none ↦ 0
  | some fs ↦ fs.uid_validity
]

-- `none` is `(0, false)`.
unfoldable pub get_target_uid : State → String → String → ℕ → Option ℕ
get_target_uid s mailbox folder source_uid = elim (find_folder s mailbox folder) [
  | none ↦ none
  | some fs ↦ lookup source_uid fs.uid_map
]

-- `none` is the nil map.
unfoldable pub get_uid_map : State → String → String → Option (Assoc ℕ ℕ)
get_uid_map s mailbox folder = elim (find_folder s mailbox folder) [
  | none ↦ none
  | some fs ↦ some fs.uid_map
]

unfoldable pub is_synced : State → String → String → ℕ → Bool
is_synced s mailbox folder uid = elim (find_folder s mailbox folder) [
  | none ↦ false
  | some fs ↦ contains fs.synced_uids uid
]

unfoldable pub unsynced : UidSet → List ℕ → List ℕ
unsynced u [] = []
unsynced u (uid ∷ uids) =
    let rest = unsynced u uids in if not (contains u uid) then uid ∷ rest else rest

unfoldable pub get_unsynced_uids : State → String → String → List ℕ → List ℕ
get_unsynced_uids s mailbox folder all_uids = elim (find_folder s mailbox folder) [
  | none ↦ all_uids
  | some fs ↦ unsynced fs.synced_uids all_uids
]

unfoldable pub get_highest_synced_uid : State → String → String → ℕ
get_highest_synced_uid s mailbox folder = elim (find_folder s mailbox folder) [
  | none ↦ 0
  | some fs ↦ fs.highest_uid
]

unfoldable pub get_synced_count : State → String → String → ℕ
get_synced_count s mailbox folder = elim (find_folder s mailbox folder) [
  | none ↦ 0
  | some fs ↦ len fs.synced_uids
]

unfoldable pub get_last_sync : State → String → String → Time
get_last_sync s mailbox folder = elim (find_folder s mailbox folder) [
  | none ↦ zero_time
  | some fs ↦ fs.last_sync
]
