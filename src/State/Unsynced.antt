-- ===== src/State/Unsynced.antt =====
-- internal/state/state.go: the unsynced UIDs of a list.
use go_boxcopy.Base.{
  ℕ, ◌<◌, String, ◌≡◌, refl, true, not, ◌&&◌, ◌||◌, List, [], ◌∷◌, arith, string_eq, nat_eq,
  contains, All, if◌then◌else◌,
}
use go_boxcopy.State.UidSet.{UidSet, contains-add}
use go_boxcopy.State.Data.{FolderState, State}
use go_boxcopy.State.Ops.{mark, mark_all, mark_multiple_synced}
use go_boxcopy.State.Reads.{is_synced, unsynced, get_unsynced_uids}
use go_boxcopy.State.View.{folder_at}
use go_boxcopy.State.Updates.{is_synced_lem, get_unsynced_uids_lem, folder_at-mark_multiple_synced}

-- The unsynced UIDs of a list are those that `IsSynced` denies, in the order of the list: one UID
-- at a time.
pub get_unsynced_uids_cons :
    (s : State) (m f : String) (uid : ℕ) (uids : List ℕ)
    → get_unsynced_uids s m f (uid ∷ uids) ≡ (
        if is_synced s m f uid
        then get_unsynced_uids s m f uids
        else uid ∷ get_unsynced_uids s m f uids)
unfolding unsynced
get_unsynced_uids_cons s m f uid uids = ground (
  arith,
  get_unsynced_uids_lem s m f uids,
  get_unsynced_uids_lem s m f (uid ∷ uids),
  is_synced_lem s m f uid,
)

contains-mark_all :
    (fs : FolderState) (uids : List ℕ) (x : ℕ)
    → 0 < x
    → contains (mark_all fs uids).synced_uids x ≡ (contains uids x || contains fs.synced_uids x)
unfolding contains mark_all mark
contains-mark_all fs [] x h = refl
contains-mark_all fs (uid ∷ uids) x h = ground (
  arith,
  contains-mark_all fs uids x,
  contains-mark_all (mark fs uid) uids x,
  contains-add fs.synced_uids uid x,
)

contains-unsynced :
    (u : UidSet) (uids : List ℕ) (x : ℕ)
    → contains (unsynced u uids) x ≡ (contains uids x && not (contains u x))
unfolding contains unsynced
contains-unsynced u [] x = refl
contains-unsynced u (uid ∷ uids) x = ground (arith, contains-unsynced u uids x)

pub contains-get_unsynced_uids :
    (s : State) (m f : String) (uids : List ℕ) (x : ℕ)
    → contains (get_unsynced_uids s m f uids) x ≡ (contains uids x && not (is_synced s m f x))
contains-get_unsynced_uids s m f uids x = ground (
  arith,
  get_unsynced_uids_lem s m f uids,
  is_synced_lem s m f x,
  contains-unsynced (folder_at s m f).synced_uids uids x,
)

unsynced_all :
    (u : UidSet) (uids : List ℕ)
    → ((x : ℕ) → contains uids x ≡ true → contains u x ≡ true)
    → unsynced u uids ≡ []
unfolding contains unsynced
unsynced_all u [] h = refl
unsynced_all u (uid ∷ uids) h =
    ground (arith, h uid, unsynced_all u uids (λ x e. h x (ground arith)))

contains_nonzero :
    (uids : List ℕ) (x : ℕ) → All (λ uid. 0 < uid) uids → contains uids x ≡ true → 0 < x
unfolding contains
contains_nonzero [] x a h = cc
contains_nonzero (uid ∷ uids) x a h = ground (arith, contains_nonzero uids x a.1)

-- Once the unsynced UIDs of a list in which none is 0 have been marked, none of the list is
-- unsynced.
pub get_unsynced_uids_done :
    (s : State) (m f : String) (uids : List ℕ)
    → All (λ uid. 0 < uid) uids
    → get_unsynced_uids (mark_multiple_synced s m f (get_unsynced_uids s m f uids)) m f uids ≡ []
get_unsynced_uids_done s m f uids nonzero =
    let u = (folder_at s m f).synced_uids in
    rw (get_unsynced_uids_lem, folder_at-mark_multiple_synced, get_unsynced_uids_lem)
      (unsynced_all _ uids (λ x h. ground (
        arith,
        contains-mark_all (folder_at s m f) (unsynced u uids) x,
        contains-unsynced u uids x,
        contains_nonzero uids x nonzero,
        string_eq.beq_iff m m,
        string_eq.beq_iff f f,
      )))
