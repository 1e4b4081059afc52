-- ===== src/State/Synced.antt =====
-- internal/state/state.go: what the readers answer after the writers.
use go_boxcopy.Base.{
  ℕ, ◌+◌, ◌≤◌, ◌<◌, String, ◌≡◌, true, not, ◌&&◌, ◌||◌, [], ◌∷◌, some, arith, ◌==◌, string_eq,
  nat_eq, contains, if◌then◌else◌,
}
use go_boxcopy.Base.Assoc.{lookup-insert}
use go_boxcopy.State.UidSet.{UidSet, add, contains-add}
use go_boxcopy.State.Data.{State}
use go_boxcopy.State.Ops.{set_uid_validity, mark, mark_synced, set_uid_mapping}
use go_boxcopy.State.Reads.{
  get_uid_validity, get_target_uid, is_synced, get_highest_synced_uid, get_synced_count,
}
use go_boxcopy.State.Calls.{with_validity}
use go_boxcopy.State.Valid.{IsValid, highest, contains-le-highest}
use go_boxcopy.State.View.{folder_at, get_or_create_folder_lem}
use go_boxcopy.State.Updates.{
  is_synced_lem, get_uid_validity_lem, get_target_uid_lem, get_highest_synced_uid_lem,
  get_synced_count_lem, folder_at-mark_synced, folder_at-set_uid_validity,
  folder_at-set_uid_mapping,
}

module _ (s : State) (m f : String) where
  -- Marking a UID adds it to its folder, unless it is 0, and changes no other answer.
  pub is_synced-mark_synced :
      (uid : ℕ) (n g : String) (x : ℕ)
      → is_synced (mark_synced s m f uid).0 n g x
        ≡ ((not (uid == 0) && m == n && f == g && uid == x) || is_synced s n g x)
  unfolding mark
  is_synced-mark_synced uid n g x =
      rw (is_synced_lem, is_synced_lem, folder_at-mark_synced)
        (ground (
          arith,
          contains-add (folder_at s m f).synced_uids uid x,
          string_eq.beq_iff m n,
          string_eq.beq_iff f g,
        ))

  -- The count of a folder goes up by one when a UID that is new and not 0 is marked, and stays
  -- otherwise.
  pub get_synced_count-mark_synced :
      (uid : ℕ)
      → get_synced_count (mark_synced s m f uid).0 m f
        ≡ get_synced_count s m f + (if uid == 0 || is_synced s m f uid then 0 else 1)
  unfolding mark add
  get_synced_count-mark_synced uid =
      rw (is_synced_lem, get_synced_count_lem, get_synced_count_lem, folder_at-mark_synced)
        (ground (arith, string_eq.beq_iff m m, string_eq.beq_iff f f))

  -- A mapping between UIDs that are not 0 is found again once it is recorded; every other answer is
  -- as it was.
  pub get_target_uid-set_uid_mapping :
      (source target : ℕ) (n g : String) (x : ℕ)
      → get_target_uid (set_uid_mapping s m f source target) n g x ≡ (
          if not (source == 0 || target == 0) && m == n && f == g && source == x
          then some target
          else get_target_uid s n g x)
  get_target_uid-set_uid_mapping source target n g x =
      rw (get_target_uid_lem, get_target_uid_lem, folder_at-set_uid_mapping)
        (ground (
          arith,
          lookup-insert source x target (folder_at s m f).uid_map,
          string_eq.beq_iff m n,
          string_eq.beq_iff f g,
        ))

  set_uid_validity_flag :
      (v : ℕ)
      → (set_uid_validity s m f v).1
        ≡ (not (get_uid_validity s m f == 0) && not (get_uid_validity s m f == v))
  unfolding set_uid_validity
  set_uid_validity_flag v =
      ground (arith, get_uid_validity_lem s m f, get_or_create_folder_lem s m f)

  -- The flag is raised exactly when a nonzero validity gives way to another; the new one is stored
  -- in any case. When it is raised no UID of the folder counts as synced any more; otherwise every
  -- answer about the folder's synced UIDs stays.
  pub set_uid_validity_lem :
      (v : ℕ)
      → ((set_uid_validity s m f v).1
          ≡ (not (get_uid_validity s m f == 0) && not (get_uid_validity s m f == v)))
        × (get_uid_validity (set_uid_validity s m f v).0 m f ≡ v)
        × ((x : ℕ)
            → is_synced (set_uid_validity s m f v).0 m f x
              ≡ (not (set_uid_validity s m f v).1 && is_synced s m f x))
  unfolding with_validity contains
  set_uid_validity_lem v =
      let after = folder_at-set_uid_validity s m f m f v in
      let flag = set_uid_validity_flag v in
      let old = get_uid_validity_lem s m f in
      (
        flag,
        ground (
          arith,
          after,
          get_uid_validity_lem (set_uid_validity s m f v).0 m f,
          string_eq.beq_iff m m,
          string_eq.beq_iff f f,
        ),
        λ x. ground (
          arith,
          after,
          flag,
          old,
          is_synced_lem s m f x,
          is_synced_lem (set_uid_validity s m f v).0 m f x,
          string_eq.beq_iff m m,
          string_eq.beq_iff f f,
        ),
      )

  -- A change of validity leaves the target UIDs that are recorded for the old UIDs in place.
  pub get_target_uid-set_uid_validity :
      (v x : ℕ) → get_target_uid (set_uid_validity s m f v).0 m f x ≡ get_target_uid s m f x
  unfolding with_validity
  get_target_uid-set_uid_validity v x = ground (
    arith,
    folder_at-set_uid_validity s m f m f v,
    get_target_uid_lem s m f x,
    get_target_uid_lem (set_uid_validity s m f v).0 m f x,
    string_eq.beq_iff m m,
    string_eq.beq_iff f f,
  )

contains-highest : (u : UidSet) → 0 < highest u → contains u (highest u) ≡ true
unfolding contains highest
contains-highest [] h = absurd (omega arith)
contains-highest (uid ∷ u) h = ground (arith, contains-highest u)

-- In a state that keeps the invariant, a synced UID is not 0, and at most the highest synced UID.
pub is_synced-le-highest :
    (s : State) (m f : String) (x : ℕ)
    → IsValid s
    → is_synced s m f x ≡ true
    → (0 < x) × (x ≤ get_highest_synced_uid s m f)
is_synced-le-highest s m f x v h =
    let valid = (v.mailbox_valid m).folders_valid f in
    ground (
      arith,
      valid.no_zero,
      valid.highest_is_max,
      get_highest_synced_uid_lem s m f,
      is_synced_lem s m f x,
      contains-le-highest (folder_at s m f).synced_uids x,
    )

-- In a state that keeps the invariant, the highest synced UID is synced, unless it is 0.
pub is_synced-highest :
    (s : State) (m f : String)
    → IsValid s
    → 0 < get_highest_synced_uid s m f
    → is_synced s m f (get_highest_synced_uid s m f) ≡ true
is_synced-highest s m f v h =
    let valid = (v.mailbox_valid m).folders_valid f in
    let u = (folder_at s m f).synced_uids in
    ground (
      arith,
      valid.highest_is_max,
      get_highest_synced_uid_lem s m f,
      is_synced_lem s m f (highest u),
      contains-highest u,
    )
