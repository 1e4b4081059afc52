-- ===== src/Tests/StoreTests.antt =====
-- The state file, on a concrete disk.
use go_boxcopy.Base.{arith, ℕ, ◌≡◌, refl, false, [], ◌∷◌, All, contains, string_eq, nat_eq}
use go_boxcopy.State.Data.{State}
use go_boxcopy.Store.File.{marshal_uids}
use go_boxcopy.Store.Ops.{loaded, load, final, save_unlocked, save}
use go_boxcopy.Store.Atomic.{IsOldOrNew, save-IsOldOrNew, Promise, save-Promise}
use go_boxcopy.Store.Roundtrip.{marshal_uids_canonical, SameAnswers, load-save}
use go_boxcopy.Tests.Samples.{synced_state, no_faults, rename_fault, old_disk}

save-IsOldOrNew_example :
    All
      (IsOldOrNew synced_state 50 rename_fault old_disk)
      (save synced_state 50 rename_fault old_disk).disks
save-IsOldOrNew_example = save-IsOldOrNew synced_state 50 rename_fault old_disk

save-Promise_example :
    Promise synced_state 50 no_faults old_disk
      (save synced_state 50 no_faults old_disk).result
      (save synced_state 50 no_faults old_disk).state
      (final old_disk (save synced_state 50 no_faults old_disk))
save-Promise_example = save-Promise synced_state 50 no_faults old_disk

load-save_example :
    (t : State) × ((load "/var/state.json" no_faults
        (final old_disk (save synced_state 50 no_faults old_disk))).0
      ≡ loaded t)
    × SameAnswers synced_state t
    × (t.path ≡ "/var/state.json")
    × (t.dirty ≡ false)
unfolding save save_unlocked
load-save_example = load-save synced_state 50 no_faults no_faults old_disk refl refl

same_members : (x : ℕ) → contains (5 ∷ 3 ∷ []) x ≡ contains (3 ∷ 5 ∷ []) x
unfolding contains
same_members x = ground arith

marshal_uids_canonical_example : marshal_uids (5 ∷ 3 ∷ []) ≡ marshal_uids (3 ∷ 5 ∷ [])
unfolding contains
marshal_uids_canonical_example =
    marshal_uids_canonical (5 ∷ 3 ∷ []) (3 ∷ 5 ∷ []) (refl, (refl, tt)) (refl, (refl, tt))
      same_members
