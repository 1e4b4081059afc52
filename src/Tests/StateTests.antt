-- ===== src/Tests/StateTests.antt =====
-- The sync state, after some calls.
use go_boxcopy.Base.{
  ℕ, ◌≤◌, ◌<◌, String, ◌≡◌, refl, false, not, ◌&&◌, List, [], ◌∷◌, some, contains, arith, ◌==◌,
  string_eq, nat_eq,
}
use go_boxcopy.Base.Assoc.{lookup, insert}
use go_boxcopy.State.Data.{new}
use go_boxcopy.State.UidSet.{add, len}
use go_boxcopy.State.Ops.{
  write_folder, get_or_create_mailbox, get_or_create_folder, set_uid_validity, mark, mark_synced,
  mark_all, mark_multiple_synced, set_uid_mapping, update_last_sync, update_mailbox_last_sync,
  clear_folder, clear_mailbox,
}
use go_boxcopy.State.Reads.{
  find_folder, get_uid_validity, get_target_uid, is_synced, unsynced, get_unsynced_uids,
  get_highest_synced_uid, get_synced_count,
}
use go_boxcopy.State.View.{mailbox_at}
use go_boxcopy.State.Valid.{IsValid}
use go_boxcopy.State.Calls.{
  Call, sets_validity, marks, marks_multiple, maps_uid, syncs_folder, clears_folder, clears_mailbox,
  apply,
}
use go_boxcopy.State.Interleave.{run, on, act_all, mailbox_at-run}
use go_boxcopy.State.Dirty.{apply_clean}
use go_boxcopy.State.Invariant.{run-IsValid, new-IsValid}
use go_boxcopy.Base.{true}
use go_boxcopy.State.Highest.{get_highest_synced_uid-run}
use go_boxcopy.State.Synced.{set_uid_validity_lem, get_target_uid-set_uid_validity}
use go_boxcopy.State.Unsynced.{get_unsynced_uids_done}
use go_boxcopy.Tests.Samples.{synced_state}

program : Unit {0}
unfolding lookup insert new add len write_folder get_or_create_mailbox get_or_create_folder
    set_uid_validity mark mark_synced mark_all mark_multiple_synced set_uid_mapping update_last_sync
    update_mailbox_last_sync clear_folder clear_mailbox find_folder get_uid_validity get_target_uid
    is_synced unsynced get_unsynced_uids get_highest_synced_uid get_synced_count apply run on
    contains
program = tt

abbrev calls : List (String × Call)
calls =
    ("alice", sets_validity "INBOX" 7)
    ∷ ("alice", marks "INBOX" 3)
    ∷ ("alice", maps_uid "INBOX" 3 30)
    ∷ ("alice", marks_multiple "INBOX" (5 ∷ []))
    ∷ ("alice", maps_uid "INBOX" 5 50)
    ∷ ("alice", syncs_folder "INBOX" 40)
    ∷ []

after_calls : run (new "/var/state.json") calls ≡ synced_state
unfolding program
after_calls = refl

pub synced_state-IsValid : IsValid synced_state
unfolding program
synced_state-IsValid = run-IsValid (new "/var/state.json") calls (new-IsValid "/var/state.json")

-- Two workers at once.
abbrev both : List (String × Call)
both =
    ("alice", marks "INBOX" 9)
    ∷ ("bob", marks "INBOX" 1)
    ∷ ("alice", clears_folder "INBOX")
    ∷ ("bob", clears_mailbox)
    ∷ []

mailbox_at-run_example :
    mailbox_at (run synced_state both) "alice"
    ≡ act_all "alice"
        (mailbox_at synced_state "alice")
        (marks "INBOX" 9 ∷ clears_folder "INBOX" ∷ [])
unfolding on
mailbox_at-run_example = mailbox_at-run synced_state "alice" both

run-IsValid_example : IsValid (run synced_state both)
run-IsValid_example = run-IsValid synced_state both synced_state-IsValid

apply_clean_example :
    apply (record synced_state { dirty = false }) "alice" (sets_validity "INBOX" 7)
    ≡ record synced_state { dirty = false }
unfolding program
apply_clean_example =
    apply_clean (record synced_state { dirty = false }) "alice" (sets_validity "INBOX" 7) refl

set_uid_validity_lem_example :
    ((set_uid_validity synced_state "alice" "INBOX" 8).1 ≡ (
      not (get_uid_validity synced_state "alice" "INBOX" == 0)
      && not (get_uid_validity synced_state "alice" "INBOX" == 8)))
    × (get_uid_validity (set_uid_validity synced_state "alice" "INBOX" 8).0 "alice" "INBOX" ≡ 8)
    × ((x : ℕ)
        → is_synced (set_uid_validity synced_state "alice" "INBOX" 8).0 "alice" "INBOX" x ≡ (
            not (set_uid_validity synced_state "alice" "INBOX" 8).1
            && is_synced synced_state "alice" "INBOX" x))
set_uid_validity_lem_example = set_uid_validity_lem synced_state "alice" "INBOX" 8

get_target_uid-set_uid_validity_example :
    get_target_uid (set_uid_validity synced_state "alice" "INBOX" 8).0 "alice" "INBOX" 5 ≡ some 50
unfolding program
get_target_uid-set_uid_validity_example =
    get_target_uid-set_uid_validity synced_state "alice" "INBOX" 8 5

-- Two workers between them mark 9 and then 4 in one folder, and clear another mailbox.
abbrev marked : List (String × Call)
marked = ("alice", marks "INBOX" 9) ∷ ("bob", clears_mailbox) ∷ ("alice", marks "INBOX" 4) ∷ []

get_highest_synced_uid-run_example :
    (0 < 4) × (4 ≤ 9) × (is_synced (run (new "/var/state.json") marked) "alice" "INBOX" 9 ≡ true)
unfolding program new run apply
get_highest_synced_uid-run_example =
    get_highest_synced_uid-run "/var/state.json" marked "alice" "INBOX" 4 refl

get_unsynced_uids_done_example :
    get_unsynced_uids
      (mark_multiple_synced synced_state "alice" "INBOX"
        (get_unsynced_uids synced_state "alice" "INBOX" (3 ∷ 6 ∷ [])))
      "alice"
      "INBOX"
      (3 ∷ 6 ∷ [])
    ≡ []
get_unsynced_uids_done_example =
    get_unsynced_uids_done synced_state "alice" "INBOX" (3 ∷ 6 ∷ [])
      (omega arith, (omega arith, tt))
