-- ===== src/State/Highest.antt =====
-- internal/state/state.go: the highest synced UID, in any state that the calls can bring about.
use go_boxcopy.Base.{ℕ, ◌≤◌, ◌<◌, String, ◌≡◌, true, List, arith, nat_eq, string_eq}
use go_boxcopy.State.Data.{new}
use go_boxcopy.State.Reads.{is_synced, get_highest_synced_uid}
use go_boxcopy.State.Calls.{Call}
use go_boxcopy.State.Interleave.{run}
use go_boxcopy.State.Invariant.{run-IsValid, new-IsValid}
use go_boxcopy.State.Synced.{is_synced-le-highest, is_synced-highest}

-- After any calls on a new state, by any number of workers, the highest synced UID of a folder is the
-- greatest of those that `IsSynced` affirms: where it affirms a UID, that UID is not 0 and at most
-- the highest one, and it affirms the highest one too.
pub get_highest_synced_uid-run :
    (path : String) (calls : List (String × Call)) (m f : String) (x : ℕ)
    → is_synced (run (new path) calls) m f x ≡ true
    → (0 < x)
      × (x ≤ get_highest_synced_uid (run (new path) calls) m f)
      × (is_synced (run (new path) calls) m f (get_highest_synced_uid (run (new path) calls) m f)
          ≡ true)
get_highest_synced_uid-run path calls m f x h =
    let s = run (new path) calls in
    let valid = run-IsValid (new path) calls (new-IsValid path) in
    let bound = is_synced-le-highest s m f x valid h in
    (bound.0, bound.1, is_synced-highest s m f valid (omega (arith, bound.0, bound.1)))
