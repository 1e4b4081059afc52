-- ===== src/Mailbox/Cancelled.antt =====
-- internal/mailbox/copy.go: a folder's copy under a context that is done.
use go_boxcopy.Base.{
  ap, ℕ, zero, suc, nat_eq, List-cases, String, ◌≡◌, refl, Bool, true, false, List, [], ◌∷◌, none,
  some, inl, inr, Bool-cases, length,
}
use go_boxcopy.Base.Errors.{Error, ok}
use go_boxcopy.State.Data.{Time, State}
use go_boxcopy.State.Ops.{update_last_sync}
use go_boxcopy.Imap.Api.{Api}
use go_boxcopy.Mailbox.Data.{Job, Session}
use go_boxcopy.Mailbox.Pipeline.{
  Copier, Pipe, check, fetch_step, copy_step, run_schedule, copy_messages, copy_batches, fetch_rest,
  finish, run_pipeline,
}
use go_boxcopy.Mailbox.Folder.{folder_error, sync_folder, copy_unsynced}

-- The context is done in every world.
abbrev pub IsDone : Api → Type 0
IsDone api = (w : api.World) → (e : Error) × ((api.ctx_err w).0 ≡ some e)

module _ (api : Api) (job : Job) (folder : String) (start : State) where
  open api use {World, Conn}

  -- Nothing has been fetched, copied or reported.
  record IsUntouched (c : Copier Conn World) : Type 0 where
    same_state : c.session.state ≡ start
    no_error : c.copy_err ≡ none
    no_failure : c.msg_fail_count ≡ 0

  record IsQuiet (p : Pipe Conn World) : Type 0 where
    nothing_pending : p.pending ≡ none
    nothing_sent : p.channel ≡ []
    nothing_left : p.current ≡ []
    untouched : IsUntouched p.copier

  fetch_step-IsQuiet :
      (p : Pipe Conn World) → IsDone api → IsQuiet p → IsQuiet (fetch_step api job folder p)
  unfolding fetch_step check
  fetch_step-IsQuiet p d q = elim (Bool-cases p.closed) [
    | inl e ↦
        rw (e, fetch_step)
          (record {
            nothing_pending = q.nothing_pending;
            nothing_sent = q.nothing_sent;
            nothing_left = q.nothing_left;
            untouched = q.untouched;
          })
    | inr e ↦ elim (List-cases p.todo) [
      | inl t ↦
          rw (e, q.nothing_pending, t, fetch_step)
            (record {
              nothing_pending = q.nothing_pending;
              nothing_sent = q.nothing_sent;
              nothing_left = q.nothing_left;
              untouched = q.untouched;
            })
      | inr (uid, uids, t) ↦
          rw (e, q.nothing_pending, t, (d p.copier.session.world).1, fetch_step)
            (record {
              nothing_pending = q.nothing_pending;
              nothing_sent = q.nothing_sent;
              nothing_left = q.nothing_left;
              untouched = record {
                same_state = q.untouched.same_state;
                no_error = q.untouched.no_error;
                no_failure = q.untouched.no_failure;
              };
            })
    ]
  ]

  copy_step-IsQuiet : (p : Pipe Conn World) → IsQuiet p → IsQuiet (copy_step api job folder p)
  unfolding copy_step
  copy_step-IsQuiet p q = rw (q.nothing_left, q.nothing_sent, copy_step) q

  run_schedule-IsQuiet :
      (schedule : List Bool) (p : Pipe Conn World)
      → IsDone api
      → IsQuiet p
      → IsQuiet (run_schedule api job folder schedule p)
  unfolding run_schedule
  run_schedule-IsQuiet [] p d q = q
  run_schedule-IsQuiet (true ∷ schedule) p d q =
      run_schedule-IsQuiet schedule _ d (fetch_step-IsQuiet p d q)
  run_schedule-IsQuiet (false ∷ schedule) p d q =
      run_schedule-IsQuiet schedule _ d (copy_step-IsQuiet p q)

  fetch_rest-IsUntouched :
      (fuel : ℕ) (todo : List ℕ) (c : Copier Conn World)
      → IsDone api
      → IsUntouched c
      → IsUntouched (fetch_rest api job folder fuel todo c)
  unfolding fetch_rest check
  fetch_rest-IsUntouched zero todo c d u = u
  fetch_rest-IsUntouched (suc fuel) [] c d u = u
  fetch_rest-IsUntouched (suc fuel) (uid ∷ uids) c d u =
      rw ((d c.session.world).1, fetch_rest)
        (record { same_state = u.same_state; no_error = u.no_error; no_failure = u.no_failure })

  finish-IsUntouched :
      (p : Pipe Conn World) → IsDone api → IsQuiet p → IsUntouched (finish api job folder p)
  unfolding finish copy_batches copy_messages
  finish-IsUntouched p d q = elim (Bool-cases p.closed) [
    | inl e ↦ rw (e, q.nothing_left, q.nothing_sent, finish) q.untouched
    | inr e ↦
        rw (e, q.nothing_pending, q.nothing_left, q.nothing_sent, finish)
          (fetch_rest-IsUntouched (length p.todo) p.todo p.copier d q.untouched)
  ]

-- Under a context that is done, the copy of a folder's unsynced messages reports success, whatever
-- the schedule, and does to the sync state what `UpdateLastSync` of the folder does, and no more: it
-- sets the times of the last sync of the folder and of its mailbox, counts a sync of the mailbox and
-- leaves the state dirty, with no UID marked.
pub copy_unsynced_cancelled :
    (api : Api) (job : Job) (schedule : List Bool) (folder : String) (uids : List ℕ)
    (s : Session api.Conn api.World)
    → IsDone api
    → ((copy_unsynced api job schedule folder uids s).0 ≡ ok tt)
      × ((now : Time) × ((copy_unsynced api job schedule folder uids s).1.state
            ≡ update_last_sync s.state job.config.name folder now))
unfolding copy_unsynced sync_folder run_pipeline folder_error
copy_unsynced_cancelled api job schedule folder uids s d =
    let p = run_schedule api job folder schedule (record {
      todo = uids;
      closed = false;
      pending = none;
      channel = [];
      current = [];
      copier = record { session = s; copy_err = none; msg_fail_count = 0 };
    }) in
    let u = finish-IsUntouched api job folder s.state p d (
      run_schedule-IsQuiet api job folder s.state schedule _ d (record {
        nothing_pending = refl;
        nothing_sent = refl;
        nothing_left = refl;
        untouched = record { same_state = refl; no_error = refl; no_failure = refl };
      })) in
    let now = (api.now (run_pipeline api job folder schedule uids s).session.world).0 in
    rw (u.no_error, u.no_failure, copy_unsynced)
      (refl, (now, ap (λ t. update_last_sync t job.config.name folder now) u.same_state))
