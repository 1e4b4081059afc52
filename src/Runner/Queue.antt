-- ===== src/Runner/Queue.antt =====
-- internal/runner/runner.go: how `cleanTargets` and `performCopy` use a worker pool.
use go_boxcopy.Base.{ℕ, suc, String, List, [], ◌∷◌, Option, none, some}
use go_boxcopy.Base.Int.{ℤ}
use go_boxcopy.Base.Errors.{str, Error, wrapf, ok, err}
use go_boxcopy.Base.Exec.{Exec}
use go_boxcopy.Config.Data.{MailboxConfig}
use go_boxcopy.Runner.Data.{Pool}

module _ {S : Type 0} (task : MailboxConfig → Exec S (Unit {0})) where
  -- The tasks in the order of their turns, with the number of those that failed.
  unfoldable pub run_tasks : List MailboxConfig → S → ℕ × S
  run_tasks [] s = (0, s)
  run_tasks (mb ∷ mbs) s =
      let (r, s1) = task mb s in
      let (fails, s2) = run_tasks mbs s1 in (elim r [ ok _ ↦ fails | err _ ↦ suc fails ], s2)

-- The use of a worker pool by tasks on a state that holds the world. A task runs on its own here;
-- the tasks of a pool only share the sync state, whose methods each are one step.
module _ {S World : Type 0} (pool : Pool World) (world_of : S → World)
    (with_world : S → World → S) where
  abbrev on_world : {A : Type 0} → (World → A × World) → S → A × S
  on_world f s = let (a, w) = f (world_of s) in (a, with_world s w)

  -- The loop that fills the queue, up to the first mailbox that is refused.
  unfoldable pub enqueue_all :
      List MailboxConfig → S → (List MailboxConfig × Option (String × Error)) × S
  enqueue_all [] s = (([], none), s)
  enqueue_all (mb ∷ mbs) s =
      let (o, s1) = on_world (pool.enqueue mb) s in
      let ((queued, refused), s2) = enqueue_all mbs s1 in
      elim o [ some e ↦ (([], some (mb.name, e)), s1) | none ↦ ((mb ∷ queued, refused), s2) ]

  module _ (task : MailboxConfig → Exec S (Unit {0})) where
    -- From the new pool to the end of the wait, with the number of tasks that failed.
    unfoldable pub run_queue : String → (Error → Error) → ℤ → List MailboxConfig → Exec S ℕ
    unfolding enqueue_all run_tasks
    run_queue refusal timed_out timeout mbs s =
        let ((queued, refused), s1) = enqueue_all mbs s in
        let ((ran, unfinished), s2) = on_world (pool.work queued timeout) s1 in
        let (fails, s3) = run_tasks task ran s2 in
        (
          elim refused [
            | some (name, e) ↦ err (wrapf refusal (str name ∷ []) e)
            | none ↦ elim unfinished [ some e ↦ err (timed_out e) | none ↦ ok fails ]
          ],
          s3,
        )
