-- ===== src/Runner/QueueLaws.antt =====
-- internal/runner/runner.go: what the use of a worker pool does to the state that the tasks share.

use go_boxcopy.Base.{
  ◌≡◌, refl, List, [], ◌∷◌, none, inl, inr, Memᴰ, Option-cases, subst, sym, ap, String,
}
use go_boxcopy.Base.Int.{ℤ}
use go_boxcopy.Base.Errors.{Error, Result-cases, ok}
use go_boxcopy.Base.Exec.{Exec}
use go_boxcopy.Base.Keeps.{Keeps}
use go_boxcopy.Config.Data.{MailboxConfig}
use go_boxcopy.Runner.Data.{Pool}
use go_boxcopy.Runner.Queue.{enqueue_all, run_tasks, run_queue}

-- WaitForTasks returns without an error only when every task of the queue has run.
abbrev pub RunsAll : {World : Type 0} → Pool World → Type 0
RunsAll {World} pool =
    (queue : List MailboxConfig) (timeout : ℤ) (w : World)
    → (pool.work queue timeout w).0.1 ≡ none
    → (mb : MailboxConfig) → Memᴰ mb queue
    → Memᴰ mb (pool.work queue timeout w).0.0

-- Steps for the mailboxes of a list, one after the other, each on what the one before has left.
pub data Chain {S : Type 0} (R : MailboxConfig → S → S → Type 0)
    : List MailboxConfig → S → S → Type 0 where
  rests : {s : S} → Chain R [] s s
  runs :
      {mb : MailboxConfig} {mbs : List MailboxConfig} {s t u : S}
      → R mb s t
      → Chain R mbs t u
      → Chain R (mb ∷ mbs) s u

-- A list of turns that has each mailbox of another list.
abbrev pub Covers : List MailboxConfig → List MailboxConfig → Type 0
Covers ran mbs = (mb : MailboxConfig) → Memᴰ mb mbs → Memᴰ mb ran

module _ {S : Type 0} (task : MailboxConfig → Exec S (Unit {0})) where
  run_tasks-Keeps {κ} :
      (P : S → Type κ)
      → ((mb : MailboxConfig) → Keeps P (task mb))
      → (mbs : List MailboxConfig) (s : S) → P s
      → P (run_tasks task mbs s).1
  unfolding run_tasks
  run_tasks-Keeps P k [] s h = h
  run_tasks-Keeps P k (mb ∷ mbs) s h = run_tasks-Keeps P k mbs (task mb s).1 (k mb s h)

  -- When no task has failed, each has taken its step.
  run_tasks-Chain :
      (R : MailboxConfig → S → S → Type 0)
      → ((mb : MailboxConfig) (s : S) → (task mb s).0 ≡ ok tt → R mb s (task mb s).1)
      → (mbs : List MailboxConfig) (s : S) → (run_tasks task mbs s).0 ≡ 0
      → Chain R mbs s (run_tasks task mbs s).1
  unfolding run_tasks
  run_tasks-Chain R each [] s h = rests
  run_tasks-Chain R each (mb ∷ mbs) s h = elim (Result-cases (task mb s).0) [
    | inr (e, f) ↦ absurd (cc (rw (run_tasks, f) at h))
    | inl (_, f) ↦
        runs (each mb s f) (run_tasks-Chain R each mbs (task mb s).1 (rw (run_tasks, f) at h))
  ]

module _ {S World : Type 0} (pool : Pool World) (world_of : S → World)
    (with_world : S → World → S) where
  enqueue_all-Keeps {κ} :
      (P : S → Type κ)
      → ((s : S) (w : World) → P s → P (with_world s w))
      → (mbs : List MailboxConfig) (s : S) → P s
      → P (enqueue_all pool world_of with_world mbs s).1
  unfolding enqueue_all
  enqueue_all-Keeps P k [] s h = h
  enqueue_all-Keeps P k (mb ∷ mbs) s h =
      let s1 = with_world s (pool.enqueue mb (world_of s)).1 in
      elim (Option-cases (pool.enqueue mb (world_of s)).0) [
        | inr (e, f) ↦ rw (enqueue_all, f) (k s _ h)
        | inl f ↦ rw (enqueue_all, f) (enqueue_all-Keeps P k mbs s1 (k s _ h))
      ]

  -- Nothing is refused only when everything is in the queue.
  enqueue_all_accepted :
      (mbs : List MailboxConfig) (s : S)
      → (enqueue_all pool world_of with_world mbs s).0.1 ≡ none
      → (enqueue_all pool world_of with_world mbs s).0.0 ≡ mbs
  unfolding enqueue_all
  enqueue_all_accepted [] s h = refl
  enqueue_all_accepted (mb ∷ mbs) s h =
      let s1 = with_world s (pool.enqueue mb (world_of s)).1 in
      elim (Option-cases (pool.enqueue mb (world_of s)).0) [
        | inr (e, f) ↦ absurd (cc (rw (enqueue_all, f) at h))
        | inl f ↦
            rw (enqueue_all, f)
              (ap (◌∷◌ mb) (enqueue_all_accepted mbs s1 (rw (enqueue_all, f) at h)))
      ]

  -- The state at the first turn: the queue is filled, and the pool has chosen.
  abbrev pub started : ℤ → List MailboxConfig → S → S
  started timeout mbs s =
      let q = enqueue_all pool world_of with_world mbs s in
      with_world q.1 (pool.work q.0.0 timeout (world_of q.1)).1

  module _ (task : MailboxConfig → Exec S (Unit {0})) where
    -- What the world plays no part in and every task keeps is kept, whatever the pool does.
    pub run_queue-Keeps {κ} :
        (P : S → Type κ)
        → ((s : S) (w : World) → P s → P (with_world s w))
        → ((mb : MailboxConfig) → Keeps P (task mb))
        → (refusal : String) (timed_out : Error → Error) (timeout : ℤ) (mbs : List MailboxConfig)
        → Keeps P (run_queue pool world_of with_world task refusal timed_out timeout mbs)
    unfolding run_queue
    run_queue-Keeps P k t refusal timed_out timeout mbs s h =
        let q = enqueue_all pool world_of with_world mbs s in
        let r = pool.work q.0.0 timeout (world_of q.1) in
        run_tasks-Keeps task P t r.0.0 (with_world q.1 r.1)
          (k q.1 r.1 (enqueue_all-Keeps P k mbs s h))

    -- When no task has failed, each mailbox has had its turn, and its task did what a task that
    -- succeeds does, on what the turns before it have left.
    pub run_queue-Chain :
        RunsAll pool
        → (R : MailboxConfig → S → S → Type 0)
        → ((mb : MailboxConfig) (s : S) → (task mb s).0 ≡ ok tt → R mb s (task mb s).1)
        → (refusal : String) (timed_out : Error → Error) (timeout : ℤ) (mbs : List MailboxConfig)
          (s : S)
        → (run_queue pool world_of with_world task refusal timed_out timeout mbs s).0 ≡ ok 0
        → (ran : List MailboxConfig) × Covers ran mbs
          × Chain R ran
              (started timeout mbs s)
              (run_queue pool world_of with_world task refusal timed_out timeout mbs s).1
    unfolding run_queue
    run_queue-Chain all R each refusal timed_out timeout mbs s h =
        let q = enqueue_all pool world_of with_world mbs s in
        let r = pool.work q.0.0 timeout (world_of q.1) in
        elim (Option-cases q.0.1) [
          | inr (e, f) ↦ absurd (cc (rw (run_queue, f) at h))
          | inl f ↦ elim (Option-cases r.0.1) [
            | inr (e, g) ↦ absurd (cc (rw (run_queue, f, g) at h))
            | inl g ↦
                let none_failed = rw (run_queue, f, g) at h in
                (
                  r.0.0,
                  λ mb m.
                      all q.0.0 timeout (world_of q.1) g mb
                        (subst (λ l. Memᴰ mb l) (sym (enqueue_all_accepted mbs s f)) m),
                  run_tasks-Chain task R each r.0.0 (with_world q.1 r.1) (cc none_failed),
                )
          ]
        ]
