-- ===== src/Mailbox/Lossless.antt =====
-- internal/mailbox/copy.go: the pipeline of a folder loses no message.
use go_boxcopy.Base.{
  ℕ, String, ◌≡◌, Bool, true, false, ◌||◌, List, [], ◌∷◌, none, ◌⊎◌, inl, inr, arith, nat_eq,
  string_eq, contains, map, subst, Bool-cases, Option-cases, List-cases,
}
use go_boxcopy.Base.Errors.{ok}
use go_boxcopy.State.Reads.{is_synced, get_unsynced_uids}
use go_boxcopy.State.Unsynced.{contains-get_unsynced_uids}
use go_boxcopy.State.Ops.{update_last_sync}
use go_boxcopy.State.Updates.{is_synced_lem}
use go_boxcopy.Mailbox.Targets.{SameUids-update_last_sync}
use go_boxcopy.Imap.Api.{Api}
use go_boxcopy.Imap.Data.{Message}
use go_boxcopy.Mailbox.Data.{Job, Session}
use go_boxcopy.Mailbox.Pipeline.{Copier, Pipe, run_schedule, run_pipeline}
use go_boxcopy.Mailbox.Folder.{folder_error, copy_unsynced, sync_folder, copy_listed}
use go_boxcopy.Mailbox.Delivered.{IsClean}
use go_boxcopy.Mailbox.Answered.{AnswersAll}
use go_boxcopy.Mailbox.Owed.{Done}
use go_boxcopy.Mailbox.Finished.{run_schedule-IsTracked, finish-Done}
use go_boxcopy.Mailbox.Tracked.{IsTracked}

module _ (uid : ℕ) (gone : Bool) (api : Api) (job : Job) (folder : String)
    (ctx : (w : api.World) → (api.ctx_err w).0 ≡ none) (answers : AnswersAll uid gone api) where
  open api use {World, Conn}

  is_synced-sync_folder :
      (s : Session Conn World)
      → Done uid gone api job folder s
      → Done uid gone api job folder (sync_folder api job folder s).1
  unfolding sync_folder
  is_synced-sync_folder s d =
      let name = job.config.name in
      let t = update_last_sync s.state name folder (api.now s.world).0 in
      let same = SameUids-update_last_sync s.state name folder (api.now s.world).0 folder in
      ground
        (arith, d, same.0, is_synced_lem s.state name folder uid, is_synced_lem t name folder uid)

  folder_error-IsClean :
      (c : Copier Conn World)
      → folder_error folder c.copy_err c.msg_fail_count ≡ none
      → IsClean api job folder c
  unfolding folder_error
  folder_error-IsClean c h = ground (arith, h)

  run_pipeline-Done :
      (schedule : List Bool) (uids : List ℕ) (s : Session Conn World)
      → (contains uids uid ≡ true) ⊎ Done uid gone api job folder s
      → IsClean api job folder (run_pipeline api job folder schedule uids s)
      → Done uid gone api job folder (run_pipeline api job folder schedule uids s).session
  unfolding run_pipeline
  run_pipeline-Done schedule uids s i h =
      let p : Pipe Conn World = record {
        todo = uids;
        closed = false;
        pending = none;
        channel = [];
        current = [];
        copier = record { session = s; copy_err = none; msg_fail_count = 0 };
      } in
      let start : IsTracked uid gone api job folder ctx answers p = λ k a. (
        λ b. elim i [ inl e ↦ inl e | inr d ↦ inr (inr (inr (inr d))) ],
        λ e. absurd (ground (arith, e)),
      ) in
      finish-Done uid gone api job folder ctx answers (run_schedule api job folder schedule p)
        (run_schedule-IsTracked uid gone api job folder ctx answers schedule p start) h

  copy_unsynced_lossless :
      (schedule : List Bool) (uids : List ℕ) (s : Session Conn World)
      → (contains uids uid ≡ true) ⊎ Done uid gone api job folder s
      → (copy_unsynced api job schedule folder uids s).0 ≡ ok tt
      → Done uid gone api job folder (copy_unsynced api job schedule folder uids s).1
  unfolding copy_unsynced
  copy_unsynced_lossless schedule uids s i h =
      let c = run_pipeline api job folder schedule uids s in
      elim (Option-cases (folder_error folder c.copy_err c.msg_fail_count)) [
        | inr (d, e) ↦ absurd (cc (rw (e, copy_unsynced) at h))
        | inl e ↦
            rw (e, copy_unsynced)
              (is_synced-sync_folder c.session
                (run_pipeline-Done schedule uids s i (folder_error-IsClean c e)))
      ]

  -- While the context is not done, and if the server answers each fetch with a UID of the list among
  -- others by its message too, the copy of the list loses no message, whatever its schedule: if it
  -- reports no error, the UID is synced afterwards, or its message is marked as deleted.
  pub copy_listed_lossless :
      (schedule : List Bool) (msgs : List Message) (s : Session Conn World)
      → contains (map (λ m. m.uid) msgs) uid ≡ true
      → (copy_listed api job schedule folder msgs s).0 ≡ ok tt
      → (is_synced (copy_listed api job schedule folder msgs s).1.state job.config.name folder uid
          || gone)
        ≡ true
  unfolding copy_listed contains
  copy_listed_lossless schedule [] s i h = absurd (ground (arith, i))
  copy_listed_lossless schedule (msg ∷ msgs) s i h =
      let name = job.config.name in
      let all = map (λ m. m.uid) (msg ∷ msgs) in
      let rest = get_unsynced_uids s.state name folder all in
      let split = contains-get_unsynced_uids s.state name folder all uid in
      let there : (contains rest uid ≡ true) ⊎ Done uid gone api job folder s =
        elim (Bool-cases (is_synced s.state name folder uid)) [
          | inl e ↦ inr (ground (arith, e))
          | inr e ↦ inl (ground (arith, e, i, split))
        ] in
      elim (List-cases rest) [
        | inl e ↦
            rw (e, copy_listed) (elim there [ inl k ↦ absurd (ground (arith, e, k)) | inr d ↦ d ])
        | inr (x, xs, e) ↦
            rw (e, copy_listed)
              (copy_unsynced_lossless schedule (x ∷ xs) s
                (subst (λ uids. (contains uids uid ≡ true) ⊎ Done uid gone api job folder s) e
                  there)
                (rw (e, copy_listed) at h))
      ]
