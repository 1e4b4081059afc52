-- ===== src/Mailbox/BoxCopies.antt =====
-- internal/mailbox/mailbox.go: a whole copy, under any schedules, only makes the calls of a copy on its
-- own mailbox.
use go_boxcopy.Base.{
  ℕ, ◌+◌, String, Bool, List, [], ◌∷◌, Option, none, some, length, inl, inr, Bool-cases,
  Option-cases,
}
use go_boxcopy.Base.Errors.{Result, ok, err}
use go_boxcopy.Base.Exec.{pure, resume}
use go_boxcopy.Base.Keeps.{Keeps, Keeps-handle, Keeps-bind}
use go_boxcopy.State.Data.{State}
use go_boxcopy.Imap.Api.{Api}
use go_boxcopy.Imap.Data.{Folder}
use go_boxcopy.Imap.Message.{is_no_select}
use go_boxcopy.Imap.Client.{Client}
use go_boxcopy.Mailbox.Data.{idle, disconnecting, Job, Sys, InSession, InSys, set_status}
use go_boxcopy.Mailbox.Box.{
  fail, both, dial_source, dial_target, close_client, connect_target, connect_anew, connect,
  close_if, disconnect, with_session, list_source, copy_loop, conclude, copy_connected,
  then_disconnect, copy,
}
use go_boxcopy.Mailbox.Copies.{Copies, here, finished, FromStart}
use go_boxcopy.Mailbox.FolderCopies.{copy_folders-Keeps, copy_folder-Keeps}

module _ (api : Api) (job : Job) (start : State) where
  open api use {World, Conn}

  abbrev InBox : {A : Type 0} → InSys api A → Type 0
  InBox = Keeps (λ s. Copies job.config.name start s.state)

  abbrev P : Sys Conn World → Type 0
  P s = Copies job.config.name start s.state

  dial_source-Keeps : InBox (dial_source api job)
  unfolding dial_source
  dial_source-Keeps s h = h

  dial_target-Keeps : InBox (dial_target api job)
  unfolding dial_target
  dial_target-Keeps s h = h

  close_client-Keeps : (c : Client Conn) → InBox (close_client api job c)
  unfolding close_client
  close_client-Keeps c s h = h

  connect_target-Keeps : (source : Client Conn) → InBox (connect_target api job source)
  unfolding connect_target
  connect_target-Keeps source =
      Keeps-handle P _ _ _ dial_target-Keeps (λ _. Keeps-bind P _ _ (λ t k. k) (λ _ t k. k))
        (λ _.
          Keeps-bind P _ _
            (Keeps-bind P _ _
              (Keeps-handle P _ _ _ (close_client-Keeps source) (λ _ t k. k) (λ _ t k. k))
              (λ _ t k. k))
            (λ _ t k. k))

  connect_anew-Keeps : InBox (connect_anew api job)
  unfolding connect_anew
  connect_anew-Keeps =
      Keeps-bind P _ _ (λ t k. k)
        (λ _.
          Keeps-handle P _ _ _ dial_source-Keeps
            (λ source. Keeps-bind P _ _ (λ t k. k) (λ _. connect_target-Keeps source)) (λ _ t k. k))

  connect-Keeps : InBox (connect api job)
  unfolding connect
  connect-Keeps s h = elim (Option-cases s.box.source_client) [
    | inl e ↦ rw (e, connect) (connect_anew-Keeps s h)
    | inr (c, e) ↦ elim (Option-cases s.box.target_client) [
      | inl f ↦ rw (e, f, connect) (connect_anew-Keeps s h)
      | inr (d, f) ↦ rw (e, f, connect) h
    ]
  ]

  close_if-Keeps : (format : String) (c : Option (Client Conn)) → InBox (close_if api job format c)
  unfolding close_if
  close_if-Keeps format none = λ t k. k
  close_if-Keeps format (some c) =
      Keeps-handle P _ _ _ (close_client-Keeps c) (λ _ t k. k) (λ _ t k. k)

  settle-Keeps :
      (r : Result (Unit {0})) (t : Sys Conn World) → P t → P (resume pure (fail api job) (r, t)).1
  settle-Keeps (ok _) t h = h
  settle-Keeps (err e) t h = h

  disconnect-Keeps : InBox (disconnect api job)
  unfolding disconnect
  disconnect-Keeps s h =
      let s1 = record s {
        box = record s.box { status = disconnecting; source_client = none; target_client = none };
      } in
      let c1 = close_if api job "source disconnect: %w" s.box.source_client s1 in
      let c2 = close_if api job "target disconnect: %w" s.box.target_client c1.1 in
      settle-Keeps (both api job c1.0 c2.0) (record c2.1 { box = set_status idle c2.1.box })
        (close_if-Keeps "target disconnect: %w" s.box.target_client c1.1
          (close_if-Keeps "source disconnect: %w" s.box.source_client s1 h))

  with_session-Keeps :
      {A : Type 0} (f : InSession api A)
      → Keeps (FromStart api job start) f
      → InBox (with_session api job f)
  unfolding with_session
  with_session-Keeps f kf s h = elim (Option-cases s.box.source_client) [
    | inl e ↦ rw (e, with_session) h
    | inr (c, e) ↦ elim (Option-cases s.box.target_client) [
      | inl g ↦ rw (e, g, with_session) h
      | inr (d, g) ↦ rw (e, g, with_session) (kf _ h)
    ]
  ]

  list_source-Keeps : InBox (list_source api job)
  unfolding list_source
  list_source-Keeps s h = elim (Option-cases s.box.source_client) [
    | inl e ↦ rw (e, list_source) h
    | inr (c, e) ↦ rw (e, list_source) h
  ]

  copy_loop-Keeps :
      (plan : ℕ → List Bool) (folders : List Folder) (fails : ℕ)
      → InBox (copy_loop api job plan folders fails)
  unfolding copy_loop
  copy_loop-Keeps plan [] fails s h = h
  copy_loop-Keeps plan (folder ∷ folders) fails s h =
      let rest = copy_loop-Keeps plan folders in
      elim (Bool-cases (is_no_select folder)) [
        | inl e ↦ rw (e, copy_loop) (rest fails s h)
        | inr e ↦
            rw (e, copy_loop)
              (Keeps-handle P _ _ _
                (with_session-Keeps _
                  (copy_folder-Keeps api job start (plan (length folders)) folder.name))
                (λ _. rest fails)
                (λ _.
                  Keeps-bind P _ _ (Keeps-handle P _ _ _ disconnect-Keeps (λ _ t k. k) (λ _ t k. k))
                    (λ _. Keeps-handle P _ _ _ connect-Keeps (λ _. rest (fails + 1)) (λ _ t k. k)))
                s h)
      ]

  conclude-Keeps : (fails : ℕ) → InBox (conclude api job fails)
  unfolding conclude
  conclude-Keeps fails s h = finished h _

  copy_connected-Keeps : (plan : ℕ → List Bool) → InBox (copy_connected api job plan)
  unfolding copy_connected
  copy_connected-Keeps plan =
      Keeps-bind P _ _ (λ t k. k)
        (λ _.
          Keeps-handle P _ _ _ (with_session-Keeps _ (copy_folders-Keeps api job start))
            (λ _.
              Keeps-handle P _ _ _ list_source-Keeps
                (λ folders. Keeps-bind P _ _ (copy_loop-Keeps plan folders 0) conclude-Keeps)
                (λ _ t k. k))
            (λ _ t k. k))

  then_disconnect-Keeps :
      (body : InSys api (Unit {0})) → InBox body → InBox (then_disconnect api job body)
  unfolding then_disconnect
  then_disconnect-Keeps body kb s h = disconnect-Keeps _ (kb s h)

  copy-Keeps : (plan : ℕ → List Bool) → InBox (copy api job plan)
  unfolding copy
  copy-Keeps plan =
      Keeps-bind P _ _ connect-Keeps (λ _. then_disconnect-Keeps _ (copy_connected-Keeps plan))

-- Whatever the servers answer and however the fetcher and the copier interleave, a copy changes the
-- sync state only by calls of a copy on the mailbox of its own configuration.
pub copy-Copies :
    (api : Api) (job : Job) (plan : ℕ → List Bool) (s : Sys api.Conn api.World)
    → Copies job.config.name s.state (copy api job plan s).1.state
copy-Copies api job plan s = copy-Keeps api job s.state plan s here
