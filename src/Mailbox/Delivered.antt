-- ===== src/Mailbox/Delivered.antt =====
-- internal/mailbox/copy.go: a folder's copy that reports no error has lost no message of a batch.
use go_boxcopy.Base.{
  String, ◌≡◌, refl, true, ◌||◌, List, [], ◌∷◌, Option, none, some, inl, inr, arith, ◌==◌, nat_eq,
  string_eq, Bool-cases, Option-cases, All, All-imply, subst, sym,
}
use go_boxcopy.Base.Errors.{Error, ok, err, Result-cases}
use go_boxcopy.Base.Exec.{handle}
use go_boxcopy.Base.Keeps.{Keeps, Keeps-bind}
use go_boxcopy.State.Reads.{is_synced}
use go_boxcopy.Imap.Api.{Api}
use go_boxcopy.Imap.Data.{Message}
use go_boxcopy.Imap.Fetch.{blank_message}
use go_boxcopy.Imap.Message.{is_deleted}
use go_boxcopy.Imap.Messages.{append}
use go_boxcopy.Mailbox.Data.{Job, Session}
use go_boxcopy.Mailbox.Message.{append_message, admitted, copy_message}
use go_boxcopy.Mailbox.Pipeline.{
  Batch, first_error, fetch_failed, Copier, check, copy_one, copy_messages, copy_batch,
  copy_batches,
}
use go_boxcopy.Mailbox.Repeat.{is_synced-record_copy_keep, copy_message_done}

pub first_error_some : (o : Option Error) (e : Error) → first_error o e ≡ none → ⊥
first_error_some none e h = cc
first_error_some (some d) e h = cc

module _ (api : Api) (job : Job) (folder : String) where
  open api use {World, Conn}

  -- A message that is synced or deleted.
  abbrev pub IsDone : Session Conn World → Message → Type 0
  IsDone s msg = (is_synced s.state job.config.name folder msg.uid || is_deleted msg) ≡ true

  append_message-IsDone :
      (sent msg : Message) → Keeps (λ s. IsDone s sent) (append_message api job folder msg)
  unfolding append_message handle
  append_message-IsDone sent msg s h =
      let out = record (blank_message 0) {
        flags = msg.flags;
        internal_date = msg.internal_date;
        body = msg.body;
      } in
      elim (Result-cases (append api folder out (s.target, s.world)).0) [
        | inl (target, e) ↦
            rw (e, append_message)
              (ground (
                arith,
                is_synced-record_copy_keep s.state job.config.name folder msg.uid target
                    job.config.name folder sent.uid,
              ))
        | inr (d, e) ↦ rw (e, append_message) h
      ]

  admitted-IsDone : (sent : Message) → Keeps (λ s. IsDone s sent) (admitted api job folder)
  unfolding admitted
  admitted-IsDone sent s h = elim (Bool-cases job.throttled) [
    | inr e ↦ rw (e, admitted) h
    | inl e ↦ elim (Option-cases (api.admit s.world).0) [
      | inl p ↦ rw (e, p, admitted) h
      | inr (d, p) ↦ rw (e, p, admitted) h
    ]
  ]

  copy_message-IsDone :
      (sent msg : Message) → Keeps (λ s. IsDone s sent) (copy_message api job folder msg)
  unfolding copy_message
  copy_message-IsDone sent msg s h = elim (Bool-cases (msg.uid == 0)) [
    | inl e ↦ rw (e, copy_message) h
    | inr e ↦ elim (Bool-cases (is_synced s.state job.config.name folder msg.uid)) [
      | inl p ↦ rw (e, p, copy_message) h
      | inr p ↦ elim (Bool-cases (is_deleted msg)) [
        | inl q ↦ rw (e, p, q, copy_message) h
        | inr q ↦
            rw (e, p, q, copy_message)
              (Keeps-bind (λ s. IsDone s sent) (admitted api job folder)
                (λ _. append_message api job folder msg) (admitted-IsDone sent)
                (λ _. append_message-IsDone sent msg) s h)
      ]
    ]
  ]

  -- The copier has reported nothing so far.
  abbrev pub IsClean : Copier Conn World → Type 0
  IsClean c = (c.copy_err ≡ none) × (c.msg_fail_count ≡ 0)

  pub copy_one-IsDone :
      (sent msg : Message) (c : Copier Conn World)
      → IsDone c.session sent
      → IsDone (copy_one api job folder msg c).1.session sent
  unfolding copy_one check
  copy_one-IsDone sent msg c h = elim (Option-cases (api.ctx_err c.session.world).0) [
    | inl e ↦ rw (e, copy_one) (copy_message-IsDone sent msg _ h)
    | inr (d, e) ↦ rw (e, copy_one) h
  ]

  -- A report is never taken back, and an interrupted loop has made one.
  pub copy_one-IsClean :
      (msg : Message) (c : Copier Conn World)
      → IsClean (copy_one api job folder msg c).1
      → IsClean c
        × ((copy_one api job folder msg c).0 ≡ true)
        × IsDone (copy_one api job folder msg c).1.session msg
  unfolding copy_one check
  copy_one-IsClean msg c h = elim (Option-cases (api.ctx_err c.session.world).0) [
    | inr (d, e) ↦ absurd (first_error_some c.copy_err d ((rw (e, copy_one) at h).0))
    | inl e ↦
        let s = record c.session { world = (api.ctx_err c.session.world).1 } in
        elim (Result-cases (copy_message api job folder msg s).0) [
          | inl (_, f) ↦
              let h' = rw (e, f, copy_one) at h in
              rw (e, copy_one) (h', refl, copy_message_done api job folder msg s f)
          | inr (d, f) ↦ absurd (let h' = rw (e, f, copy_one) at h in omega (arith, h'.1))
        ]
  ]

  pub copy_messages-IsDone :
      (sent : Message) (msgs : List Message) (c : Copier Conn World)
      → IsDone c.session sent
      → IsDone (copy_messages api job folder msgs c).session sent
  unfolding copy_messages
  copy_messages-IsDone sent [] c h = h
  copy_messages-IsDone sent (msg ∷ msgs) c h =
      let kept = copy_one-IsDone sent msg c h in
      elim (Bool-cases (copy_one api job folder msg c).0) [
        | inl e ↦ rw (e, copy_messages) (copy_messages-IsDone sent msgs _ kept)
        | inr e ↦ rw (e, copy_messages) kept
      ]

  pub copy_messages-IsClean :
      (msgs : List Message) (c : Copier Conn World)
      → IsClean (copy_messages api job folder msgs c)
      → IsClean c × All (IsDone (copy_messages api job folder msgs c).session) msgs
  unfolding copy_messages
  copy_messages-IsClean [] c h = (h, tt)
  copy_messages-IsClean (msg ∷ msgs) c h =
      let c' = (copy_one api job folder msg c).1 in
      elim (Bool-cases (copy_one api job folder msg c).0) [
        | inl e ↦
            let rest = copy_messages-IsClean msgs c' (rw (e, copy_messages) at h) in
            let one = copy_one-IsClean msg c rest.0 in
            let same : copy_messages api job folder (msg ∷ msgs) c
                ≡ copy_messages api job folder msgs c' =
              rw (e, copy_messages) refl in
            subst (λ t. IsClean c × (IsDone t.session msg × All (IsDone t.session) msgs)) (sym same)
              (one.0, (copy_messages-IsDone msg msgs c' one.2, rest.1))
        | inr e ↦
            let one = copy_one-IsClean msg c (rw (e, copy_messages) at h) in
            absurd (ground (arith, one.1))
      ]

  pub copy_batches-IsDone :
      (sent : Message) (bs : List Batch) (c : Copier Conn World)
      → IsDone c.session sent
      → IsDone (copy_batches api job folder bs c).session sent
  unfolding copy_batches copy_batch
  copy_batches-IsDone sent [] c h = h
  copy_batches-IsDone sent (ok msgs ∷ bs) c h =
      copy_batches-IsDone sent bs _ (copy_messages-IsDone sent msgs c h)
  copy_batches-IsDone sent (err e ∷ bs) c h =
      copy_batches-IsDone sent bs (fetch_failed api job folder c e) h

  -- A batch that was fetched, with each of its messages copied.
  abbrev pub IsDelivered : Session Conn World → Batch → Type 0
  IsDelivered s (ok msgs) = All (IsDone s) msgs
  IsDelivered s (err e) = ⊥

  -- When the copier ends without an error and without a failed message, then it had none before
  -- either, each of its batches was fetched, and each message of each batch is synced or deleted.
  pub copy_batches-IsClean :
      (bs : List Batch) (c : Copier Conn World)
      → IsClean (copy_batches api job folder bs c)
      → IsClean c × All (IsDelivered (copy_batches api job folder bs c).session) bs
  unfolding copy_batches copy_batch
  copy_batches-IsClean [] c h = (h, tt)
  copy_batches-IsClean (ok msgs ∷ bs) c h =
      let rest = copy_batches-IsClean bs (copy_messages api job folder msgs c) h in
      let one = copy_messages-IsClean msgs c rest.0 in
      (
        one.0,
        (
          All-imply (λ sent. copy_batches-IsDone sent bs (copy_messages api job folder msgs c)) msgs
              one.1,
          rest.1,
        ),
      )
  copy_batches-IsClean (err e ∷ bs) c h =
      let rest = copy_batches-IsClean bs (fetch_failed api job folder c e) h in
      absurd (first_error_some c.copy_err _ rest.0.0)
