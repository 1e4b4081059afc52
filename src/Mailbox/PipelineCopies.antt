-- ===== src/Mailbox/PipelineCopies.antt =====
-- internal/mailbox/copy.go: the pipeline, under any schedule, only makes the calls of a copy.
use go_boxcopy.Base.{
  ℕ, zero, suc, String, Bool, true, false, List, [], ◌∷◌, length, inl, inr, ltb, Bool-cases,
  List-cases, Option-cases,
}
use go_boxcopy.Base.Errors.{ok, err}
use go_boxcopy.State.Data.{State}
use go_boxcopy.Imap.Api.{Api}
use go_boxcopy.Imap.Data.{Message}
use go_boxcopy.Mailbox.Data.{Job, Session}
use go_boxcopy.Mailbox.Pipeline.{
  Batch, is_err, channel_size, Copier, Pipe, check, copy_one, fetch_batch, fetch_step, copy_step,
  run_schedule, copy_messages, copy_batch, copy_batches, fetch_rest, finish, run_pipeline,
}
use go_boxcopy.Mailbox.Copies.{FromStart, copy_message-Keeps}

module _ (api : Api) (job : Job) (start : State) (folder : String) where
  open api use {World, Conn}

  abbrev pub CopierFromStart : Copier Conn World → Type 0
  CopierFromStart c = FromStart api job start c.session

  copy_one-Keeps :
      (msg : Message) (c : Copier Conn World)
      → CopierFromStart c
      → CopierFromStart (copy_one api job folder msg c).1
  unfolding copy_one check
  copy_one-Keeps msg c h = elim (Option-cases (api.ctx_err c.session.world).0) [
    | inl e ↦ rw (e, copy_one) (copy_message-Keeps api job start folder msg _ h)
    | inr (d, e) ↦ rw (e, copy_one) h
  ]

  fetch_step-Keeps :
      (p : Pipe Conn World)
      → CopierFromStart p.copier
      → CopierFromStart (fetch_step api job folder p).copier
  unfolding fetch_step check fetch_batch
  fetch_step-Keeps p h = elim (Bool-cases p.closed) [
    | inl e ↦ rw (e, fetch_step) h
    | inr e ↦ elim (Option-cases p.pending) [
      | inr (b, f) ↦ elim (Bool-cases (ltb (length p.channel) channel_size)) [
        | inl g ↦ rw (e, f, g, fetch_step) h
        | inr g ↦ rw (e, f, g, fetch_step) h
      ]
      | inl f ↦ elim (List-cases p.todo) [
        | inl g ↦ rw (e, f, g, fetch_step) h
        | inr (uid, uids, g) ↦ elim (Option-cases (api.ctx_err p.copier.session.world).0) [
          | inl k ↦ rw (e, f, g, k, fetch_step) h
          | inr (d, k) ↦ rw (e, f, g, k, fetch_step) h
        ]
      ]
    ]
  ]

  copy_step-Keeps :
      (p : Pipe Conn World)
      → CopierFromStart p.copier
      → CopierFromStart (copy_step api job folder p).copier
  unfolding copy_step
  copy_step-Keeps p h = elim (List-cases p.current) [
    | inr (msg, msgs, e) ↦ rw (e, copy_step) (copy_one-Keeps msg p.copier h)
    | inl e ↦ elim (List-cases p.channel) [
      | inl f ↦ rw (e, f, copy_step) h
      | inr (ok msgs, bs, f) ↦ rw (e, f, copy_step) h
      | inr (err d, bs, f) ↦ rw (e, f, copy_step) h
    ]
  ]

  run_schedule-Keeps :
      (schedule : List Bool) (p : Pipe Conn World)
      → CopierFromStart p.copier
      → CopierFromStart (run_schedule api job folder schedule p).copier
  unfolding run_schedule
  run_schedule-Keeps [] p h = h
  run_schedule-Keeps (true ∷ schedule) p h = run_schedule-Keeps schedule _ (fetch_step-Keeps p h)
  run_schedule-Keeps (false ∷ schedule) p h = run_schedule-Keeps schedule _ (copy_step-Keeps p h)

  copy_messages-Keeps :
      (msgs : List Message) (c : Copier Conn World)
      → CopierFromStart c
      → CopierFromStart (copy_messages api job folder msgs c)
  unfolding copy_messages
  copy_messages-Keeps [] c h = h
  copy_messages-Keeps (msg ∷ msgs) c h =
      let kept = copy_one-Keeps msg c h in
      elim (Bool-cases (copy_one api job folder msg c).0) [
        | inl e ↦
            rw (e, copy_messages) (copy_messages-Keeps msgs (copy_one api job folder msg c).1 kept)
        | inr e ↦ rw (e, copy_messages) kept
      ]

  copy_batch-Keeps :
      (b : Batch) (c : Copier Conn World)
      → CopierFromStart c
      → CopierFromStart (copy_batch api job folder b c)
  unfolding copy_batch
  copy_batch-Keeps (ok msgs) c h = copy_messages-Keeps msgs c h
  copy_batch-Keeps (err e) c h = h

  copy_batches-Keeps :
      (bs : List Batch) (c : Copier Conn World)
      → CopierFromStart c
      → CopierFromStart (copy_batches api job folder bs c)
  unfolding copy_batches
  copy_batches-Keeps [] c h = h
  copy_batches-Keeps (b ∷ bs) c h = copy_batches-Keeps bs _ (copy_batch-Keeps b c h)

  fetch_rest-Keeps :
      (fuel : ℕ) (todo : List ℕ) (c : Copier Conn World)
      → CopierFromStart c
      → CopierFromStart (fetch_rest api job folder fuel todo c)
  unfolding fetch_rest check fetch_batch
  fetch_rest-Keeps zero todo c h = h
  fetch_rest-Keeps (suc fuel) [] c h = h
  fetch_rest-Keeps (suc fuel) (uid ∷ uids) c h =
      let s = record c.session { world = (api.ctx_err c.session.world).1 } in
      let (b, t) = fetch_batch api job folder (uid ∷ uids) s in
      let copied = copy_batch-Keeps b (record c { session = t }) h in
      elim (Option-cases (api.ctx_err c.session.world).0) [
        | inr (d, e) ↦ rw (e, fetch_rest) h
        | inl e ↦ elim (Bool-cases (is_err b)) [
          | inl f ↦ rw (e, f, fetch_rest) copied
          | inr f ↦ rw (e, f, fetch_rest) (fetch_rest-Keeps fuel _ _ copied)
        ]
      ]

  finish-Keeps :
      (p : Pipe Conn World) → CopierFromStart p.copier → CopierFromStart (finish api job folder p)
  unfolding finish
  finish-Keeps p h =
      let c = copy_batches-Keeps p.channel _ (copy_messages-Keeps p.current p.copier h) in
      elim (Bool-cases p.closed) [
        | inl e ↦ rw (e, finish) c
        | inr e ↦ elim (Option-cases p.pending) [
          | inl f ↦ rw (e, f, finish) (fetch_rest-Keeps (length p.todo) p.todo _ c)
          | inr (b, f) ↦ elim (Bool-cases (is_err b)) [
            | inl g ↦ rw (e, f, g, finish) (copy_batch-Keeps b _ c)
            | inr g ↦
                rw (e, f, g, finish)
                  (fetch_rest-Keeps (length p.todo) p.todo _ (copy_batch-Keeps b _ c))
          ]
        ]
      ]

  pub run_pipeline-Keeps :
      (schedule : List Bool) (uids : List ℕ) (s : Session Conn World)
      → FromStart api job start s
      → CopierFromStart (run_pipeline api job folder schedule uids s)
  unfolding run_pipeline
  run_pipeline-Keeps schedule uids s h = finish-Keeps _ (run_schedule-Keeps schedule _ h)
