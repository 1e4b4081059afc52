-- ===== src/Mailbox/Finished.antt =====
-- internal/mailbox/copy.go: where a UID is when the pipeline of a folder ends.
use go_boxcopy.Base.{
  ℕ, zero, suc, ◌≤◌, String, ◌≡◌, refl, Bool, true, false, List, [], ◌∷◌, Option, none, some, ◌⊎◌,
  inl, inr, arith, nat_eq, string_eq, contains, take, drop, length, sym, subst, ap, Bool-cases,
}
use go_boxcopy.Base.Errors.{ok, err, Result-cases}
use go_boxcopy.Imap.Api.{Api}
use go_boxcopy.Mailbox.Data.{Job, Session}
use go_boxcopy.Mailbox.Pipeline.{
  Batch, batch_size, Copier, Pipe, is_err, check, fetch_batch, run_schedule, copy_messages,
  copy_batch, copy_batches, fetch_rest, finish,
}
use go_boxcopy.Mailbox.Schedule.{length-drop_le, drained, finish_from, finish_lem}
use go_boxcopy.Mailbox.Delivered.{IsClean, copy_batches-IsClean, first_error_some}
use go_boxcopy.Mailbox.Answered.{Owed, AnswersAll, fetch_by_uid-Owed}
use go_boxcopy.Mailbox.Owed.{contains_split, OwedIn, Done, copy_batches-Done, copy_messages-Done}
use go_boxcopy.Mailbox.Tracked.{
  AllOk, IsDelivered-AllOk, IsTracked, copy_step-IsTracked, fetch_step-IsTracked, sending,
}

module _ (uid : ℕ) (gone : Bool) (api : Api) (job : Job) (folder : String)
    (ctx : (w : api.World) → (api.ctx_err w).0 ≡ none) (answers : AnswersAll uid gone api) where
  open api use {World, Conn}

  pub run_schedule-IsTracked :
      (schedule : List Bool) (p : Pipe Conn World)
      → IsTracked uid gone api job folder ctx answers p
      → IsTracked uid gone api job folder ctx answers (run_schedule api job folder schedule p)
  unfolding run_schedule
  run_schedule-IsTracked [] p h = h
  run_schedule-IsTracked (true ∷ schedule) p h =
      run_schedule-IsTracked schedule _
        (fetch_step-IsTracked uid gone api job folder ctx answers p h)
  run_schedule-IsTracked (false ∷ schedule) p h =
      run_schedule-IsTracked schedule _
        (copy_step-IsTracked uid gone api job folder ctx answers p h)

  -- A batch that was fetched for the UID holds its message.
  answered :
      (uids : List ℕ) (s : Session Conn World)
      → is_err (fetch_batch api job folder uids s).0 ≡ false
      → contains (take batch_size uids) uid ≡ true
      → OwedIn uid gone ((fetch_batch api job folder uids s).0 ∷ [])
  unfolding fetch_batch
  answered uids s n h = elim (Result-cases (fetch_batch api job folder uids s).0) [
    | inr (d, e) ↦ absurd (ground (arith, n, ap is_err e))
    | inl (msgs, e) ↦
        subst (λ b. OwedIn uid gone (b ∷ [])) (sym e)
          (inl (
            fetch_by_uid-Owed uid gone api (take batch_size uids) (s.source, s.world) msgs answers e
              h))
  ]

  copy_batch-Done :
      (b : Batch) (c : Copier Conn World)
      → IsClean api job folder (copy_batch api job folder b c)
      → IsClean api job folder c
        × (is_err b ≡ false)
        × (OwedIn uid gone (b ∷ []) ⊎ Done uid gone api job folder c.session
            → Done uid gone api job folder (copy_batch api job folder b c).session)
  unfolding copy_batch copy_batches
  copy_batch-Done (ok msgs) c h =
      let all = copy_batches-Done uid gone api job folder (ok msgs ∷ []) c h in (all.0, refl, all.1)
  copy_batch-Done (err e) c h = absurd (first_error_some c.copy_err _ h.0)

  -- The UIDs that are still to be fetched.
  fetch_rest-Done :
      (fuel : ℕ) (todo : List ℕ) (c : Copier Conn World)
      → length todo ≤ fuel
      → IsClean api job folder (fetch_rest api job folder fuel todo c)
      → IsClean api job folder c
        × ((contains todo uid ≡ true) ⊎ Done uid gone api job folder c.session
            → Done uid gone api job folder (fetch_rest api job folder fuel todo c).session)
  unfolding fetch_rest fetch_batch check contains
  fetch_rest-Done zero [] c l h =
      (h, λ o. elim o [ inl e ↦ absurd (ground (arith, e)) | inr d ↦ d ])
  fetch_rest-Done (suc fuel) [] c l h =
      (h, λ o. elim o [ inl e ↦ absurd (ground (arith, e)) | inr d ↦ d ])
  fetch_rest-Done zero (x ∷ xs) c l h = absurd (omega (arith, l))
  fetch_rest-Done (suc fuel) (x ∷ xs) c l h =
      let w = ctx c.session.world in
      let s = (check api job folder c.session).1 in
      let b = fetch_batch api job folder (x ∷ xs) s in
      let c1 = record c { session = b.1 } in
      let c2 = copy_batch api job folder b.0 c1 in
      elim (Bool-cases (is_err b.0)) [
        | inl e ↦
            let same : fetch_rest api job folder (suc fuel) (x ∷ xs) c ≡ c2 =
              rw (w, e, fetch_rest) refl in
            let one = copy_batch-Done b.0 c1 (subst (IsClean api job folder) same h) in
            absurd (ground (arith, e, one.1))
        | inr e ↦
            let k = length-drop_le 49 xs in
            let same : fetch_rest api job folder (suc fuel) (x ∷ xs) c
                ≡ fetch_rest api job folder fuel (drop batch_size (x ∷ xs)) c2 =
              rw (w, e, fetch_rest) refl in
            let rest =
              fetch_rest-Done fuel (drop batch_size (x ∷ xs)) c2 (omega arith)
                (subst (IsClean api job folder) same h) in
            let one = copy_batch-Done b.0 c1 rest.0 in
            (
              one.0,
              λ o.
                  subst (λ t. Done uid gone api job folder t.session) (sym same)
                    (rest.1 (elim o [
                      | inr d ↦ inr (one.2 (inr d))
                      | inl i ↦ elim (Bool-cases (contains (take batch_size (x ∷ xs)) uid)) [
                        | inl f ↦ inr (one.2 (inl (answered (x ∷ xs) s e f)))
                        | inr f ↦ inl (ground (arith, contains_split batch_size (x ∷ xs) uid))
                      ]
                    ])),
            )
      ]

  -- What is left to the fetcher, once the copier is through with the channel.
  finish_from-Done :
      (closed : Bool) (pending : Option Batch) (todo : List ℕ) (c : Copier Conn World)
      → IsClean api job folder (finish_from api job folder closed pending todo c)
      → IsClean api job folder c
        × ((closed ≡ true → (todo ≡ []) × (pending ≡ none))
            → AllOk (sending pending)
              × ((contains todo uid ≡ true)
                    ⊎ (OwedIn uid gone (sending pending) ⊎ Done uid gone api job folder c.session)
                  → Done uid gone api job folder
                      (finish_from api job folder closed pending todo c).session))
  unfolding finish_from contains
  finish_from-Done true pending todo c h = (
    h,
    λ k. (
      subst (λ b. AllOk (sending b)) (sym (k refl).1) tt,
      λ o. elim o [
        | inl e ↦ absurd (ground (arith, (k refl).0, e))
        | inr (inl i) ↦ absurd (subst (λ b. OwedIn uid gone (sending b)) (k refl).1 i)
        | inr (inr d) ↦ d
      ],
    ),
  )
  finish_from-Done false none todo c h =
      let rest = fetch_rest-Done (length todo) todo c (omega arith) h in
      (
        rest.0,
        λ k. (
          tt,
          λ o. rest.1 (elim o [ inl e ↦ inl e | inr (inl i) ↦ absurd i | inr (inr d) ↦ inr d ]),
        ),
      )
  finish_from-Done false (some (ok msgs)) todo c h =
      let c' = copy_batch api job folder (ok msgs) c in
      let rest = fetch_rest-Done (length todo) todo c' (omega arith) h in
      let one = copy_batch-Done (ok msgs) c rest.0 in
      (one.0, λ k. (tt, λ o. rest.1 (elim o [ inl e ↦ inl e | inr m ↦ inr (one.2 m) ])))
  finish_from-Done false (some (err e)) todo c h =
      let one = copy_batch-Done (err e) c h in absurd (ground (arith, one.1))

  -- The copier's batch and the channel.
  drained-Done :
      (p : Pipe Conn World)
      → IsClean api job folder (drained api job folder p)
      → IsClean api job folder p.copier
        × AllOk p.channel
        × (OwedIn uid gone p.channel
              ⊎ (Owed uid gone p.current ⊎ Done uid gone api job folder p.copier.session)
            → Done uid gone api job folder (drained api job folder p).session)
  drained-Done p h =
      let c = copy_messages api job folder p.current p.copier in
      let all = copy_batches-Done uid gone api job folder p.channel c h in
      let one = copy_messages-Done uid gone api job folder p.current p.copier all.0 in
      (
        one.0,
        IsDelivered-AllOk uid gone api job folder ctx answers (drained api job folder p).session
            p.channel (copy_batches-IsClean api job folder p.channel c h).1,
        λ o. all.1 (elim o [ inl i ↦ inl i | inr m ↦ inr (one.1 m) ]),
      )

  -- However the fetcher and the copier end from here on.
  pub finish-Done :
      (p : Pipe Conn World)
      → IsTracked uid gone api job folder ctx answers p
      → IsClean api job folder (finish api job folder p)
      → Done uid gone api job folder (finish api job folder p).session
  finish-Done p t h =
      let same = finish_lem api job folder p in
      let c = drained api job folder p in
      let out =
        finish_from-Done p.closed p.pending p.todo c (subst (IsClean api job folder) same h) in
      let before = drained-Done p out.0 in
      let found = t before.0 before.1 in
      let left = out.1 found.1 in
      subst (λ q. Done uid gone api job folder q.session) (sym same)
        (left.1 (elim (found.0 left.0) [
          | inl i ↦ inl i
          | inr (inl i) ↦ inr (inl i)
          | inr (inr o) ↦ inr (inr (before.2 o))
        ]))
