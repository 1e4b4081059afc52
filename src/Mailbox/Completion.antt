-- ===== src/Mailbox/Completion.antt =====
-- internal/mailbox/copy.go: the fetcher and the copier of a folder can always come to their end.
use go_boxcopy.Base.{
  ℕ, zero, suc, ◌≤◌, String, ◌≡◌, refl, Bool, true, false, List, [], ◌∷◌, Option, none, some,
  length, drop, inl, inr, arith, Bool-cases, Option-cases, sym, subst,
}
use go_boxcopy.Base.Errors.{ok, err}
use go_boxcopy.Imap.Api.{Api}
use go_boxcopy.Imap.Data.{Message}
use go_boxcopy.Mailbox.Data.{Job}
use go_boxcopy.Mailbox.Pipeline.{
  check, fetch_batch, batch_size, Batch, is_err, Copier, Pipe, copy_one, fetch_step, copy_step,
  run_schedule, copy_messages, copy_batch, copy_batches, fetch_failed, fetch_rest, finish,
}
use go_boxcopy.Mailbox.Schedule.{length-drop_le, drained, finish_from, finish_lem}

module _ (api : Api) (job : Job) (folder : String) where
  open api use {World, Conn}

  -- Some schedule brings the pipeline there.
  abbrev pub Leads : (Pipe Conn World → Type 0) → Pipe Conn World → Type 0
  Leads P p = (schedule : List Bool) × P (run_schedule api job folder schedule p)

  -- The fetcher is through, the channel and the copier's batch are empty, and this is the copier.
  abbrev pub Ends : Copier Conn World → Pipe Conn World → Type 0
  Ends c p = (p.closed ≡ true) × (p.channel ≡ []) × (p.current ≡ []) × (p.copier ≡ c)

  abbrev pub pipe :
      List ℕ → Bool → Option Batch → List Batch → List Message → Copier Conn World → Pipe Conn World
  pipe todo closed pending channel current c = record {
    todo = todo;
    closed = closed;
    pending = pending;
    channel = channel;
    current = current;
    copier = c;
  }

  module _ (P : Pipe Conn World → Type 0) where
    by_fetch : (p q : Pipe Conn World) → fetch_step api job folder p ≡ q → Leads P q → Leads P p
    unfolding run_schedule
    by_fetch p q e (schedule, h) =
        (true ∷ schedule, subst (λ x. P (run_schedule api job folder schedule x)) (sym e) h)

    by_copy : (p q : Pipe Conn World) → copy_step api job folder p ≡ q → Leads P q → Leads P p
    unfolding run_schedule
    by_copy p q e (schedule, h) =
        (false ∷ schedule, subst (λ x. P (run_schedule api job folder schedule x)) (sym e) h)

    module _ (todo : List ℕ) (closed : Bool) (pending : Option Batch) where
      -- The copier gets to the end of its batch.
      current-Leads :
          (channel : List Batch) (msgs : List Message) (c : Copier Conn World)
          → Leads P (pipe todo closed pending channel [] (copy_messages api job folder msgs c))
          → Leads P (pipe todo closed pending channel msgs c)
      unfolding copy_messages copy_step
      current-Leads channel [] c h = h
      current-Leads channel (msg ∷ msgs) c h =
          let c' = (copy_one api job folder msg c).1 in
          elim (Bool-cases (copy_one api job folder msg c).0) [
            | inl e ↦
                by_copy (pipe todo closed pending channel (msg ∷ msgs) c)
                  (pipe todo closed pending channel msgs c') (rw (e, copy_step) refl)
                  (current-Leads channel msgs c' (rw (e, copy_messages) at h))
            | inr e ↦
                by_copy (pipe todo closed pending channel (msg ∷ msgs) c)
                  (pipe todo closed pending channel [] c') (rw (e, copy_step) refl)
                  (rw (e, copy_messages) at h)
          ]

      -- The copier empties the channel.
      channel-Leads :
          (channel : List Batch) (c : Copier Conn World)
          → Leads P (pipe todo closed pending [] [] (copy_batches api job folder channel c))
          → Leads P (pipe todo closed pending channel [] c)
      unfolding copy_batches copy_batch copy_step
      channel-Leads [] c h = h
      channel-Leads (ok msgs ∷ bs) c h =
          by_copy (pipe todo closed pending (ok msgs ∷ bs) [] c)
            (pipe todo closed pending bs msgs c) refl
            (current-Leads bs msgs c (channel-Leads bs _ h))
      channel-Leads (err e ∷ bs) c h =
          by_copy (pipe todo closed pending (err e ∷ bs) [] c)
            (pipe todo closed pending bs [] (fetch_failed api job folder c e)) refl
            (channel-Leads bs _ h)

    -- The fetcher sends a batch, and the copier copies it.
    pending-Leads :
        (todo : List ℕ) (b : Batch) (c : Copier Conn World)
        → Leads P (pipe todo (is_err b) none [] [] (copy_batch api job folder b c))
        → Leads P (pipe todo false (some b) [] [] c)
    unfolding fetch_step copy_batches
    pending-Leads todo b c h =
        by_fetch (pipe todo false (some b) [] [] c) (pipe todo (is_err b) none (b ∷ []) [] c) refl
          (channel-Leads todo (is_err b) none (b ∷ []) c h)

  -- The fetcher fetches what is left.
  fetch_rest-Leads :
      (fuel : ℕ) (todo : List ℕ) (c : Copier Conn World)
      → length todo ≤ fuel
      → Leads (Ends (fetch_rest api job folder fuel todo c)) (pipe todo false none [] [] c)
  unfolding fetch_rest run_schedule fetch_step
  fetch_rest-Leads zero [] c l = (true ∷ [], (refl, refl, refl, refl))
  fetch_rest-Leads (suc fuel) [] c l = (true ∷ [], (refl, refl, refl, refl))
  fetch_rest-Leads zero (x ∷ xs) c l = absurd (omega (arith, l))
  fetch_rest-Leads (suc fuel) (x ∷ xs) c l =
      let p = pipe (x ∷ xs) false none [] [] c in
      let end = fetch_rest api job folder (suc fuel) (x ∷ xs) c in
      let s = check api job folder c.session in
      let rest = drop batch_size (x ∷ xs) in
      elim (Option-cases s.0) [
        | inr (d, e) ↦
            let c1 = record c { session = s.1 } in
            let same : end ≡ c1 = rw (e, fetch_rest) refl in
            by_fetch (Ends end) p (pipe (x ∷ xs) true none [] [] c1) (rw (e, fetch_step) refl)
              ([], (refl, refl, refl, sym same))
        | inl e ↦
            let b = fetch_batch api job folder (x ∷ xs) s.1 in
            let c1 = record c { session = b.1 } in
            let c2 = copy_batch api job folder b.0 c1 in
            let k = length-drop_le 49 xs in
            by_fetch (Ends end) p (pipe rest false (some b.0) [] [] c1) (rw (e, fetch_step) refl) (
              pending-Leads (Ends end) rest b.0 c1 (elim (Bool-cases (is_err b.0)) [
                | inl f ↦
                    let same : end ≡ c2 = rw (e, f, fetch_rest) refl in
                    rw f ([], (refl, refl, refl, sym same))
                | inr f ↦
                    let same : end ≡ fetch_rest api job folder fuel rest c2 =
                      rw (e, f, fetch_rest) refl in
                    rw f (
                      subst (λ t. Leads (Ends t) (pipe rest false none [] [] c2)) (sym same)
                        (fetch_rest-Leads fuel rest c2 (omega arith)))
              ]))
      ]

  finish_from-Leads :
      (closed : Bool) (pending : Option Batch) (todo : List ℕ) (c : Copier Conn World)
      → Leads
          (Ends (finish_from api job folder closed pending todo c))
          (pipe todo closed pending [] [] c)
  unfolding finish_from copy_batch run_schedule
  finish_from-Leads true pending todo c = ([], (refl, refl, refl, refl))
  finish_from-Leads false none todo c = fetch_rest-Leads (length todo) todo c (omega arith)
  finish_from-Leads false (some (ok msgs)) todo c =
      let c' = copy_batch api job folder (ok msgs) c in
      pending-Leads (Ends (finish_from api job folder false (some (ok msgs)) todo c)) todo (ok msgs)
        c (fetch_rest-Leads (length todo) todo c' (omega arith))
  finish_from-Leads false (some (err e)) todo c =
      pending-Leads (Ends (finish_from api job folder false (some (err e)) todo c)) todo (err e) c
        ([], (refl, refl, refl, refl))

  -- From wherever they are, some further steps of the fetcher and the copier bring the pipeline to
  -- its end, with the fetcher through and nothing left in the channel or the copier's batch, and with
  -- the copier that `finish` computes: no state is a deadlock, and the completion is itself a run of
  -- the two goroutines.
  pub finish-Leads : (p : Pipe Conn World) → Leads (Ends (finish api job folder p)) p
  finish-Leads p =
      let P = Ends (finish api job folder p) in
      let c = copy_messages api job folder p.current p.copier in
      current-Leads P p.todo p.closed p.pending p.channel p.current p.copier (
        channel-Leads P p.todo p.closed p.pending p.channel c (
          subst
            (λ t. Leads (Ends t) (pipe p.todo p.closed p.pending [] [] (drained api job folder p)))
            (sym (finish_lem api job folder p))
            (finish_from-Leads p.closed p.pending p.todo (drained api job folder p))))
