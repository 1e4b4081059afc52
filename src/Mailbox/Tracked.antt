-- ===== src/Mailbox/Tracked.antt =====
-- internal/mailbox/copy.go: where a UID is at each step of the pipeline of a folder.
use go_boxcopy.Base.{
  ℕ, String, ◌≡◌, refl, Bool, true, false, List, [], ◌∷◌, ◌++◌, Option, none, some, ◌⊎◌, inl, inr,
  arith, nat_eq, string_eq, contains, take, drop, length, ltb, All, Bool-cases, Option-cases,
  List-cases,
}
use go_boxcopy.Base.Errors.{ok, err, Result-cases}
use go_boxcopy.Imap.Api.{Api}
use go_boxcopy.Imap.Data.{Message}
use go_boxcopy.Mailbox.Data.{Job, Session}
use go_boxcopy.Mailbox.Pipeline.{
  Batch, batch_size, channel_size, Copier, Pipe, is_err, check, copy_one, fetch_batch, fetch_step,
  copy_step,
}
use go_boxcopy.Mailbox.Delivered.{
  IsClean, IsDelivered, copy_one-IsDone, copy_one-IsClean, first_error_some,
}
use go_boxcopy.Mailbox.Answered.{Owed, AnswersAll, fetch_by_uid-Owed}
use go_boxcopy.Mailbox.Owed.{contains_split, OwedIn, Done, Owed-Done, kept, its_message}

-- No batch is the error of a fetch.
abbrev pub AllOk : List Batch → Type 0
AllOk [] = Unit
AllOk (ok msgs ∷ bs) = AllOk bs
AllOk (err e ∷ bs) = ⊥

AllOk-append : (bs : List Batch) (b : Batch) → AllOk (bs ++ b ∷ []) → AllOk bs × AllOk (b ∷ [])
AllOk-append [] b h = (tt, h)
AllOk-append (ok msgs ∷ bs) b h = AllOk-append bs b h
AllOk-append (err e ∷ bs) b h = absurd h

-- The batch that the fetcher is about to send, as a list.
abbrev pub sending : Option Batch → List Batch
sending none = []
sending (some b) = b ∷ []

module _ (uid : ℕ) (gone : Bool) where
  OwedIn-append :
      (bs : List Batch) (b : Batch)
      → OwedIn uid gone bs ⊎ OwedIn uid gone (b ∷ [])
      → OwedIn uid gone (bs ++ b ∷ [])
  OwedIn-append [] b (inl h) = absurd h
  OwedIn-append [] b (inr h) = h
  OwedIn-append (ok msgs ∷ bs) b (inl (inl h)) = inl h
  OwedIn-append (ok msgs ∷ bs) b (inl (inr h)) = inr (OwedIn-append bs b (inl h))
  OwedIn-append (ok msgs ∷ bs) b (inr h) = inr (OwedIn-append bs b (inr h))
  OwedIn-append (err e ∷ bs) b (inl h) = OwedIn-append bs b (inl h)
  OwedIn-append (err e ∷ bs) b (inr h) = OwedIn-append bs b (inr h)

  module _ (api : Api) (job : Job) (folder : String)
      (ctx : (w : api.World) → (api.ctx_err w).0 ≡ none) (answers : AnswersAll uid gone api) where
    open api use {World, Conn}

    pub IsDelivered-AllOk :
        (s : Session Conn World) (bs : List Batch)
        → All (IsDelivered api job folder s) bs
        → AllOk bs
    IsDelivered-AllOk s [] h = tt
    IsDelivered-AllOk s (ok msgs ∷ bs) h = IsDelivered-AllOk s bs h.1
    IsDelivered-AllOk s (err e ∷ bs) h = h.0

    -- Where the UID may be.
    abbrev pub Somewhere :
        List ℕ → Option Batch → List Batch → List Message → Session Conn World → Type 0
    Somewhere todo pending channel current s =
        (contains todo uid ≡ true)
        ⊎ (OwedIn uid gone (sending pending)
            ⊎ (OwedIn uid gone channel ⊎ (Owed uid gone current ⊎ Done uid gone api job folder s)))

    -- As long as nothing was reported and no fetch has failed, the UID is somewhere, and a fetcher
    -- that is through has nothing left.
    abbrev pub Tracked :
        Bool → List ℕ → Option Batch → List Batch → List Message → Copier Conn World → Type 0
    Tracked closed todo pending channel current c =
        IsClean api job folder c
        → AllOk channel
        → (AllOk (sending pending) → Somewhere todo pending channel current c.session)
          × (closed ≡ true → (todo ≡ []) × (pending ≡ none))

    abbrev pub IsTracked : Pipe Conn World → Type 0
    IsTracked p = Tracked p.closed p.todo p.pending p.channel p.current p.copier

    copied_one :
        (todo : List ℕ) (pending : Option Batch) (channel : List Batch) (msg : Message)
        (msgs : List Message) (c : Copier Conn World)
        → IsClean api job folder (copy_one api job folder msg c).1
        → Somewhere todo pending channel (msg ∷ msgs) c.session
        → Somewhere todo pending channel msgs (copy_one api job folder msg c).1.session
    copied_one todo pending channel msg msgs c h (inl t) = inl t
    copied_one todo pending channel msg msgs c h (inr (inl t)) = inr (inl t)
    copied_one todo pending channel msg msgs c h (inr (inr (inl t))) = inr (inr (inl t))
    copied_one todo pending channel msg msgs c h (inr (inr (inr (inl (inl t))))) =
        let t' = (copy_one api job folder msg c).1 in
        let one = copy_one-IsClean api job folder msg c h in
        inr (
          inr (
            inr
              (inr (Owed-Done uid gone api job folder t'.session (msg ∷ []) (one.2, tt) (inl t)))))
    copied_one todo pending channel msg msgs c h (inr (inr (inr (inl (inr t))))) =
        inr (inr (inr (inl t)))
    copied_one todo pending channel msg msgs c h (inr (inr (inr (inr t)))) =
        let t' = (copy_one api job folder msg c).1 in
        inr (
          inr (
            inr (
              inr (
                kept uid gone api job folder c.session t'.session
                  (copy_one-IsDone api job folder (its_message uid gone api job folder) msg c) t))))

    -- The copier takes the next batch from the channel.
    received :
        (todo : List ℕ) (pending : Option Batch) (msgs : List Message) (bs : List Batch)
        (s : Session Conn World)
        → Somewhere todo pending (ok msgs ∷ bs) [] s
        → Somewhere todo pending bs msgs s
    received todo pending msgs bs s (inl t) = inl t
    received todo pending msgs bs s (inr (inl t)) = inr (inl t)
    received todo pending msgs bs s (inr (inr (inl (inl t)))) = inr (inr (inr (inl t)))
    received todo pending msgs bs s (inr (inr (inl (inr t)))) = inr (inr (inl t))
    received todo pending msgs bs s (inr (inr (inr (inl t)))) = absurd t
    received todo pending msgs bs s (inr (inr (inr (inr t)))) = inr (inr (inr (inr t)))

    pub copy_step-IsTracked :
        (p : Pipe Conn World) → IsTracked p → IsTracked (copy_step api job folder p)
    unfolding copy_step
    copy_step-IsTracked p h = elim (List-cases p.current) [
      | inr (msg, msgs, e) ↦ elim (Bool-cases (copy_one api job folder msg p.copier).0) [
        | inl f ↦
            rw (e, copy_step, f)
              (λ k a.
                let one = copy_one-IsClean api job folder msg p.copier k in
                let before = rw e at (h one.0 a) in
                (
                  λ b. copied_one p.todo p.pending p.channel msg msgs p.copier k (before.0 b),
                  before.1,
                ))
        | inr f ↦
            rw (e, copy_step, f)
              (λ k a.
                absurd (ground (arith, f, (copy_one-IsClean api job folder msg p.copier k).1)))
      ]
      | inl e ↦ elim (List-cases p.channel) [
        | inl f ↦ rw (e, f, copy_step, e, f) (rw (e, f) at h)
        | inr (ok msgs, bs, f) ↦
            rw (e, f, copy_step)
              (λ k a.
                let before = rw (e, f) at (h k) in
                let found = before a in
                (λ b. received p.todo p.pending msgs bs p.copier.session (found.0 b), found.1))
        | inr (err d, bs, f) ↦
            rw (e, f, copy_step, e) (λ k a. absurd (first_error_some p.copier.copy_err _ k.0))
      ]
    ]

    -- A fetch takes UIDs off the list.
    fetched :
        (todo : List ℕ) (msgs : List Message) (channel : List Batch) (current : List Message)
        (s : Session Conn World)
        → (fetch_batch api job folder todo s).0 ≡ ok msgs
        → Somewhere todo none channel current s
        → Somewhere
            (drop batch_size todo)
            (some (ok msgs))
            channel
            current
            (fetch_batch api job folder todo s).1
    unfolding fetch_batch
    fetched todo msgs channel current s e (inl t) =
        elim (Bool-cases (contains (take batch_size todo) uid)) [
          | inl f ↦ inr (
              inl (
                inl (
                  fetch_by_uid-Owed uid gone api (take batch_size todo) (s.source, s.world) msgs
                    answers e f)))
          | inr f ↦ inl (ground (arith, contains_split batch_size todo uid))
        ]
    fetched todo msgs channel current s e (inr (inl t)) = absurd t
    fetched todo msgs channel current s e (inr (inr (inl t))) = inr (inr (inl t))
    fetched todo msgs channel current s e (inr (inr (inr (inl t)))) = inr (inr (inr (inl t)))
    fetched todo msgs channel current s e (inr (inr (inr (inr t)))) = inr (inr (inr (inr t)))

    -- The fetcher sends its batch.
    sent :
        (todo : List ℕ) (b : Batch) (channel : List Batch) (current : List Message)
        (s : Session Conn World)
        → Somewhere todo (some b) channel current s
        → Somewhere todo none (channel ++ b ∷ []) current s
    sent todo b channel current s (inl t) = inl t
    sent todo b channel current s (inr (inl t)) = inr (inr (inl (OwedIn-append channel b (inr t))))
    sent todo b channel current s (inr (inr (inl t))) =
        inr (inr (inl (OwedIn-append channel b (inl t))))
    sent todo b channel current s (inr (inr (inr (inl t)))) = inr (inr (inr (inl t)))
    sent todo b channel current s (inr (inr (inr (inr t)))) = inr (inr (inr (inr t)))

    AllOk-not_err : (b : Batch) → AllOk (b ∷ []) → is_err b ≡ false
    AllOk-not_err (ok msgs) h = refl
    AllOk-not_err (err e) h = absurd h

    pub fetch_step-IsTracked :
        (p : Pipe Conn World) → IsTracked p → IsTracked (fetch_step api job folder p)
    unfolding fetch_step check
    fetch_step-IsTracked p h = elim (Bool-cases p.closed) [
      | inl c ↦ rw (c, fetch_step) (rw c at h)
      | inr c ↦ elim (Option-cases p.pending) [
        | inr (b, f) ↦ elim (Bool-cases (ltb (length p.channel) channel_size)) [
          | inr g ↦ rw (c, f, fetch_step, g) h
          | inl g ↦
              rw (c, f, fetch_step, g)
                (λ k a.
                  let both = AllOk-append p.channel b a in
                  let before = rw f at (h k both.0) in
                  (
                    λ d. sent p.todo b p.channel p.current p.copier.session (before.0 both.1),
                    λ e. absurd (ground (arith, e, AllOk-not_err b both.1)),
                  ))
        ]
        | inl f ↦ elim (List-cases p.todo) [
          | inl g ↦ rw (c, f, g, fetch_step) (λ k a. ((h k a).0, λ e. (g, f)))
          | inr (x, xs, g) ↦
              let w = p.copier.session.world in
              let s = (check api job folder p.copier.session).1 in
              elim (Result-cases (fetch_batch api job folder (x ∷ xs) s).0) [
                | inr (d, i) ↦
                    rw (c, f, g, fetch_step, ctx w, i)
                      (λ k a. (λ e. absurd e, λ e. absurd (ground (arith, e, c))))
                | inl (msgs, i) ↦
                    rw (c, f, g, fetch_step, ctx w, i)
                      (λ k a.
                        let before = rw (f, g) at (h k a) in
                        (
                          λ d. fetched (x ∷ xs) msgs p.channel p.current s i (before.0 tt),
                          λ e. absurd (ground (arith, e, c)),
                        ))
              ]
        ]
      ]
    ]
