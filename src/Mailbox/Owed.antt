-- ===== src/Mailbox/Owed.antt =====
-- internal/mailbox/copy.go: a UID on its way through the pipeline of a folder: still to be fetched, in a
-- batch, or done.
use go_boxcopy.Base.{
  ℕ, zero, suc, String, ◌≡◌, refl, Bool, true, false, ◌||◌, List, [], ◌∷◌, ◌⊎◌, inl, inr, arith,
  nat_eq, string_eq, contains, take, drop, All, subst, Bool-cases,
}
use go_boxcopy.Base.Errors.{ok, err}
use go_boxcopy.State.Reads.{is_synced}
use go_boxcopy.Imap.Api.{Api}
use go_boxcopy.Imap.Data.{Message}
use go_boxcopy.Imap.Fetch.{blank_message}
use go_boxcopy.Imap.Message.{is_deleted}
use go_boxcopy.Mailbox.Data.{Job, Session}
use go_boxcopy.Mailbox.Pipeline.{Batch, Copier, copy_messages, copy_batches}
use go_boxcopy.Mailbox.Answered.{Owed}
use go_boxcopy.Mailbox.Delivered.{
  IsDone, IsClean, IsDelivered, copy_messages-IsDone, copy_messages-IsClean, copy_batches-IsDone,
  copy_batches-IsClean,
}

pub contains_split :
    (n : ℕ) (xs : List ℕ) (x : ℕ)
    → contains xs x ≡ (contains (take n xs) x || contains (drop n xs) x)
unfolding contains
contains_split zero xs x = refl
contains_split (suc n) [] x = refl
contains_split (suc n) (y ∷ ys) x = ground (arith, contains_split n ys x)

-- A UID, and whether its message is marked as deleted on the source.
module _ (uid : ℕ) (gone : Bool) where
  abbrev pub OwedIn : List Batch → Type 0
  OwedIn [] = ⊥
  OwedIn (ok msgs ∷ bs) = Owed uid gone msgs ⊎ OwedIn bs
  OwedIn (err e ∷ bs) = OwedIn bs

  module _ (api : Api) (job : Job) (folder : String) where
    open api use {World, Conn}

    abbrev pub Done : Session Conn World → Type 0
    Done s = (is_synced s.state job.config.name folder uid || gone) ≡ true

    pub Owed-Done :
        (s : Session Conn World) (msgs : List Message)
        → All (IsDone api job folder s) msgs
        → Owed uid gone msgs
        → Done s
    Owed-Done s [] h o = absurd o
    Owed-Done s (msg ∷ msgs) h (inl o) =
        let name = job.config.name in
        let done =
          subst (λ x. (is_synced s.state name folder x || is_deleted msg) ≡ true) o.0 h.0 in
        ground (arith, done, o.1)
    Owed-Done s (msg ∷ msgs) h (inr o) = Owed-Done s msgs h.1 o

    OwedIn-Done :
        (s : Session Conn World) (bs : List Batch)
        → All (IsDelivered api job folder s) bs
        → OwedIn bs
        → Done s
    OwedIn-Done s [] h o = absurd o
    OwedIn-Done s (err e ∷ bs) h o = absurd h.0
    OwedIn-Done s (ok msgs ∷ bs) h (inl o) = Owed-Done s msgs h.0 o
    OwedIn-Done s (ok msgs ∷ bs) h (inr o) = OwedIn-Done s bs h.1 o

    -- The message of the UID, for what is known of messages.
    abbrev pub its_message : Message
    its_message = record (blank_message 0) { uid = uid }

    live : is_deleted its_message ≡ false
    unfolding is_deleted contains
    live = refl

    pub kept :
        (s t : Session Conn World)
        → (IsDone api job folder s its_message → IsDone api job folder t its_message)
        → Done s
        → Done t
    kept s t k h = elim (Bool-cases gone) [
      | inl e ↦ ground (arith, e)
      | inr e ↦ ground (arith, e, k (ground (arith, e, live)), live)
    ]

    -- All batches of a channel.
    pub copy_batches-Done :
        (bs : List Batch) (c : Copier Conn World)
        → IsClean api job folder (copy_batches api job folder bs c)
        → IsClean api job folder c
          × (OwedIn bs ⊎ Done c.session → Done (copy_batches api job folder bs c).session)
    copy_batches-Done bs c h =
        let both = copy_batches-IsClean api job folder bs c h in
        let t = copy_batches api job folder bs c in
        (
          both.0,
          λ o. elim o [
            | inl i ↦ OwedIn-Done t.session bs both.1 i
            | inr d ↦
                kept c.session t.session (copy_batches-IsDone api job folder its_message bs c) d
          ],
        )

    pub copy_messages-Done :
        (msgs : List Message) (c : Copier Conn World)
        → IsClean api job folder (copy_messages api job folder msgs c)
        → IsClean api job folder c
          × (Owed uid gone msgs ⊎ Done c.session
              → Done (copy_messages api job folder msgs c).session)
    copy_messages-Done msgs c h =
        let both = copy_messages-IsClean api job folder msgs c h in
        let t = copy_messages api job folder msgs c in
        (
          both.0,
          λ o. elim o [
            | inl i ↦ Owed-Done t.session msgs both.1 i
            | inr d ↦
                kept c.session t.session (copy_messages-IsDone api job folder its_message msgs c) d
          ],
        )
