-- ===== src/Mailbox/Effects.antt =====
-- internal/mailbox: what follows for the sync state from the calls that a copy makes.
use go_boxcopy.Base.{ℕ, String, ◌≡◌, refl, Bool, false, List, arith, ◌==◌, nat_eq, string_eq, ◌∙◌}
use go_boxcopy.State.Data.{State}
use go_boxcopy.State.Calls.{
  sets_validity, marks, maps_uid, syncs_folder, syncs_mailbox, apply, mailbox_at-apply,
}
use go_boxcopy.State.Ops.{mark_synced}
use go_boxcopy.State.Paths.{path-apply}
use go_boxcopy.State.View.{mailbox_at}
use go_boxcopy.State.Valid.{IsValid}
use go_boxcopy.State.Invariant.{apply-IsValid}
use go_boxcopy.Imap.Api.{Api}
use go_boxcopy.Mailbox.Message.{record_copy}
use go_boxcopy.Mailbox.Data.{Job, Sys}
use go_boxcopy.Mailbox.Box.{copy}
use go_boxcopy.Mailbox.Copies.{Copies, here, validated, copied, synced, finished}
use go_boxcopy.Mailbox.BoxCopies.{copy-Copies}

module _ {m : String} {s : State} where
  pub mailbox_at-Copies :
      {t : State} (n : String) → (m == n) ≡ false → Copies m s t → mailbox_at t n ≡ mailbox_at s n
  unfolding apply record_copy
  mailbox_at-Copies n e here = refl
  mailbox_at-Copies n e (validated {t} c f v) =
      ground (arith, mailbox_at-Copies n e c, mailbox_at-apply t m n (sets_validity f v))
  mailbox_at-Copies n e (copied {t} c f uid target h g) = ground (
    arith,
    mailbox_at-Copies n e c,
    mailbox_at-apply t m n (marks f uid),
    mailbox_at-apply (mark_synced t m f uid).0 m n (maps_uid f uid target),
  )
  mailbox_at-Copies n e (synced {t} c f now) =
      ground (arith, mailbox_at-Copies n e c, mailbox_at-apply t m n (syncs_folder f now))
  mailbox_at-Copies n e (finished {t} c now) =
      ground (arith, mailbox_at-Copies n e c, mailbox_at-apply t m n (syncs_mailbox now))

  IsValid-Copies : {t : State} → IsValid s → Copies m s t → IsValid t
  unfolding apply record_copy
  IsValid-Copies v here = v
  IsValid-Copies v (validated {t} c f w) =
      apply-IsValid t m (sets_validity f w) (IsValid-Copies v c)
  IsValid-Copies v (copied {t} c f uid target h g) =
      apply-IsValid (mark_synced t m f uid).0 m (maps_uid f uid target)
        (apply-IsValid t m (marks f uid) (IsValid-Copies v c))
  IsValid-Copies v (synced {t} c f now) =
      apply-IsValid t m (syncs_folder f now) (IsValid-Copies v c)
  IsValid-Copies v (finished {t} c now) = apply-IsValid t m (syncs_mailbox now) (IsValid-Copies v c)

  -- A copy stays with the file of its state.
  pub path-Copies : {t : State} → Copies m s t → t.path ≡ s.path
  unfolding apply record_copy
  path-Copies here = refl
  path-Copies (validated {t} c f w) = path-apply t m (sets_validity f w) ∙ path-Copies c
  path-Copies (copied {t} c f uid target h g) =
      path-apply (mark_synced t m f uid).0 m (maps_uid f uid target)
      ∙ path-apply t m (marks f uid)
      ∙ path-Copies c
  path-Copies (synced {t} c f now) = path-apply t m (syncs_folder f now) ∙ path-Copies c
  path-Copies (finished {t} c now) = path-apply t m (syncs_mailbox now) ∙ path-Copies c

module _ (api : Api) (job : Job) (plan : ℕ → List Bool) (s : Sys api.Conn api.World) where
  -- A copy leaves the sync state of every other mailbox as it was.
  pub mailbox_at-copy :
      (n : String)
      → (job.config.name == n) ≡ false
      → mailbox_at (copy api job plan s).1.state n ≡ mailbox_at s.state n
  mailbox_at-copy n e = mailbox_at-Copies n e (copy-Copies api job plan s)

  -- A copy keeps the invariant of the sync state, whether it succeeds or fails.
  pub copy-IsValid : IsValid s.state → IsValid (copy api job plan s).1.state
  copy-IsValid v = IsValid-Copies v (copy-Copies api job plan s)
