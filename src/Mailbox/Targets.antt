-- ===== src/Mailbox/Targets.antt =====
-- internal/mailbox: a copy records a target UID for each UID that it marks as synced.
use go_boxcopy.Base.{
  ℕ, ◌<◌, String, ◌≡◌, refl, Bool, true, false, ◌&&◌, List, some, inl, inr, arith, ◌==◌, nat_eq,
  string_eq, Bool-cases, contains, if◌then◌else◌,
}
use go_boxcopy.State.Data.{Time, MailboxState, State}
use go_boxcopy.State.Calls.{syncs_folder, syncs_mailbox, apply, act, mailbox_at-apply}
use go_boxcopy.State.Reads.{is_synced, get_target_uid}
use go_boxcopy.State.Ops.{
  mark, touch_mailbox, set_uid_validity, mark_synced, set_uid_mapping, update_last_sync,
  update_mailbox_last_sync,
}
use go_boxcopy.State.View.{put_folder, folder_in, mailbox_at, folder_at, folder_in-put_folder}
use go_boxcopy.State.Updates.{
  is_synced_lem, get_target_uid_lem, folder_at-set_uid_mapping, folder_at-set_uid_validity,
  folder_at-mark_synced,
}
use go_boxcopy.State.Synced.{is_synced-mark_synced, get_target_uid-set_uid_mapping}
use go_boxcopy.State.Calls.{with_validity}
use go_boxcopy.Imap.Api.{Api}
use go_boxcopy.Mailbox.Message.{record_copy}
use go_boxcopy.Mailbox.Data.{Job, Sys}
use go_boxcopy.Mailbox.Box.{copy}
use go_boxcopy.Mailbox.Copies.{Copies, here, validated, copied, synced, finished}
use go_boxcopy.Mailbox.BoxCopies.{copy-Copies}

-- Each synced UID of a mailbox has a recorded target UID.
abbrev pub HasTargets : State → String → Type 0
HasTargets s m =
    (f : String) (uid : ℕ)
    → is_synced s m f uid ≡ true
    → (target : ℕ) × (get_target_uid s m f uid ≡ some target)

-- The same folder answers the same.
module _ (s t : State) (m f : String) where
  abbrev SameUids : Type 0
  SameUids =
      ((folder_at t m f).synced_uids ≡ (folder_at s m f).synced_uids)
      × ((folder_at t m f).uid_map ≡ (folder_at s m f).uid_map)

  target_kept :
      (x : ℕ)
      → SameUids
      → (is_synced s m f x ≡ true → (target : ℕ) × (get_target_uid s m f x ≡ some target))
      → is_synced t m f x ≡ true
      → (target : ℕ) × (get_target_uid t m f x ≡ some target)
  target_kept x e k h =
      let found = k (ground (arith, is_synced_lem s m f x, is_synced_lem t m f x)) in
      (found.0, ground (arith, found.1, get_target_uid_lem s m f x, get_target_uid_lem t m f x))

folder_in-touch_mailbox :
    (ms : MailboxState) (now : Time) (f : String)
    → folder_in (touch_mailbox ms now) f ≡ folder_in ms f
unfolding folder_in
folder_in-touch_mailbox ms now f = refl

module _ (s : State) (m f : String) where
  pub SameUids-update_last_sync :
      (now : Time) (g : String) → SameUids s (update_last_sync s m f now) m g
  unfolding apply act
  SameUids-update_last_sync now g =
      let fs = record (folder_at s m f) { last_sync = now } in
      ground (
        arith,
        mailbox_at-apply s m m (syncs_folder f now),
        folder_in-touch_mailbox (put_folder (mailbox_at s m) f fs) now g,
        folder_in-put_folder (mailbox_at s m) f g fs,
        string_eq.beq_iff m m,
        string_eq.beq_iff f g,
      )

  SameUids-update_mailbox_last_sync :
      (now : Time) → SameUids s (update_mailbox_last_sync s m now) m f
  unfolding apply act
  SameUids-update_mailbox_last_sync now = ground (
    arith,
    mailbox_at-apply s m m (syncs_mailbox now),
    folder_in-touch_mailbox (mailbox_at s m) now f,
    string_eq.beq_iff m m,
  )

  synced_before :
      (v : ℕ) (g : String) (x : ℕ)
      → is_synced (set_uid_validity s m f v).0 m g x ≡ true
      → is_synced s m g x ≡ true
  unfolding with_validity contains
  synced_before v g x h = ground (
    arith,
    folder_at-set_uid_validity s m f m g v,
    is_synced_lem s m g x,
    is_synced_lem (set_uid_validity s m f v).0 m g x,
    string_eq.beq_iff f g,
  )

  HasTargets-set_uid_validity : (v : ℕ) → HasTargets s m → HasTargets (set_uid_validity s m f v).0 m
  unfolding with_validity
  HasTargets-set_uid_validity v k g x h =
      let found = k g x (synced_before v g x h) in
      (
        found.0,
        ground (
          arith,
          found.1,
          folder_at-set_uid_validity s m f m g v,
          get_target_uid_lem s m g x,
          get_target_uid_lem (set_uid_validity s m f v).0 m g x,
          string_eq.beq_iff f g,
        ),
      )

  is_synced-record_copy :
      (uid target : ℕ) (g : String) (x : ℕ)
      → is_synced (record_copy s m f uid target) m g x ≡ true
      → (f == g && uid == x) ≡ false
      → is_synced s m g x ≡ true
  unfolding record_copy
  is_synced-record_copy uid target g x h e = ground (
    arith,
    is_synced-mark_synced s m f uid m g x,
    folder_at-set_uid_mapping (mark_synced s m f uid).0 m f m g uid target,
    is_synced_lem (mark_synced s m f uid).0 m g x,
    is_synced_lem (set_uid_mapping (mark_synced s m f uid).0 m f uid target) m g x,
    string_eq.beq_iff f g,
  )

  get_target_uid-record_copy :
      (uid target : ℕ) (g : String) (x : ℕ)
      → 0 < uid
      → 0 < target
      → get_target_uid (record_copy s m f uid target) m g x
        ≡ (if f == g && uid == x then some target else get_target_uid s m g x)
  unfolding record_copy mark
  get_target_uid-record_copy uid target g x p q = ground (
    arith,
    get_target_uid-set_uid_mapping (mark_synced s m f uid).0 m f uid target m g x,
    get_target_uid_lem s m g x,
    get_target_uid_lem (mark_synced s m f uid).0 m g x,
    folder_at-mark_synced s m f m g uid,
    string_eq.beq_iff m m,
    string_eq.beq_iff f g,
  )

  HasTargets-record_copy :
      (uid target : ℕ)
      → 0 < uid
      → 0 < target
      → HasTargets s m
      → HasTargets (record_copy s m f uid target) m
  HasTargets-record_copy uid target p q k g x h =
      rw (get_target_uid-record_copy uid target g x p q) (elim (Bool-cases (f == g && uid == x)) [
        | inl e ↦ rw e (target, refl)
        | inr e ↦ rw e (k g x (is_synced-record_copy uid target g x h e))
      ])

pub HasTargets-Copies : {m : String} {s t : State} → HasTargets s m → Copies m s t → HasTargets t m
HasTargets-Copies k here = k
HasTargets-Copies k (validated {t} c f v) =
    HasTargets-set_uid_validity t _ f v (HasTargets-Copies k c)
HasTargets-Copies k (copied {t} c f uid target p q) =
    HasTargets-record_copy t _ f uid target p q (HasTargets-Copies k c)
HasTargets-Copies {m} k (synced {t} c f now) = λ g x.
    target_kept t (update_last_sync t m f now) m g x (SameUids-update_last_sync t m f now g)
      (HasTargets-Copies k c g x)
HasTargets-Copies {m} k (finished {t} c now) = λ g x.
    target_kept t (update_mailbox_last_sync t m now) m g x
      (SameUids-update_mailbox_last_sync t m g now) (HasTargets-Copies k c g x)

-- A copy keeps it true of its mailbox that each synced UID has a recorded target UID.
pub copy-HasTargets :
    (api : Api) (job : Job) (plan : ℕ → List Bool) (s : Sys api.Conn api.World)
    → HasTargets s.state job.config.name
    → HasTargets (copy api job plan s).1.state job.config.name
copy-HasTargets api job plan s k = HasTargets-Copies k (copy-Copies api job plan s)
