-- ===== src/Mailbox/Copies.antt =====
-- What a copy may do to the sync state: a few of its calls, on its own mailbox.
use go_boxcopy.Base.{ℕ, ◌<◌, String, inl, inr, arith, Bool-cases, Option-cases, ◌==◌, nat_eq}
use go_boxcopy.Base.Errors.{Result-cases}
use go_boxcopy.Base.Exec.{handle}
use go_boxcopy.Base.Keeps.{Keeps, Keeps-bind}
use go_boxcopy.State.Data.{Time, State}
use go_boxcopy.State.Ops.{set_uid_validity, update_last_sync, update_mailbox_last_sync}
use go_boxcopy.Imap.Api.{Api}
use go_boxcopy.Imap.Data.{Message}
use go_boxcopy.Imap.Fetch.{blank_message}
use go_boxcopy.Imap.Message.{is_deleted}
use go_boxcopy.State.Reads.{is_synced}
use go_boxcopy.Imap.Messages.{append, append_uid}
use go_boxcopy.Mailbox.Data.{Job, Session}
use go_boxcopy.Mailbox.Message.{record_copy, append_message, admitted, copy_message}

-- `Copies m s t`: calls of these kinds on the mailbox `m` lead from `s` to `t`.
pub data Copies (m : String) (s : State) : State → Type 0 where
  here : Copies m s s
  validated :
      {t : State} → Copies m s t → (f : String) (v : ℕ) → Copies m s (set_uid_validity t m f v).0
  copied :
      {t : State}
      → Copies m s t
      → (f : String) (uid target : ℕ) → 0 < uid
      → 0 < target
      → Copies m s (record_copy t m f uid target)
  synced :
      {t : State}
      → Copies m s t
      → (f : String) (now : Time) → Copies m s (update_last_sync t m f now)
  finished :
      {t : State} → Copies m s t → (now : Time) → Copies m s (update_mailbox_last_sync t m now)

module _ (api : Api) (job : Job) (start : State) where
  open api use {World, Conn}

  abbrev pub name : String
  name = job.config.name

  abbrev pub FromStart : Session Conn World → Type 0
  FromStart s = Copies name start s.state

  module _ (folder : String) where
    append_message-Keeps :
        (msg : Message) → 0 < msg.uid → Keeps FromStart (append_message api job folder msg)
    unfolding append_message handle
    append_message-Keeps msg valid s h =
        let sent = record (blank_message 0) {
          flags = msg.flags;
          internal_date = msg.internal_date;
          body = msg.body;
        } in
        elim (Result-cases (append api folder sent (s.target, s.world)).0) [
          | inl (target, e) ↦
              rw (e, append_message)
                (copied h folder msg.uid target valid
                  (append_uid api folder sent (s.target, s.world) target e))
          | inr (e, p) ↦ rw (p, append_message) h
        ]

    admitted-Keeps : Keeps FromStart (admitted api job folder)
    unfolding admitted
    admitted-Keeps s h = elim (Bool-cases job.throttled) [
      | inr e ↦ rw (e, admitted) h
      | inl e ↦ elim (Option-cases (api.admit s.world).0) [
        | inl p ↦ rw (e, p, admitted) h
        | inr (d, p) ↦ rw (e, p, admitted) h
      ]
    ]

    pub copy_message-Keeps : (msg : Message) → Keeps FromStart (copy_message api job folder msg)
    unfolding copy_message
    copy_message-Keeps msg s h = elim (Bool-cases (msg.uid == 0)) [
      | inl e ↦ rw (e, copy_message) h
      | inr e ↦ elim (Bool-cases (is_synced s.state name folder msg.uid)) [
        | inl p ↦ rw (e, p, copy_message) h
        | inr p ↦ elim (Bool-cases (is_deleted msg)) [
          | inl q ↦ rw (e, p, q, copy_message) h
          | inr q ↦
              rw (e, p, q, copy_message)
                (Keeps-bind FromStart (admitted api job folder)
                  (λ _. append_message api job folder msg) admitted-Keeps
                  (λ _. append_message-Keeps msg (ground arith)) s h)
        ]
      ]
    ]
