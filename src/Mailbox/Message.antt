-- ===== src/Mailbox/Message.antt =====
-- internal/mailbox/copy.go: `copyMessage` and `appendMessage`.
use go_boxcopy.Base.{ℕ, String, [], ◌∷◌, none, some, length, ◌==◌, nat_eq, if◌then◌else◌}
use go_boxcopy.Base.Errors.{errorf, str, num, ok, err}
use go_boxcopy.Base.Exec.{raise, ◌>>=◌, ◌>>◌}
use go_boxcopy.State.Data.{State}
use go_boxcopy.State.Ops.{mark_synced, set_uid_mapping}
use go_boxcopy.State.Reads.{is_synced}
use go_boxcopy.Imap.Api.{Api}
use go_boxcopy.Imap.Data.{Message}
use go_boxcopy.Imap.Fetch.{blank_message}
use go_boxcopy.Imap.Message.{is_deleted}
use go_boxcopy.Imap.Messages.{append}
use go_boxcopy.Mailbox.Data.{
  Job, InSession, on_target, update_state, update_box, add_copied, add_skipped, relabeled,
}

-- Mark as copied and record the mapping.
unfoldable pub record_copy : State → String → String → ℕ → ℕ → State
record_copy s mailbox folder uid target_uid =
    set_uid_mapping (mark_synced s mailbox folder uid).0 mailbox folder uid target_uid

module _ (api : Api) (job : Job) (folder : String) where
  abbrev name : String
  name = job.config.name

  unfoldable pub append_message : Message → InSession api (Unit {0})
  append_message msg = do
    target_uid ← relabeled "failed to append message UID %d: %w" (num msg.uid ∷ []) (
        on_target api (
          append api folder (record (blank_message 0) {
            flags = msg.flags;
            internal_date = msg.internal_date;
            body = msg.body;
          })))
    update_state api (λ s. record_copy s name folder msg.uid target_uid)
    update_box api (add_copied 1 (length msg.body))

  -- The wait for the throttle, if there is one.
  unfoldable pub admitted : InSession api (Unit {0})
  admitted s =
      if job.throttled
      then elim (api.admit s.world).0 [
        | none ↦ (ok tt, record s { world = (api.admit s.world).1 })
        | some e ↦ (err e, record s { world = (api.admit s.world).1 })
      ]
      else (ok tt, s)

  unfoldable pub copy_message : Message → InSession api (Unit {0})
  copy_message msg s =
      if msg.uid == 0
      then raise (errorf "message has invalid UID 0 in folder %s" (str folder ∷ [])) s
      else if is_synced s.state name folder msg.uid
      then update_box api (add_skipped 1) s
      else if is_deleted msg
      then update_box api (add_skipped 1) s
      else (admitted >> append_message msg) s
