-- ===== src/Mailbox/Repeat.antt =====
-- internal/mailbox/copy.go: a message that has been copied is not copied again.
use go_boxcopy.Base.{
  ℕ, ◌<◌, String, ◌≡◌, refl, true, false, not, ◌&&◌, ◌||◌, inl, inr, arith, ◌==◌, nat_eq, string_eq,
  Bool-cases,
}
use go_boxcopy.Base.Errors.{Result, ok, err, Result-cases}
use go_boxcopy.Base.Exec.{raise, resume, handle}
use go_boxcopy.State.Data.{State}
use go_boxcopy.State.Ops.{mark_synced, set_uid_mapping}
use go_boxcopy.State.Reads.{is_synced}
use go_boxcopy.State.Updates.{is_synced_lem, folder_at-set_uid_mapping}
use go_boxcopy.State.Synced.{is_synced-mark_synced}
use go_boxcopy.Imap.Api.{Api}
use go_boxcopy.Imap.Data.{Message}
use go_boxcopy.Imap.Fetch.{blank_message}
use go_boxcopy.Imap.Message.{is_deleted}
use go_boxcopy.Imap.Messages.{append}
use go_boxcopy.Mailbox.Data.{Job, Session, update_box, add_skipped}
use go_boxcopy.Mailbox.Message.{record_copy, append_message, admitted, copy_message}

pub is_synced-record_copy_keep :
    (s : State) (m f : String) (uid target : ℕ) (n g : String) (x : ℕ)
    → is_synced (record_copy s m f uid target) n g x
      ≡ ((not (uid == 0) && m == n && f == g && uid == x) || is_synced s n g x)
unfolding record_copy
is_synced-record_copy_keep s m f uid target n g x = ground (
  arith,
  is_synced-mark_synced s m f uid n g x,
  is_synced_lem (mark_synced s m f uid).0 n g x,
  is_synced_lem (set_uid_mapping (mark_synced s m f uid).0 m f uid target) n g x,
  folder_at-set_uid_mapping (mark_synced s m f uid).0 m f n g uid target,
  string_eq.beq_iff m n,
  string_eq.beq_iff f g,
)

module _ (api : Api) (job : Job) (folder : String) (msg : Message) where
  open api use {World, Conn}

  append_message-is_synced :
      (s : Session Conn World)
      → 0 < msg.uid
      → (append_message api job folder msg s).0 ≡ ok tt
      → is_synced (append_message api job folder msg s).1.state job.config.name folder msg.uid
        ≡ true
  unfolding append_message handle
  append_message-is_synced s valid h =
      let sent = record (blank_message 0) {
        flags = msg.flags;
        internal_date = msg.internal_date;
        body = msg.body;
      } in
      elim (Result-cases (append api folder sent (s.target, s.world)).0) [
        | inl (target, e) ↦
            rw (e, append_message)
              (ground (
                arith,
                is_synced-record_copy_keep s.state job.config.name folder msg.uid target
                    job.config.name folder msg.uid,
                string_eq.beq_iff job.config.name job.config.name,
                string_eq.beq_iff folder folder,
              ))
        | inr (d, e) ↦ absurd (cc (rw (e, append_message) at h))
      ]

  after_admitted :
      (r : Result (Unit {0})) (t : Session Conn World)
      → 0 < msg.uid
      → (resume (λ _. append_message api job folder msg) raise (r, t)).0 ≡ ok tt
      → is_synced
          (resume (λ _. append_message api job folder msg) raise (r, t)).1.state
          job.config.name
          folder
          msg.uid
        ≡ true
  after_admitted (ok _) t valid h = append_message-is_synced t valid h
  after_admitted (err e) t valid h = cc

  copy_message_uid :
      (s : Session Conn World)
      → (copy_message api job folder msg s).0 ≡ ok tt
      → (msg.uid == 0) ≡ false
  unfolding copy_message
  copy_message_uid s h = elim (Bool-cases (msg.uid == 0)) [
    | inl e ↦ absurd (cc (rw (e, copy_message) at h))
    | inr e ↦ e
  ]

  -- A message whose copy succeeded is synced or deleted.
  pub copy_message_done :
      (s : Session Conn World)
      → (copy_message api job folder msg s).0 ≡ ok tt
      → (is_synced (copy_message api job folder msg s).1.state job.config.name folder msg.uid
          || is_deleted msg)
        ≡ true
  unfolding copy_message handle
  copy_message_done s h =
      let e = copy_message_uid s h in
      elim (Bool-cases (is_synced s.state job.config.name folder msg.uid)) [
        | inl p ↦ rw (e, p, copy_message, p) refl
        | inr p ↦ elim (Bool-cases (is_deleted msg)) [
          | inl q ↦ rw (e, p, q, copy_message) (ground arith)
          | inr q ↦
              let h' = rw (e, p, q, copy_message) at h in
              let a = admitted api job folder s in
              rw (e, p, q, copy_message) (ground (arith, after_admitted a.0 a.1 (ground arith) h'))
        ]
      ]

  copy_message_skips :
      (t : Session Conn World)
      → (msg.uid == 0) ≡ false
      → (is_synced t.state job.config.name folder msg.uid || is_deleted msg) ≡ true
      → copy_message api job folder msg t ≡ update_box api (add_skipped 1) t
  unfolding copy_message
  copy_message_skips t e d = elim (Bool-cases (is_synced t.state job.config.name folder msg.uid)) [
    | inl p ↦ rw (e, p, copy_message) refl
    | inr p ↦ let q : is_deleted msg ≡ true = ground arith in rw (e, p, q, copy_message) refl
  ]

  -- Once a message has been copied or skipped without an error, copying it again succeeds and only
  -- counts it as skipped: neither server is asked for anything.
  pub copy_message-copy_message :
      (s : Session Conn World)
      → (copy_message api job folder msg s).0 ≡ ok tt
      → copy_message api job folder msg (copy_message api job folder msg s).1
        ≡ update_box api (add_skipped 1) (copy_message api job folder msg s).1
  copy_message-copy_message s h =
      copy_message_skips (copy_message api job folder msg s).1 (copy_message_uid s h)
        (copy_message_done s h)
