-- ===== src/Verifier/ReadOnly.antt =====
-- internal/verifier/verifier.go: a verification sends no command that changes a mailbox.
use go_boxcopy.Base.{
  ℕ, String, ◌≡◌, refl, true, List, [], ◌∷◌, Option, ap, fun_ext, inl, inr, if◌then◌else◌,
}
use go_boxcopy.Base.Errors.{Error, Result, Result-cases, ok}
use go_boxcopy.Base.Exec.{handle}
use go_boxcopy.Base.Assoc.{Assoc, keys}
use go_boxcopy.Config.Data.{ServerConfig, MailboxConfig, Config}
use go_boxcopy.Config.Host.{Host}
use go_boxcopy.Config.Crypt.{Cipher}
use go_boxcopy.State.Data.{Time}
use go_boxcopy.Imap.Api.{Api}
use go_boxcopy.Imap.Data.{Folder, Bytes, SelectData, UidRange, StoreOp}
use go_boxcopy.Imap.Client.{dial}
use go_boxcopy.Imap.Folders.{list_folders}
use go_boxcopy.Verifier.Compare.{
  new_result, counts, sort_names, present, MailboxResult, Pair, folder_total_size, compare_folders,
  compare_listed, compare_mailbox, then_close, verify_mailbox,
}
use go_boxcopy.Verifier.Verify.{VerifyOptions, verify_mailboxes, verify_all, verify}

-- Other answers to the commands that change a mailbox or open one for changes.
pub record Writes (Conn World : Type 0) : Type 0 where
  pub select_to_write : Conn → String → World → Result SelectData × World
  pub create : Conn → String → World → Option Error × World
  pub delete : Conn → String → World → Option Error × World
  pub rename : Conn → String → String → World → Option Error × World
  pub append_write :
      Conn → String → List String → Option Time → Bytes → World → Option Error × World
  pub append_close : Conn → World → Option Error × World
  pub append_wait : Conn → World → Result (Option ℕ) × World
  pub store : Conn → UidRange → StoreOp → List String → World → Option Error × World
  pub expunge : Conn → World → Option Error × World
  pub copy : Conn → UidRange → String → World → Option Error × World
  pub move : Conn → UidRange → String → World → Option Error × World

abbrev pub with_writes : (api : Api) → Writes api.Conn api.World → Api
with_writes api ws = record api {
  select = λ conn mailbox read_only w.
      if read_only then api.select conn mailbox true w else ws.select_to_write conn mailbox w;
  create = ws.create;
  delete = ws.delete;
  rename = ws.rename;
  append_write = ws.append_write;
  append_close = ws.append_close;
  append_wait = ws.append_wait;
  store = ws.store;
  expunge = ws.expunge;
  copy = ws.copy;
  move = ws.move;
}

module _ (api : Api) (ws : Writes api.Conn api.World) where
  abbrev other : Api
  other = with_writes api ws

  folder_total_size_same : folder_total_size other ≡ folder_total_size api
  unfolding folder_total_size handle
  folder_total_size_same = refl

  compare_folders_same :
      (a b : Assoc String ℕ) (names : List String) (p : Pair api.Conn api.World)
      → compare_folders other a b names p ≡ compare_folders api a b names p
  unfolding compare_folders
  compare_folders_same a b [] p = refl
  compare_folders_same a b (name ∷ names) p =
      let u = folder_total_size api name (p.src, p.world) in
      let v = folder_total_size api name (p.tgt, u.1.1) in
      let q : Pair api.Conn api.World = record { src = u.1.0; tgt = v.1.0; world = v.1.1 } in
      rw (compare_folders, folder_total_size_same, compare_folders_same a b names q) refl

  compare_listed_same :
      (result : MailboxResult) (source target : List Folder) (p : Pair api.Conn api.World)
      → compare_listed other result source target p ≡ compare_listed api result source target p
  unfolding compare_listed
  compare_listed_same result source target p =
      let a = counts [] source in
      let b = counts [] target in
      rw (compare_listed, compare_folders_same a b (sort_names (present b (keys a))) p) refl

  compare_mailbox_same :
      (result : MailboxResult) (p : Pair api.Conn api.World)
      → compare_mailbox other result p ≡ compare_mailbox api result p
  unfolding compare_mailbox
  compare_mailbox_same result p =
      let u = list_folders api (p.src, p.world) in
      let v = list_folders api (p.tgt, u.1.1) in
      let q : Pair api.Conn api.World = record { src = u.1.0; tgt = v.1.0; world = v.1.1 } in
      elim (Result-cases u.0) [
        | inr (e, f) ↦ rw (compare_mailbox, f) refl
        | inl (source, f) ↦ elim (Result-cases v.0) [
          | inr (e, g) ↦ rw (compare_mailbox, f, g) refl
          | inl (target, g) ↦
              rw (compare_mailbox, f, g) (compare_listed_same result source target q)
        ]
      ]

  verify_mailbox_same :
      (mb : MailboxConfig) (source target : ServerConfig) (w : api.World)
      → verify_mailbox other mb source target w ≡ verify_mailbox api mb source target w
  unfolding verify_mailbox then_close
  verify_mailbox_same mb source target w =
      let r1 = dial api source mb.source_user mb.source_password w in
      let r2 = dial api target mb.target_user mb.target_password r1.1 in
      elim (Result-cases r1.0) [
        | inr (e, f) ↦ rw (verify_mailbox, f) refl
        | inl (src, f) ↦ elim (Result-cases r2.0) [
          | inr (e, g) ↦ rw (verify_mailbox, f, g) refl
          | inl (tgt, g) ↦
              let q : Pair api.Conn api.World = record { src = src; tgt = tgt; world = r2.1 } in
              rw (verify_mailbox, f, g)
                (ap
                  (λ x. then_close api "failed to close source connection: %w" x.1.src (
                    then_close api "failed to close target connection: %w" x.1.tgt
                      (x.0, x.1.world)))
                  (compare_mailbox_same (new_result mb) q))
        ]
      ]

  verify_mailboxes_same :
      (cfg : Config) (mbs : List MailboxConfig) (w : api.World)
      → verify_mailboxes other cfg mbs w ≡ verify_mailboxes api cfg mbs w
  unfolding verify_mailboxes
  verify_mailboxes_same cfg [] w = refl
  verify_mailboxes_same cfg (mb ∷ mbs) w =
      let w' = (verify_mailbox api mb cfg.source cfg.target w).1 in
      rw
        (
          verify_mailboxes,
          verify_mailbox_same mb cfg.source cfg.target w,
          verify_mailboxes_same cfg mbs w',
        )
        refl

  verify_all_same : verify_all other ≡ verify_all api
  unfolding verify_all
  verify_all_same =
      fun_ext
        (λ cfg. fun_ext (λ w. ap (λ x. (ok x.0, x.1)) (verify_mailboxes_same cfg cfg.mailboxes w)))

  -- A verification returns the same results and leaves the same world whatever the commands that
  -- change a mailbox, or open one for changes, would do: it sends none of them.
  pub verify_same :
      (h : Host) (c : Cipher) (opts : VerifyOptions) (w : api.World)
      → verify other h c opts w ≡ verify api h c opts w
  unfolding verify
  verify_same h c opts w = rw verify_all_same refl
