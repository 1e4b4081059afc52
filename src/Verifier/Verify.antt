-- ===== src/Verifier/Verify.antt =====
-- internal/verifier/verifier.go: `Verify`.
use go_boxcopy.Base.{String, List, [], ◌∷◌, ◌==◌, string_eq, if◌then◌else◌}
use go_boxcopy.Base.Errors.{errorf, ok}
use go_boxcopy.Base.Exec.{Exec, raise, lift, ◌>>=◌}
use go_boxcopy.Config.Data.{MailboxConfig, Config}
use go_boxcopy.Config.Host.{Host}
use go_boxcopy.Config.Crypt.{Cipher}
use go_boxcopy.Config.Configured.{configured}
use go_boxcopy.Imap.Api.{Api}
use go_boxcopy.Verifier.Compare.{MailboxResult, verify_mailbox}

pub record VerifyOptions : Type 0 where
  pub config_path : String
  pub encryption_key : String

module _ (api : Api) where
  open api use {World}

  -- The loop over the mailboxes.
  unfoldable pub verify_mailboxes : Config → List MailboxConfig → World → List MailboxResult × World
  verify_mailboxes cfg [] w = ([], w)
  verify_mailboxes cfg (mb ∷ mbs) w =
      let (result, w1) = verify_mailbox api mb cfg.source cfg.target w in
      let (results, w2) = verify_mailboxes cfg mbs w1 in (result ∷ results, w2)

  -- verify_mailboxes as a method.
  unfoldable pub verify_all : Config → Exec World (List MailboxResult)
  unfolding verify_mailboxes
  verify_all cfg w = let (results, w') = verify_mailboxes cfg cfg.mailboxes w in (ok results, w')

  unfoldable pub verify : Host → Cipher → VerifyOptions → Exec World (List MailboxResult)
  verify h c opts =
      if opts.config_path == ""
      then raise (errorf "config path is required" [])
      else if opts.encryption_key == ""
      then raise (errorf "encryption key is required" [])
      else (do cfg ← lift (configured h c opts.config_path opts.encryption_key); verify_all cfg)
