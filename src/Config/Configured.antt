-- ===== src/Config/Configured.antt =====
-- internal/runner/runner.go and internal/verifier/verifier.go: how a command comes to its configuration.
use go_boxcopy.Base.{String, []}
use go_boxcopy.Base.Errors.{Result, ok, relabel, ◌>>=◌}
use go_boxcopy.Config.Data.{Config}
use go_boxcopy.Config.Host.{Host}
use go_boxcopy.Config.Load.{load}
use go_boxcopy.Config.Validate.{validate}
use go_boxcopy.Config.Crypt.{Cipher, decrypt_mailbox_passwords}

-- Load, Validate and DecryptMailboxPasswords, which both commands call with the same messages.
unfoldable pub configured : Host → Cipher → String → String → Result Config
configured h c path key = do
  cfg ← relabel "failed to load config: %w" [] (load h path)
  _ ← relabel "invalid config: %w" [] (validate cfg)
  _ ← relabel "failed to decrypt passwords: %w" [] (decrypt_mailbox_passwords c key cfg).0
  ok (decrypt_mailbox_passwords c key cfg).1
