-- ===== src/Tests/ConfigTests.antt =====
-- The configuration and the encryption of passwords, at a small configuration.
use Prim.Native.Char.{Char}
use go_boxcopy.Base.{ℕ, ◌≡◌, ◌≢◌, ◌↔◌, refl, List, [], ◌∷◌, length, subst, string_eq}
use go_boxcopy.Base.Errors.{Result, ok}
use go_boxcopy.Base.Exec.{handle}
use go_boxcopy.Base.Text.{has_prefix, drop_text, same_codes, to_lower}
use go_boxcopy.Config.Load.{
  required, load_mailbox, load_entries, load_mailbox_configs, expand_path, resolve_path,
  default_general_config, load_general_config, load_server_config, load_copy_parameters,
  default_copy_parameters, default_state_file, load_from_document, check_file_permissions, load,
  required_file_mode,
}
use go_boxcopy.Config.Validate.{
  present_field, validate_mailbox, validate_mailboxes, is_valid_log_level, validate,
}
use go_boxcopy.Config.Crypt.{
  derive_key, gcm_of, encrypt_password, decrypt_password, decrypt_mailbox_passwords,
}
use go_boxcopy.Config.Decrypted.{
  decrypt_password-encrypt_password, IsEncrypted, decrypt_mailbox_passwords-IsEncrypted, ReadsFully,
}
use go_boxcopy.Config.Validated.{IsUsable, validate_iff}
use go_boxcopy.Config.Loaded.{Entries, load_mailbox_configs_iff, load-check_file_permissions}
use go_boxcopy.Tests.ConfigSamples.{
  plain_cipher, plain_cipher-IsSound, repeated, length-repeated, document, host, plain_alice,
  config,
}

unfoldable pub program : Unit {0}
unfolding handle has_prefix drop_text same_codes to_lower required load_mailbox load_entries
    load_mailbox_configs expand_path resolve_path default_general_config load_general_config
    load_server_config load_copy_parameters default_copy_parameters default_state_file
    load_from_document check_file_permissions load derive_key gcm_of encrypt_password present_field
    validate_mailbox validate_mailboxes is_valid_log_level validate
program = tt

abbrev pub random : ℕ → Result (List Char)
random n = ok (repeated "n" n)

random-ReadsFully : ReadsFully random
random-ReadsFully n bs h = subst (λ x. length x ≡ n) (cc h) (length-repeated "n" n)

encrypted : encrypt_password plain_cipher random "secret" "key" ≡ ok "nnsecret"
unfolding program
encrypted = refl

decrypt_password-encrypt_password_example :
    decrypt_password plain_cipher "nnsecret" "key" ≡ ok "secret"
decrypt_password-encrypt_password_example =
    decrypt_password-encrypt_password plain_cipher plain_cipher-IsSound random random-ReadsFully
      "secret" "key" "nnsecret" encrypted

config-IsEncrypted :
    IsEncrypted plain_cipher plain_cipher-IsSound "key" (plain_alice ∷ []) config.mailboxes
config-IsEncrypted =
    (refl, (random, random-ReadsFully, encrypted), (random, random-ReadsFully, encrypted), tt)

decrypt_mailbox_passwords-IsEncrypted_example :
    decrypt_mailbox_passwords plain_cipher "key" config
    ≡ (ok tt, record config { mailboxes = plain_alice ∷ [] })
decrypt_mailbox_passwords-IsEncrypted_example =
    decrypt_mailbox_passwords-IsEncrypted plain_cipher plain_cipher-IsSound "key" config
      (plain_alice ∷ []) config-IsEncrypted

validate_iff_example : (validate config ≡ ok tt) ↔ IsUsable config
validate_iff_example = validate_iff config

-- The sample is usable.
config_valid : validate config ≡ ok tt
unfolding program
config_valid = refl

load_mailbox_configs_iff_example :
    (load_mailbox_configs document ≡ ok config.mailboxes)
    ↔ ((config.mailboxes ≢ []) × Entries document config.mailboxes)
load_mailbox_configs_iff_example = load_mailbox_configs_iff document config.mailboxes

loaded : load host "config.toml" ≡ ok config
unfolding program
loaded = refl

load-check_file_permissions_example : host.stat "config.toml" ≡ ok required_file_mode
load-check_file_permissions_example = load-check_file_permissions host "config.toml" config loaded
