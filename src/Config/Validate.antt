-- ===== src/Config/Validate.antt =====
-- internal/config/config.go: `Validate`, and what it accepts.
use go_boxcopy.Base.{
  ℕ, ◌+◌, String, Bool, not, ◌||◌, List, [], ◌∷◌, length, map, ◌==◌, nat_eq, string_eq,
  if◌then◌else◌,
}
use go_boxcopy.Base.Int.{is_less_than_one}
use go_boxcopy.Base.Errors.{errorf, str, num, Result, ok, err, ◌>>=◌}
use go_boxcopy.Base.Text.{codes, to_lower, same_codes}
use go_boxcopy.Config.Data.{MailboxConfig, Config}

unfoldable pub is_valid_log_level : String → Bool
unfolding same_codes to_lower
is_valid_log_level level =
    let lower = map to_lower (codes level) in
    same_codes lower (codes "debug")
    || same_codes lower (codes "info")
    || same_codes lower (codes "warn")
    || same_codes lower (codes "warning")
    || same_codes lower (codes "error")

-- A field of the mailbox of number `i` that must not be empty.
unfoldable pub present_field : ℕ → String → String → String → Result (Unit {0})
present_field i name field value =
    if value == ""
    then err (errorf "mailbox[%d] %q: %s is required" (num i ∷ str name ∷ str field ∷ []))
    else ok tt

-- The body of the loop over the mailboxes.
unfoldable pub validate_mailbox : ℕ → MailboxConfig → Result (Unit {0})
unfolding present_field
validate_mailbox i mb =
    if mb.name == "" then err (errorf "mailbox[%d]: name is required" (num i ∷ [])) else (do
      _ ← present_field i mb.name "source_user" mb.source_user
      _ ← present_field i mb.name "source_password" mb.source_password
      _ ← present_field i mb.name "target_user" mb.target_user
      present_field i mb.name "target_password" mb.target_password)

unfoldable pub validate_mailboxes : ℕ → List MailboxConfig → Result (Unit {0})
validate_mailboxes i [] = ok tt
validate_mailboxes i (mb ∷ mbs) = do _ ← validate_mailbox i mb; validate_mailboxes (i + 1) mbs

unfoldable pub validate : Config → Result (Unit {0})
validate c =
    if c.source.host == ""
    then err (errorf "source server host is required" [])
    else if c.target.host == ""
    then err (errorf "target server host is required" [])
    else if length c.mailboxes == 0
    then err (errorf "at least one mailbox is required" [])
    else if is_less_than_one c.copy_param.messages_per_second
    then err (errorf "messages_per_second must be at least 1" [])
    else if is_less_than_one c.copy_param.max_connections
    then err (errorf "max_connections must be at least 1" [])
    else if not (is_valid_log_level c.general.log_level)
    then err (
        errorf "invalid log_level: %s (must be debug, info, warn, or error)"
          (str c.general.log_level ∷ []))
    else validate_mailboxes 0 c.mailboxes
