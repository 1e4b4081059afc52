-- ===== src/Config/Validated.antt =====
-- internal/config/config.go: which configurations `Validate` accepts.
use go_boxcopy.Base.{
  ℕ, ◌+◌, ◌<◌, ◌≡◌, ◌≢◌, ◌↔◌, true, false, List, [], ◌∷◌, All, arith, string_eq, nat_eq,
}
use go_boxcopy.Base.Int.{ℤ, pos, negsuc, is_less_than_one}
use go_boxcopy.Base.Errors.{ok}
use go_boxcopy.Config.Data.{MailboxConfig, Config}
use go_boxcopy.Config.Validate.{
  is_valid_log_level, present_field, validate_mailbox, validate_mailboxes, validate,
}

abbrev pub IsPositive : ℤ → Type 0
IsPositive (pos n) = 0 < n
IsPositive (negsuc n) = ⊥

abbrev pub IsComplete : MailboxConfig → Type 0
IsComplete mb =
    (mb.name ≢ "")
    × (mb.source_user ≢ "")
    × (mb.source_password ≢ "")
    × (mb.target_user ≢ "")
    × (mb.target_password ≢ "")

-- The general settings, the servers and the numbers.
abbrev pub IsUsable : Config → Type 0
IsUsable c =
    (c.source.host ≢ "")
    × (c.target.host ≢ "")
    × (c.mailboxes ≢ [])
    × IsPositive c.copy_param.messages_per_second
    × IsPositive c.copy_param.max_connections
    × (is_valid_log_level c.general.log_level ≡ true)
    × All IsComplete c.mailboxes

is_less_than_one_lem : (z : ℤ) → (is_less_than_one z ≡ false) ↔ IsPositive z
is_less_than_one_lem (pos n) = ground arith
is_less_than_one_lem (negsuc n) = ((λ h. absurd (cc h)), (λ h. absurd h))

validate_mailbox_iff :
    (i : ℕ) (mb : MailboxConfig) → (validate_mailbox i mb ≡ ok tt) ↔ IsComplete mb
unfolding validate_mailbox present_field
validate_mailbox_iff i mb = ground (
  arith,
  string_eq.beq_iff mb.name "",
  string_eq.beq_iff mb.source_user "",
  string_eq.beq_iff mb.source_password "",
  string_eq.beq_iff mb.target_user "",
  string_eq.beq_iff mb.target_password "",
)

validate_mailboxes_iff :
    (i : ℕ) (mbs : List MailboxConfig) → (validate_mailboxes i mbs ≡ ok tt) ↔ All IsComplete mbs
unfolding validate_mailboxes
validate_mailboxes_iff i [] = ground arith
validate_mailboxes_iff i (mb ∷ mbs) =
    ground (arith, validate_mailbox_iff i mb, validate_mailboxes_iff (i + 1) mbs)

-- `Validate` accepts exactly the configurations with both hosts, at least one mailbox, a rate and a
-- number of connections of at least one, a known log level, and no empty field in any mailbox.
pub validate_iff : (c : Config) → (validate c ≡ ok tt) ↔ IsUsable c
unfolding validate
validate_iff c = ground (
  arith,
  string_eq.beq_iff c.source.host "",
  string_eq.beq_iff c.target.host "",
  is_less_than_one_lem c.copy_param.messages_per_second,
  is_less_than_one_lem c.copy_param.max_connections,
  validate_mailboxes_iff 0 c.mailboxes,
)
