-- ===== src/Runner/Cleared.antt =====
-- internal/runner/runner.go: what is left of the sync state when a copy starts.
use go_boxcopy.Base.{
  String, ◌≡◌, refl, true, List, [], ◌∷◌, inl, inr, arith, contains, ◌==◌, string_eq, ◌∙◌,
  if◌then◌else◌, Memᴰ,
}
use mathlib.Core.List.Memᴰ
use go_boxcopy.Config.Data.{MailboxConfig}
use go_boxcopy.State.Data.{State, empty_mailbox}
use go_boxcopy.State.Ops.{clear_mailbox}
use go_boxcopy.State.Calls.{clears_mailbox, apply, act, mailbox_at-apply}
use go_boxcopy.State.Paths.{path-clear_mailbox}
use go_boxcopy.State.View.{mailbox_at}
use go_boxcopy.Runner.Run.{clear_mailboxes}

abbrev pub names : List MailboxConfig → List String
names [] = []
names (mb ∷ mbs) = mb.name ∷ names mbs

mailbox_at-clear_mailbox :
    (s : State) (m n : String)
    → mailbox_at (clear_mailbox s m) n ≡ (if m == n then empty_mailbox n else mailbox_at s n)
unfolding apply act
mailbox_at-clear_mailbox s m n =
    ground (arith, mailbox_at-apply s m n clears_mailbox, string_eq.beq_iff m n)

-- Clearing empties the state of the configured mailboxes, and leaves that of all others alone.
pub mailbox_at-clear_mailboxes :
    (s : State) (mbs : List MailboxConfig) (n : String)
    → mailbox_at (clear_mailboxes s mbs) n
      ≡ (if contains (names mbs) n then empty_mailbox n else mailbox_at s n)
unfolding clear_mailboxes contains
mailbox_at-clear_mailboxes s [] n = refl
mailbox_at-clear_mailboxes s (mb ∷ mbs) n = ground (
  arith,
  mailbox_at-clear_mailboxes (clear_mailbox s mb.name) mbs n,
  mailbox_at-clear_mailbox s mb.name n,
)

pub path-clear_mailboxes :
    (s : State) (mbs : List MailboxConfig) → (clear_mailboxes s mbs).path ≡ s.path
unfolding clear_mailboxes
path-clear_mailboxes s [] = refl
path-clear_mailboxes s (mb ∷ mbs) =
    path-clear_mailboxes (clear_mailbox s mb.name) mbs ∙ path-clear_mailbox s mb.name

pub contains-names :
    (mbs : List MailboxConfig) (mb : MailboxConfig)
    → Memᴰ mb mbs
    → contains (names mbs) mb.name ≡ true
unfolding contains
contains-names [] mb m = absurd (Memᴰ.not-nil m)
contains-names (mb' ∷ mbs) mb m = elim (Memᴰ.cases_cons m) [
  | inl e ↦ ground (arith, string_eq.beq_iff mb'.name mb.name, e)
  | inr n ↦ ground (arith, contains-names mbs mb n)
]
