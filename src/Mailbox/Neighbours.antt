-- ===== src/Mailbox/Neighbours.antt =====
-- internal/mailbox: what a copy means for the mailboxes that it is not of.
use go_boxcopy.Base.{
  String, ◌≡◌, contains, inl, inr, arith, ◌==◌, string_eq, nat_eq, Bool-cases, subst, sym,
}
use go_boxcopy.Base.Assoc.{lookup}
use go_boxcopy.State.Data.{State, empty_mailbox}
use go_boxcopy.State.View.{mailbox_at, folder_in}
use go_boxcopy.State.Updates.{is_synced_lem, get_target_uid_lem}
use go_boxcopy.Mailbox.Copies.{Copies}
use go_boxcopy.Mailbox.Effects.{mailbox_at-Copies}
use go_boxcopy.Mailbox.Targets.{HasTargets, HasTargets-Copies}

module _ (s t : State) (n : String) where
  pub HasTargets-mailbox_at : mailbox_at t n ≡ mailbox_at s n → HasTargets s n → HasTargets t n
  HasTargets-mailbox_at e k f uid h =
      let found = k f uid (ground (arith, is_synced_lem s n f uid, is_synced_lem t n f uid)) in
      (found.0, ground (arith, found.1, get_target_uid_lem s n f uid, get_target_uid_lem t n f uid))

  -- A copy of any mailbox.
  pub HasTargets-Copies_any : {m : String} → Copies m s t → HasTargets s n → HasTargets t n
  HasTargets-Copies_any {m} c k = elim (Bool-cases (m == n)) [
    | inl e ↦
        subst (HasTargets t) ((string_eq.beq_iff m n).0 e)
          (HasTargets-Copies (subst (HasTargets s) (sym ((string_eq.beq_iff m n).0 e)) k) c)
    | inr e ↦ HasTargets-mailbox_at (mailbox_at-Copies n e c) k
  ]

-- Where nothing is synced yet.
pub HasTargets-empty_mailbox :
    (s : State) (n : String) → mailbox_at s n ≡ empty_mailbox n → HasTargets s n
unfolding folder_in contains lookup
HasTargets-empty_mailbox s n e f uid h = absurd (ground (arith, is_synced_lem s n f uid))
