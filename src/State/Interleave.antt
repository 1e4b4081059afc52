-- ===== src/State/Interleave.antt =====
-- Any run of calls, whatever the interleaving of the workers: each mailbox goes its own way.
use go_boxcopy.Base.{String, ◌≡◌, refl, List, [], ◌∷◌, arith, ◌==◌, string_eq, if◌then◌else◌}
use go_boxcopy.State.Data.{MailboxState, State}
use go_boxcopy.State.Calls.{Call, apply, act, mailbox_at-apply}
use go_boxcopy.State.View.{mailbox_at}

unfoldable pub run : State → List (String × Call) → State
run s [] = s
run s ((m, c) ∷ calls) = run (apply s m c) calls

-- The calls on one mailbox, in their order.
unfoldable pub on : String → List (String × Call) → List Call
on n [] = []
on n ((m, c) ∷ calls) = let rest = on n calls in if m == n then c ∷ rest else rest

unfoldable pub act_all : String → MailboxState → List Call → MailboxState
act_all m ms [] = ms
act_all m ms (c ∷ calls) = act_all m (act m ms c) calls

-- After a run of calls by any number of workers, a mailbox is where its own calls bring it, one
-- after the other, whatever calls on other mailboxes came between them.
pub mailbox_at-run :
    (s : State) (n : String) (calls : List (String × Call))
    → mailbox_at (run s calls) n ≡ act_all n (mailbox_at s n) (on n calls)
unfolding run on act_all
mailbox_at-run s n [] = refl
mailbox_at-run s n ((m, c) ∷ calls) =
    ground
      (arith, mailbox_at-run (apply s m c) n calls, mailbox_at-apply s m n c, string_eq.beq_iff m n)
