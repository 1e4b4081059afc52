-- ===== src/Runner/Copied.antt =====
-- internal/runner/runner.go: the copies of a run, one mailbox after the other.
use go_boxcopy.Base.{◌≡◌, refl, true, List, [], ◌∷◌, string_eq, nat_eq}
use go_boxcopy.Base.Int.{ℤ}
use go_boxcopy.Base.Errors.{int, wrapf, ok}
use go_boxcopy.Config.Data.{MailboxConfig, Config}
use go_boxcopy.Imap.Api.{Api}
use go_boxcopy.Mailbox.Data.{Sys, new_mailbox}
use go_boxcopy.Mailbox.Box.{copy}
use go_boxcopy.Runner.Data.{Surroundings}
use go_boxcopy.Runner.QueueLaws.{RunsAll, Chain, Covers, started, run_queue-Chain}
use go_boxcopy.Runner.Run.{Shared, copy_mailbox, copy_timeout, copy_queue}

module _ (api : Api) (env : Surroundings api.World) (cfg : Config) where
  open api use {World, Conn}

  -- A mailbox was copied without an error.
  abbrev pub CopiedBy : MailboxConfig → Shared World → Shared World → Type 0
  CopiedBy mb s t =
      (u : Sys Conn World) × (copy api
          (record {
            config = mb;
            source_server = cfg.source;
            target_server = cfg.target;
            throttled = true;
          })
          (env.plan mb) (record { box = new_mailbox; state = s.state; world = s.world })
        ≡ (ok tt, u))
      × (t ≡ record { state = u.state; world = u.world })

  copy_mailbox-CopiedBy :
      (mb : MailboxConfig) (s : Shared World)
      → (copy_mailbox api env cfg mb s).0 ≡ ok tt
      → CopiedBy mb s (copy_mailbox api env cfg mb s).1
  unfolding copy_mailbox
  copy_mailbox-CopiedBy mb s h =
      let r =
        copy api
          (record {
            config = mb;
            source_server = cfg.source;
            target_server = cfg.target;
            throttled = true;
          })
          (env.plan mb) (record { box = new_mailbox; state = s.state; world = s.world }) in
      (r.1, λ i. (h i, r.1), refl)

  -- What the first task of a copy meets.
  abbrev pub begin : ℤ → Shared World → Shared World
  begin duration =
      started env.copiers (λ t. t.world) (λ t w. record t { world = w }) (copy_timeout duration)
        cfg.mailboxes

  pub copy_queue-Chain :
      RunsAll env.copiers
      → (duration : ℤ) (s : Shared World) → (copy_queue api env cfg duration s).0 ≡ ok 0
      → (ran : List MailboxConfig) × Covers ran cfg.mailboxes
        × Chain CopiedBy ran (begin duration s) (copy_queue api env cfg duration s).1
  unfolding copy_queue
  copy_queue-Chain all duration =
      run_queue-Chain env.copiers (λ t. t.world) (λ t w. record t { world = w })
        (copy_mailbox api env cfg) all CopiedBy copy_mailbox-CopiedBy
        "failed to enqueue mailbox %s: %w"
        (wrapf "copy timed out after %v: %w" (int (copy_timeout duration) ∷ []))
        (copy_timeout duration) cfg.mailboxes
