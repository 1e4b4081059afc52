-- ===== src/Runner/Cleaned.antt =====
-- internal/runner/runner.go: the cleaning of the targets that comes before any change of the state.
use go_boxcopy.Base.{
  ◌≡◌, refl, some, ◌⊎◌, inl, inr, arith, ltb, ◌==◌, string_eq, nat_eq, Bool-cases, Option-cases,
  ◌∙◌, ap, List, [],
}
use go_boxcopy.Base.Int.{ℤ}
use go_boxcopy.Base.Errors.{wrapf, Result-cases, ok}
use go_boxcopy.Base.Exec.{handle}
use go_boxcopy.Config.Data.{MailboxConfig, Config}
use go_boxcopy.Config.Host.{Host}
use go_boxcopy.Config.Crypt.{Cipher}
use go_boxcopy.Config.Configured.{configured}
use go_boxcopy.Imap.Api.{Api}
use go_boxcopy.Runner.Data.{Options, Surroundings, Machine}
use go_boxcopy.Runner.Queue.{run_queue}
use go_boxcopy.Runner.QueueLaws.{RunsAll, Chain, Covers, started, run_queue-Chain}
use go_boxcopy.Runner.Clean.{clean_target_mailbox, clean_targets, clean_timeout}
use go_boxcopy.Runner.Run.{
  run_options, confirm_copy, clean, perform_confirmed, perform_copy, dry_run, run,
}

module _ (api : Api) (env : Surroundings api.World) where
  open api use {World}

  -- Between the two worlds the target mailboxes were cleaned one after the other, each configured
  -- one among them, without an error, and the pool was stopped.
  abbrev pub AllCleaned : Config → World → World → Type 0
  AllCleaned cfg w w' =
      let w1 = (env.cleaners.new_worker_pool cfg.copy_param.max_connections w).1 in
      (ran : List MailboxConfig) × (t : World) × Covers ran cfg.mailboxes
      × Chain (λ mb v v'. clean_target_mailbox api cfg.target mb v ≡ (ok tt, v')) ran
          (started env.cleaners (λ v. v) (λ _ v. v) clean_timeout cfg.mailboxes w1) t
      × (w' ≡ (env.cleaners.stop t).1)

  pub clean_targets_ok :
      (cfg : Config) (w : World)
      → RunsAll env.cleaners
      → (clean_targets api env.cleaners cfg w).0 ≡ ok tt
      → AllCleaned cfg w (clean_targets api env.cleaners cfg w).1
  unfolding clean_targets
  clean_targets_ok cfg w all e =
      let p = env.cleaners.new_worker_pool cfg.copy_param.max_connections w in
      let q =
        run_queue env.cleaners (λ w'. w') (λ _ w'. w') (clean_target_mailbox api cfg.target)
          "failed to enqueue cleanup for mailbox %s: %w" (wrapf "target cleanup timed out: %w" [])
          clean_timeout cfg.mailboxes p.1 in
      elim (Option-cases p.0) [
        | inr (d, f) ↦ absurd (cc (rw (clean_targets, f) at e))
        | inl f ↦ elim (Result-cases q.0) [
          | inr (d, g) ↦ absurd (cc (rw (clean_targets, f, g) at e))
          | inl (fails, g) ↦ elim (Bool-cases (ltb 0 fails)) [
            | inl k ↦ absurd (cc (rw (clean_targets, f, g, k) at e))
            | inr k ↦
                let zero : fails ≡ 0 = ground arith in
                let chain =
                  run_queue-Chain env.cleaners (λ w'. w') (λ _ w'. w')
                    (clean_target_mailbox api cfg.target) all
                    (λ mb v v'. clean_target_mailbox api cfg.target mb v ≡ (ok tt, v'))
                    (λ mb v h i. (h i, (clean_target_mailbox api cfg.target mb v).1))
                    "failed to enqueue cleanup for mailbox %s: %w"
                    (wrapf "target cleanup timed out: %w" []) clean_timeout cfg.mailboxes p.1
                    (g ∙ ap (λ x. ok x) zero) in
                rw (clean_targets, f) (chain.0, q.1, chain.1, chain.2, refl)
          ]
        ]
      ]

  pub perform_confirmed_cleaned :
      (cfg : Config) (duration : ℤ) (m : Machine World)
      → (perform_confirmed api env cfg duration m).0 ≡ ok tt
      → (clean_targets api env.cleaners cfg m.world).0 ≡ ok tt
  unfolding perform_confirmed clean handle
  perform_confirmed_cleaned cfg duration m e =
      elim (Result-cases (clean_targets api env.cleaners cfg m.world).0) [
        | inr (d, f) ↦ absurd (cc (rw (perform_confirmed, f) at e))
        | inl (_, f) ↦ f
      ]

  perform_confirmed_uncleaned :
      (cfg : Config) (duration : ℤ) (m : Machine World)
      → RunsAll env.cleaners
      → ((perform_confirmed api env cfg duration m).1.disk ≡ m.disk)
        ⊎ ((w : World) × AllCleaned cfg m.world w)
  unfolding perform_confirmed clean handle
  perform_confirmed_uncleaned cfg duration m all =
      let r = clean_targets api env.cleaners cfg m.world in
      elim (Result-cases r.0) [
        | inr (d, f) ↦ inl (rw (perform_confirmed, f) refl)
        | inl (_, f) ↦ inr (r.1, clean_targets_ok cfg m.world all f)
      ]

  perform_copy_uncleaned :
      (cfg : Config) (opts : Options) (m : Machine World)
      → RunsAll env.cleaners
      → ((perform_copy api env cfg opts m).1.disk ≡ m.disk)
        ⊎ ((w : World) × AllCleaned cfg m.world w)
  unfolding perform_copy handle
  perform_copy_uncleaned cfg opts m all = elim (Result-cases (confirm_copy opts.input)) [
    | inr (d, f) ↦ inl (rw (perform_copy, f) refl)
    | inl (_, f) ↦ elim (perform_confirmed_uncleaned cfg opts.max_copy_duration m all) [
      | inl e ↦ inl (rw (perform_copy, f) e)
      | inr e ↦ inr e
    ]
  ]

  module _ (h : Host) (c : Cipher) (m : Machine World) where
    -- A run leaves the disk as it was, unless it had a valid configuration and has cleaned, from the
    -- world that it started in, every configured target mailbox without an error. The pool must run
    -- all tasks that it is given when it reports the end of the wait.
    pub run-AllCleaned :
        (opts : Options)
        → RunsAll env.cleaners
        → ((run api env h c (some opts) m).1.disk ≡ m.disk)
          ⊎ ((cfg : Config) × (configured h c opts.config_path opts.encryption_key ≡ ok cfg)
              × (w : World) × AllCleaned cfg m.world w)
    unfolding run run_options handle dry_run perform_copy
    run-AllCleaned opts all = elim (Bool-cases (opts.config_path == "")) [
      | inl e ↦ inl (rw (run, e) refl)
      | inr e ↦ elim (Bool-cases (opts.encryption_key == "")) [
        | inl f ↦ inl (rw (run, e, f) refl)
        | inr f ↦ elim (Result-cases (configured h c opts.config_path opts.encryption_key)) [
          | inr (d, g) ↦ inl (rw (run, e, f, g) refl)
          | inl (cfg, g) ↦ elim (Bool-cases opts.perform) [
            | inr p ↦ inl (rw (run, e, f, g, p) refl)
            | inl p ↦ elim (perform_copy_uncleaned cfg opts m all) [
              | inl q ↦ inl (rw (run, e, f, g, p) q)
              | inr q ↦ inr (cfg, g, q.0, q.1)
            ]
          ]
        ]
      ]
    ]
