-- ===== src/Runner/Guarded.antt =====
-- internal/runner/runner.go: what stands between a run and a change, and what a run that reports
-- success has done.
use go_boxcopy.Base.{
  ◌≡◌, refl, true, none, get_or, ◌⊎◌, inl, inr, arith, ◌==◌, string_eq, nat_eq, Bool-cases, Option,
}
use go_boxcopy.Base.Errors.{Result-cases, ok}
use go_boxcopy.Base.Exec.{handle}
use go_boxcopy.Base.Text.{trim_space}
use go_boxcopy.Config.Data.{Config}
use go_boxcopy.Config.Host.{Host}
use go_boxcopy.Config.Crypt.{Cipher}
use go_boxcopy.Config.Configured.{configured}
use go_boxcopy.Store.Ops.{Disk}
use go_boxcopy.Imap.Api.{Api}
use go_boxcopy.Runner.Data.{Line, Options, Surroundings, Machine}
use go_boxcopy.Runner.Run.{run_options, confirm_copy, perform_copy, dry_run, empty_options, run}
use go_boxcopy.Runner.Cleaned.{AllCleaned}
use go_boxcopy.Runner.Performed.{IsDone}

-- The answer is YES, but for white space around it.
abbrev pub IsConfirmed : Line → Type 0
IsConfirmed line = (line.failure ≡ none) × (trim_space line.text ≡ "YES")

confirm_copy_ok : (line : Line) → confirm_copy line ≡ ok tt → IsConfirmed line
unfolding confirm_copy
confirm_copy_ok line h = ground (arith, string_eq.beq_iff (trim_space line.text) "YES")

module _ (api : Api) (env : Surroundings api.World) where
  open api use {World}

  module _ (cfg : Config) (opts : Options) (m : Machine World) where
    -- A copy that is not confirmed changes nothing.
    perform_copy_unconfirmed : ((perform_copy api env cfg opts m).1 ≡ m) ⊎ IsConfirmed opts.input
    unfolding perform_copy handle
    perform_copy_unconfirmed = elim (Result-cases (confirm_copy opts.input)) [
      | inr (d, f) ↦ inl (rw (perform_copy, f) refl)
      | inl (_, f) ↦ inr (confirm_copy_ok opts.input f)
    ]

  module _ (h : Host) (c : Cipher) (m : Machine World) where
    -- What a run needs to change anything.
    abbrev pub IsAllowed : Options → Type 0
    IsAllowed opts =
        (opts.perform ≡ true)
        × IsConfirmed opts.input
        × ((cfg : Config) × (configured h c opts.config_path opts.encryption_key ≡ ok cfg))

    -- What a run that is asked to perform and reports success has done: it was allowed to; it has
    -- cleaned every configured target mailbox, then loaded the state, cleared it and copied every
    -- configured mailbox, without an error; and it has saved the state that the copies have left.
    abbrev pub HasDone : Options → Disk → Type 0
    HasDone opts disk =
        IsConfirmed opts.input
        × ((cfg : Config) × (configured h c opts.config_path opts.encryption_key ≡ ok cfg)
            × (w : World) × AllCleaned api env cfg m.world w
            × IsDone api env cfg opts.max_copy_duration m.disk w disk)

    module _ (opts : Options) where
      -- A run changes nothing unless it is allowed to.
      run_options-IsAllowed : ((run_options api env h c opts m).1 ≡ m) ⊎ IsAllowed opts
      unfolding run_options handle dry_run perform_copy
      run_options-IsAllowed = elim (Bool-cases (opts.config_path == "")) [
        | inl e ↦ inl (rw (run_options, e) refl)
        | inr e ↦ elim (Bool-cases (opts.encryption_key == "")) [
          | inl f ↦ inl (rw (run_options, e, f) refl)
          | inr f ↦ elim (Result-cases (configured h c opts.config_path opts.encryption_key)) [
            | inr (d, g) ↦ inl (rw (run_options, e, f, g) refl)
            | inl (cfg, g) ↦ elim (Bool-cases opts.perform) [
              | inr p ↦ inl (rw (run_options, e, f, g, p) refl)
              | inl p ↦ elim (perform_copy_unconfirmed cfg opts m) [
                | inl q ↦ inl (rw (run_options, e, f, g, p) q)
                | inr q ↦ inr (p, q, (cfg, g))
              ]
            ]
          ]
        ]
      ]

    -- A run leaves the disk and the servers as they were, unless it is asked to perform, the answer
    -- is YES, and the configuration was loaded, is valid and its passwords were decrypted.
    pub run-IsAllowed :
        (options : Option Options)
        → ((run api env h c options m).1 ≡ m) ⊎ IsAllowed (get_or options empty_options)
    unfolding run
    run-IsAllowed options = run_options-IsAllowed (get_or options empty_options)
