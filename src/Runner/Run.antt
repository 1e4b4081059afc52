-- ===== src/Runner/Run.antt =====
-- internal/runner/runner.go: `Run`, `dryRun`, `performCopy` and `confirmCopy`.
use go_boxcopy.Base.{
  ℕ, String, true, false, not, List, [], ◌∷◌, Option, none, some, get_or, ltb, ◌==◌, nat_eq,
  string_eq, if◌then◌else◌,
}
use go_boxcopy.Base.Int.{ℤ, pos, is_less_than_one}
use go_boxcopy.Base.Errors.{int, num, errorf, wrapf, nil_dereference, Result, ok, err}
use go_boxcopy.Base.Exec.{Exec, pure, raise, lift, ◌>>=◌, ◌>>◌}
use go_boxcopy.Base.Text.{trim_space}
use go_boxcopy.Config.Data.{MailboxConfig, Config}
use go_boxcopy.Config.Host.{Host}
use go_boxcopy.Config.Crypt.{Cipher}
use go_boxcopy.Config.Configured.{configured}
use go_boxcopy.State.Data.{State}
use go_boxcopy.State.Ops.{clear_mailbox}
use go_boxcopy.Store.Ops.{Faults, loaded, failed, panicked, load, save, final}
use go_boxcopy.Imap.Api.{Api}
use go_boxcopy.Mailbox.Data.{Job, new_mailbox, relabeled}
use go_boxcopy.Mailbox.Box.{copy}
use go_boxcopy.Runner.Data.{Line, Options, Surroundings, Machine}
use go_boxcopy.Runner.Queue.{run_queue}
use go_boxcopy.Runner.Clean.{clean_targets}

unfoldable pub confirm_copy : Line → Result (Unit {0})
confirm_copy line = elim line.failure [
  | some e ↦ err (wrapf "failed to read confirmation: %w" [] e)
  | none ↦ if trim_space line.text == "YES" then ok tt else err (errorf "copy cancelled" [])
]

-- The loop that clears the state of the mailboxes.
unfoldable pub clear_mailboxes : State → List MailboxConfig → State
clear_mailboxes s [] = s
clear_mailboxes s (mb ∷ mbs) = clear_mailboxes (clear_mailbox s mb.name) mbs

-- 24 * time.Hour where the option is not positive
unfoldable pub copy_timeout : ℤ → ℤ
copy_timeout d = if is_less_than_one d then pos 86400000000000 else d

abbrev pub empty_options : Options
empty_options = record {
  config_path = "";
  encryption_key = "";
  perform = false;
  max_copy_duration = pos 0;
  input = record { text = ""; ended = true; failure = none };
}

-- What the tasks of a copy share.
pub record Shared (World : Type 0) : Type 0 where
  pub state : State
  pub world : World

module _ (api : Api) (env : Surroundings api.World) where
  open api use {World, Conn}

  -- The task of a mailbox.
  unfoldable pub copy_mailbox : Config → MailboxConfig → Exec (Shared World) (Unit {0})
  unfolding new_mailbox copy
  copy_mailbox cfg mb s =
      let job : Job = record {
        config = mb;
        source_server = cfg.source;
        target_server = cfg.target;
        throttled = true;
      } in
      let (r, t) =
        copy api job (env.plan mb)
          (record { box = new_mailbox; state = s.state; world = s.world }) in
      (r, record { state = t.state; world = t.world })

  -- state.Load
  unfoldable pub load_state : String → Exec (Machine World) State
  unfolding load
  load_state path m =
      let (l, disk) = load path env.load_faults m.disk in
      (
        elim l [ loaded s ↦ ok s | failed e ↦ err e | panicked ↦ err nil_dereference ],
        record m { disk = disk },
      )

  -- Save, with the state that it leaves.
  unfoldable pub save_state : Faults → State → Exec (Machine World) State
  unfolding save final
  save_state faults s m =
      let (now, w) = api.now m.world in
      let saved = save s now faults m.disk in
      (
        elim saved.result [ err e ↦ err e | ok _ ↦ ok saved.state ],
        record { disk = final m.disk saved; world = w },
      )

  -- The tasks of all mailboxes, up to the end of the wait.
  unfoldable pub copy_queue : Config → ℤ → Exec (Shared World) ℕ
  unfolding copy_mailbox run_queue copy_timeout
  copy_queue cfg duration =
      let timeout = copy_timeout duration in
      run_queue env.copiers (λ t. t.world) (λ t w. record t { world = w }) (copy_mailbox cfg)
        "failed to enqueue mailbox %s: %w" (wrapf "copy timed out after %v: %w" (int timeout ∷ []))
        timeout cfg.mailboxes

  -- What follows the wait, with the number of the mailboxes that failed.
  unfoldable pub save_copied : ℕ → State → Exec (Machine World) (Unit {0})
  unfolding save_state
  save_copied errs s = do
    relabeled "failed to save state: %w" [] (save_state env.save_faults s)
    if ltb 0 errs then raise (errorf "%d mailbox(es) failed to copy" (num errs ∷ [])) else pure tt

  -- From the new pool to the deferred stop.
  unfoldable pub copy_all : Config → ℤ → State → Exec (Machine World) (Unit {0})
  unfolding copy_queue save_copied
  copy_all cfg duration s m =
      let (r, shared) = copy_queue cfg duration (record { state = s; world = m.world }) in
      let m1 = record m { world = shared.world } in
      elim r [ err e ↦ (err e, m1) | ok errs ↦ save_copied errs shared.state m1 ]

  -- From the cleared state on.
  unfoldable pub copy_with_pool : Config → ℤ → State → Exec (Machine World) (Unit {0})
  unfolding copy_all
  copy_with_pool cfg duration s m =
      let (refused, w1) = env.copiers.new_worker_pool cfg.copy_param.max_connections m.world in
      elim refused [
        | some e ↦ (err (wrapf "failed to create worker pool: %w" [] e), record m { world = w1 })
        | none ↦
            let (r, m2) = copy_all cfg duration s (record m { world = w1 }) in
            let (o, w3) = env.copiers.stop m2.world in
            (
              elim r [
                | err e ↦ err e
                | ok _ ↦ elim o [
                  | some e ↦ err (wrapf "failed to stop worker pool: %w" [] e)
                  | none ↦ ok tt
                ]
              ],
              record m2 { world = w3 },
            )
      ]

  -- clean_targets on the machine.
  unfoldable pub clean : Config → Exec (Machine World) (Unit {0})
  unfolding clean_targets
  clean cfg m =
      let (r, w) = clean_targets api env.cleaners cfg m.world in (r, record m { world = w })

  -- From the confirmation on.
  unfoldable pub perform_confirmed : Config → ℤ → Exec (Machine World) (Unit {0})
  unfolding clear_mailboxes
  perform_confirmed cfg duration = do
    relabeled "target cleanup failed: %w" [] (clean cfg)
    s ← relabeled "failed to load state: %w" [] (load_state cfg.general.state_file)
    t ←
        relabeled "failed to save cleared state: %w" []
          (save_state env.clear_faults (clear_mailboxes s cfg.mailboxes))
    copy_with_pool cfg duration t

  unfoldable pub perform_copy : Config → Options → Exec (Machine World) (Unit {0})
  unfolding confirm_copy
  perform_copy cfg opts = do
    lift (confirm_copy opts.input)
    perform_confirmed cfg opts.max_copy_duration

  -- Only log lines.
  unfoldable pub dry_run : Config → Exec (Machine World) (Unit {0})
  dry_run cfg = pure tt

  -- From the options on.
  unfoldable pub run_options : Host → Cipher → Options → Exec (Machine World) (Unit {0})
  run_options h c opts =
      if opts.config_path == ""
      then raise (errorf "config path is required" [])
      else if opts.encryption_key == ""
      then raise (errorf "encryption key is required (-k flag)" [])
      else (do
        cfg ← lift (configured h c opts.config_path opts.encryption_key)
        if not opts.perform then dry_run cfg else perform_copy cfg opts)

  unfoldable pub run : Host → Cipher → Option Options → Exec (Machine World) (Unit {0})
  unfolding run_options
  run h c options = run_options h c (get_or options empty_options)
