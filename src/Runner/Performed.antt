-- ===== src/Runner/Performed.antt =====
-- internal/runner/runner.go: what a copy that reports success has done.
use go_boxcopy.Base.{
  ℕ, String, ◌≡◌, refl, true, false, List, [], ◌∷◌, some, inl, inr, arith, string_eq, nat_eq,
  Bool-cases, Option-cases, Memᴰ, ◌∙◌, subst, sym, ltb, ap,
}
use go_boxcopy.Base.Assoc.{lookup}
use go_boxcopy.Base.Int.{ℤ}
use go_boxcopy.Base.Errors.{int, wrapf, Result-cases, ok}
use go_boxcopy.Base.Exec.{handle}
use go_boxcopy.Config.Data.{MailboxConfig, Config}
use go_boxcopy.State.Data.{Time, State}
use go_boxcopy.State.View.{mailbox_at}
use go_boxcopy.Store.File.{marshal}
use go_boxcopy.Store.Ops.{Faults, Disk, document, loaded, load, save, final}
use go_boxcopy.Store.Loading.{Loaded-cases, load_path}
use go_boxcopy.Store.Atomic.{save-Promise}
use go_boxcopy.Imap.Api.{Api}
use go_boxcopy.Mailbox.Data.{Job, new_mailbox}
use go_boxcopy.Runner.Clean.{clean_targets}
use go_boxcopy.Mailbox.BoxCopies.{copy-Copies}
use go_boxcopy.Mailbox.Effects.{path-Copies}
use go_boxcopy.Mailbox.Targets.{HasTargets}
use go_boxcopy.Mailbox.Neighbours.{
  HasTargets-mailbox_at, HasTargets-Copies_any, HasTargets-empty_mailbox,
}
use go_boxcopy.Runner.Data.{Surroundings, Machine}
use go_boxcopy.Runner.QueueLaws.{RunsAll, Chain, Covers, run_queue-Keeps}
use go_boxcopy.Runner.Run.{
  Shared, clear_mailboxes, copy_mailbox, load_state, save_state, copy_timeout, copy_queue,
  save_copied, clean, perform_confirmed, copy_all, copy_with_pool,
}
use go_boxcopy.Runner.Cleared.{mailbox_at-clear_mailboxes, path-clear_mailboxes, contains-names}
use go_boxcopy.Runner.Copied.{CopiedBy, begin, copy_queue-Chain}

module _ (api : Api) (env : Surroundings api.World) (cfg : Config) where
  open api use {World, Conn}

  -- Each configured mailbox has a target UID for each UID that is synced.
  abbrev pub AllHaveTargets : State → Type 0
  AllHaveTargets s = (mb : MailboxConfig) → Memᴰ mb cfg.mailboxes → HasTargets s mb.name

  -- The state of a copy, in its file.
  abbrev IsSound : State → Type 0
  IsSound s = (s.path ≡ cfg.general.state_file) × AllHaveTargets s

  copy_mailbox-IsSound :
      (mb : MailboxConfig) (s : Shared World)
      → IsSound s.state
      → IsSound (copy_mailbox api env cfg mb s).1.state
  unfolding copy_mailbox
  copy_mailbox-IsSound mb s h =
      let job : Job = record {
        config = mb;
        source_server = cfg.source;
        target_server = cfg.target;
        throttled = true;
      } in
      let c =
        copy-Copies api job (env.plan mb)
          (record { box = new_mailbox; state = s.state; world = s.world }) in
      (path-Copies c ∙ h.0, λ mb' m. HasTargets-Copies_any _ _ mb'.name c (h.1 mb' m))

  clear_mailboxes-IsSound :
      (s : State) → s.path ≡ cfg.general.state_file → IsSound (clear_mailboxes s cfg.mailboxes)
  clear_mailboxes-IsSound s h = (
    path-clear_mailboxes s cfg.mailboxes ∙ h,
    λ mb m. HasTargets-empty_mailbox _ mb.name (
        ground (
          arith,
          mailbox_at-clear_mailboxes s cfg.mailboxes mb.name,
          contains-names cfg.mailboxes mb m,
        )),
  )

  -- The state file holds the state.
  abbrev pub Holds : Disk → State → Type 0
  Holds disk s =
      (now : Time) × (lookup cfg.general.state_file disk ≡ some (document (marshal s now)))

  save_state_ok :
      (faults : Faults) (s t : State) (m : Machine World)
      → IsSound s
      → (save_state api env faults s m).0 ≡ ok t
      → Holds (save_state api env faults s m).1.disk s
        × IsSound t
        × (t ≡ record s { dirty = false })
  unfolding save_state mailbox_at
  save_state_ok faults s t m h e =
      let now = (api.now m.world).0 in
      let saved = save s now faults m.disk in
      let clean : State = record s { dirty = false } in
      elim (Result-cases saved.result) [
        | inr (d, f) ↦ absurd (cc (rw (save_state, f) at e))
        | inl (_, f) ↦
            let promise = rw f at (save-Promise s now faults m.disk) in
            let same : t ≡ clean = cc (rw (save_state, f) at e, promise.2) in
            let kept : IsSound clean =
              (h.0, λ mb n. HasTargets-mailbox_at s clean mb.name refl (h.1 mb n)) in
            (
              (
                now,
                subst (λ p. lookup p (final m.disk saved) ≡ some (document (marshal s now))) h.0
                    promise.0,
              ),
              subst IsSound (sym same) kept,
              same,
            )
      ]

  load_state_ok :
      (path : String) (s : State) (m : Machine World)
      → (load_state api env path m).0 ≡ ok s
      → (load path env.load_faults m.disk).0 ≡ loaded s
  unfolding load_state
  load_state_ok path s m h = elim (Loaded-cases (load path env.load_faults m.disk).0) [
    | inl (t, e) ↦ cc (e, rw (load_state, e) at h)
    | inr (inl (d, e)) ↦ absurd (cc (rw (load_state, e) at h))
    | inr (inr e) ↦ absurd (cc (rw (load_state, e) at h))
  ]

  -- From a state and the world on, the mailboxes were copied one after the other, each configured
  -- one among them; the state file holds the state that the last one has left, in which they all
  -- have their target UIDs.
  abbrev pub AllCopied : ℤ → State → World → Disk → Type 0
  AllCopied duration s w disk =
      let w1 = (env.copiers.new_worker_pool cfg.copy_param.max_connections w).1 in
      (ran : List MailboxConfig) × (t : Shared World) × Covers ran cfg.mailboxes
      × Chain (CopiedBy api env cfg) ran
          (begin api env cfg duration (record { state = s; world = w1 })) t
      × Holds disk t.state
      × AllHaveTargets t.state

  -- The state that is loaded, without what it has of the configured mailboxes.
  abbrev pub cleared : State → State
  cleared s = record (clear_mailboxes s cfg.mailboxes) { dirty = false }

  -- What a copy that succeeds has done by its end, from the disk before and the world that the
  -- cleaning has left.
  abbrev pub IsDone : ℤ → Disk → World → Disk → Type 0
  IsDone duration before w disk =
      (s : State) × ((load cfg.general.state_file env.load_faults before).0 ≡ loaded s)
      × AllCopied duration (cleared s) (api.now w).1 disk

  copy_queue-IsSound :
      (duration : ℤ) (s : Shared World)
      → IsSound s.state
      → IsSound (copy_queue api env cfg duration s).1.state
  unfolding copy_queue
  copy_queue-IsSound duration =
      run_queue-Keeps env.copiers (λ t. t.world) (λ t w. record t { world = w })
        (copy_mailbox api env cfg) (λ t. IsSound t.state) (λ t w k. k) copy_mailbox-IsSound
        "failed to enqueue mailbox %s: %w"
        (wrapf "copy timed out after %v: %w" (int (copy_timeout duration) ∷ []))
        (copy_timeout duration) cfg.mailboxes

  save_copied_ok :
      (errs : ℕ) (s : State) (m : Machine World)
      → IsSound s
      → (save_copied api env errs s m).0 ≡ ok tt
      → (errs ≡ 0) × Holds (save_copied api env errs s m).1.disk s
  unfolding save_copied handle
  save_copied_ok errs s m h e = elim (Result-cases (save_state api env env.save_faults s m).0) [
    | inr (d, f) ↦ absurd (cc (rw (save_copied, f) at e))
    | inl (t, f) ↦ elim (Bool-cases (ltb 0 errs)) [
      | inl g ↦ absurd (cc (rw (save_copied, f, g) at e))
      | inr g ↦ rw (save_copied, f, g) (ground arith, (save_state_ok env.save_faults s t m h f).0)
    ]
  ]

  copy_all_ok :
      RunsAll env.copiers
      → (duration : ℤ) (s : State) (m : Machine World) → IsSound s
      → (copy_all api env cfg duration s m).0 ≡ ok tt
      → (ran : List MailboxConfig) × (t : Shared World) × Covers ran cfg.mailboxes
        × Chain
            (CopiedBy api env cfg)
            ran
            (begin api env cfg duration (record { state = s; world = m.world }))
            t
        × Holds (copy_all api env cfg duration s m).1.disk t.state
        × AllHaveTargets t.state
  unfolding copy_all
  copy_all_ok all duration s m h e =
      let start : Shared World = record { state = s; world = m.world } in
      let q = copy_queue api env cfg duration start in
      let sound = copy_queue-IsSound duration start h in
      let m1 : Machine World = record m { world = q.1.world } in
      elim (Result-cases q.0) [
        | inr (d, f) ↦ absurd (cc (rw (copy_all, f) at e))
        | inl (errs, f) ↦
            let saved = save_copied_ok errs q.1.state m1 sound (rw (copy_all, f) at e) in
            let chain =
              copy_queue-Chain api env cfg all duration start (f ∙ ap (λ n. ok n) saved.0) in
            rw (copy_all, f) (chain.0, q.1, chain.1, chain.2, saved.1, sound.1)
      ]

  copy_with_pool_ok :
      RunsAll env.copiers
      → (duration : ℤ) (s : State) (m : Machine World) → IsSound s
      → (copy_with_pool api env cfg duration s m).0 ≡ ok tt
      → AllCopied duration s m.world (copy_with_pool api env cfg duration s m).1.disk
  unfolding copy_with_pool
  copy_with_pool_ok all duration s m h e =
      let p = env.copiers.new_worker_pool cfg.copy_param.max_connections m.world in
      let m1 : Machine World = record m { world = p.1 } in
      elim (Option-cases p.0) [
        | inr (d, f) ↦ absurd (cc (rw (copy_with_pool, f) at e))
        | inl f ↦ elim (Result-cases (copy_all api env cfg duration s m1).0) [
          | inr (d, g) ↦ absurd (cc (rw (copy_with_pool, f, g) at e))
          | inl (_, g) ↦ rw (copy_with_pool, f) (copy_all_ok all duration s m1 h g)
        ]
      ]

  -- From the confirmation on.
  pub perform_confirmed_ok :
      RunsAll env.copiers
      → (duration : ℤ) (m : Machine World) → (perform_confirmed api env cfg duration m).0 ≡ ok tt
      → IsDone duration m.disk
          (clean_targets api env.cleaners cfg m.world).1
          (perform_confirmed api env cfg duration m).1.disk
  unfolding perform_confirmed handle clean load_state save_state
  perform_confirmed_ok all duration m e =
      let c = clean api env cfg m in
      elim (Result-cases c.0) [
        | inr (d, f) ↦ absurd (cc (rw (perform_confirmed, f) at e))
        | inl (_, f) ↦
            let l = load_state api env cfg.general.state_file c.1 in
            elim (Result-cases l.0) [
              | inr (d, g) ↦ absurd (cc (rw (perform_confirmed, f, g) at e))
              | inl (s, g) ↦
                  let s' = clear_mailboxes s cfg.mailboxes in
                  let k = load_state_ok _ s c.1 g in
                  let sound =
                    clear_mailboxes-IsSound s
                      (load_path cfg.general.state_file env.load_faults m.disk s k) in
                  let r = save_state api env env.clear_faults s' l.1 in
                  elim (Result-cases r.0) [
                    | inr (d, k) ↦ absurd (cc (rw (perform_confirmed, f, g, k) at e))
                    | inl (t, n) ↦
                        let saved = save_state_ok env.clear_faults s' t l.1 sound n in
                        rw (perform_confirmed, f, g, n)
                          (
                            s,
                            k,
                            subst
                                (λ u.
                                  AllCopied duration u r.1.world
                                    (copy_with_pool api env cfg duration t r.1).1.disk)
                                saved.2
                                (copy_with_pool_ok all duration t r.1 saved.1
                                  (rw (perform_confirmed, f, g, n) at e)),
                          )
                  ]
            ]
      ]
