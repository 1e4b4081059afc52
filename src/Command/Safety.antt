-- ===== src/Command/Safety.antt =====
-- cmd/boxcopy/main.go: which command can change the saved state, and what the exit code of a
-- verification says.
use go_boxcopy.Base.{
  ℕ, String, ◌≡◌, refl, true, false, List, ◌∷◌, some, ◌⊎◌, inl, inr, ◌==◌, string_eq, Bool-cases,
  ap,
}
use go_boxcopy.Base.Int.{pos}
use go_boxcopy.Base.Errors.{Result, Result-cases, ok}
use go_boxcopy.Config.Host.{Host}
use go_boxcopy.Config.Crypt.{Cipher}
use go_boxcopy.Imap.Api.{Api}
use go_boxcopy.Verifier.Compare.{MailboxResult}
use go_boxcopy.Verifier.Verify.{verify}
use go_boxcopy.Runner.Data.{Line, Options, Surroundings, Machine}
use go_boxcopy.Runner.Guarded.{IsConfirmed, run-IsAllowed}
use go_boxcopy.Command.Data.{
  CopyFlags, VerifyFlags, Parsed, parsed, exits, FlagSets, InitFlags, InitFaults, Files,
}
use go_boxcopy.Store.Ops.{Disk}
use go_boxcopy.Base.Assoc.{Assoc, lookup}
use go_boxcopy.Command.Effects.{cmd_init_disk}
use go_boxcopy.Command.Init.{expand_home, is_found}
use go_boxcopy.Command.Report.{print_verify_report, AllPassed, print_verify_report_passed}
use go_boxcopy.Command.Main.{
  Command, help, version, copy, verification, encryption, initialisation, unknown, command_of,
  cmd_copy, cmd_verify, dispatch, main,
}

Parsed-cases : {A : Type 0} (p : Parsed A) → ((a : A) × (p ≡ parsed a)) ⊎ ((n : ℕ) × (p ≡ exits n))
Parsed-cases (parsed a) = inl (a, refl)
Parsed-cases (exits n) = inr (n, refl)

module _ (api : Api) (env : Surroundings api.World) (h : Host) (c : Cipher) (stdin : Line) where
  open api use {World}

  cmd_copy-IsConfirmed :
      (flags : CopyFlags) (m : Machine World)
      → ((cmd_copy api env h c stdin flags m).1 ≡ m) ⊎ ((flags.perform ≡ true) × IsConfirmed stdin)
  unfolding cmd_copy
  cmd_copy-IsConfirmed flags m =
      let opts : Options = record {
        config_path = expand_home h flags.config;
        encryption_key = flags.key;
        perform = flags.perform;
        max_copy_duration = pos 0;
        input = stdin;
      } in
      elim (Bool-cases (flags.key == "")) [
        | inl e ↦ inl (rw (cmd_copy, e) refl)
        | inr e ↦ elim (run-IsAllowed api env h c m (some opts)) [
          | inl f ↦ inl (rw (cmd_copy, e) f)
          | inr f ↦ inr (f.0, f.1)
        ]
      ]

  -- A verification ends with the exit code 0 only when it returned results and every one of them
  -- passed: no error, no folder missing, and every common folder with the same count and size.
  pub cmd_verify_passed :
      (flags : VerifyFlags) (w : World)
      → (cmd_verify api env h c stdin flags w).0 ≡ ok 0
      → (results : List MailboxResult) × ((verify api h c
            (record { config_path = expand_home h flags.config; encryption_key = flags.key })
            w).0
          ≡ ok results)
        × AllPassed results
  unfolding cmd_verify
  cmd_verify_passed flags w e =
      let r =
        verify api h c
          (record { config_path = expand_home h flags.config; encryption_key = flags.key }) w in
      elim (Bool-cases (flags.key == "")) [
        | inl f ↦ absurd (cc (rw (cmd_verify, f) at e))
        | inr f ↦ elim (Result-cases r.0) [
          | inr (d, g) ↦ absurd (cc (rw (cmd_verify, f, g) at e))
          | inl (results, g) ↦ elim (Bool-cases (print_verify_report results).1) [
            | inr k ↦ absurd (cc (rw (cmd_verify, f, g, k) at e))
            | inl k ↦ (results, g, (print_verify_report_passed results).0 k)
          ]
        ]
      ]

  module _ (sets : FlagSets) (random : ℕ → Result (List c.Byte)) (faults : InitFaults)
      (modes : Assoc String ℕ) where
    -- A copy that is performed, with the answer YES.
    abbrev pub Performs : List String → Type 0
    Performs args =
        (flags : CopyFlags) × (sets.copy_flags args ≡ parsed flags)
        × (flags.perform ≡ true)
        × IsConfirmed stdin

    -- An `init` whose output is the file, which is not found or to be overwritten.
    abbrev pub Writes : List String → Disk → String → Type 0
    Writes args disk j =
        (flags : InitFlags) × (sets.init_flags args ≡ parsed flags)
        × (expand_home h flags.output ≡ j)
        × ((flags.force ≡ true)
            ⊎ (is_found faults j (record { disk = disk; modes = modes }) ≡ false))

    -- What a command line may be that changes the file.
    abbrev pub MayChange : Command → List String → Disk → String → Type 0
    MayChange cmd args disk j =
        ((cmd ≡ copy) × Performs args) ⊎ ((cmd ≡ initialisation) × Writes args disk j)

    abbrev Keeps : Command → List String → Machine World → String → Type 0
    Keeps cmd args m j =
        lookup j (dispatch api env h c stdin sets random faults modes cmd args m).1.disk
        ≡ lookup j m.disk

    dispatch_copy :
        (args : List String) (m : Machine World) (j : String) → Keeps copy args m j ⊎ Performs args
    unfolding dispatch
    dispatch_copy args m j = elim (Parsed-cases (sets.copy_flags args)) [
      | inr (n, e) ↦ inl (rw (dispatch, e) refl)
      | inl (flags, e) ↦ elim (cmd_copy-IsConfirmed flags m) [
        | inl f ↦ inl (rw (dispatch, e) (ap (λ n. lookup j n.disk) f))
        | inr f ↦ inr (flags, e, f.0, f.1)
      ]
    ]

    dispatch_verification :
        (args : List String) (m : Machine World) (j : String) → Keeps verification args m j
    unfolding dispatch
    dispatch_verification args m j = elim (Parsed-cases (sets.verify_flags args)) [
      | inr (n, e) ↦ rw (dispatch, e) refl
      | inl (flags, e) ↦ rw (dispatch, e) refl
    ]

    dispatch_encryption :
        (args : List String) (m : Machine World) (j : String) → Keeps encryption args m j
    unfolding dispatch
    dispatch_encryption args m j = elim (Parsed-cases (sets.encrypt_key args)) [
      | inr (n, e) ↦ rw (dispatch, e) refl
      | inl (key, e) ↦ rw (dispatch, e) refl
    ]

    dispatch_initialisation :
        (args : List String) (m : Machine World) (j : String)
        → Keeps initialisation args m j ⊎ Writes args m.disk j
    unfolding dispatch
    dispatch_initialisation args m j = elim (Parsed-cases (sets.init_flags args)) [
      | inr (n, e) ↦ inl (rw (dispatch, e) refl)
      | inl (flags, e) ↦
          let files : Files = record { disk = m.disk; modes = modes } in
          elim (cmd_init_disk h faults flags files j) [
            | inl f ↦ inl (rw (dispatch, e) f)
            | inr f ↦ inr (flags, e, f.0, f.1)
          ]
    ]

    dispatch_disk :
        (cmd : Command) (args : List String) (m : Machine World) (j : String)
        → Keeps cmd args m j ⊎ MayChange cmd args m.disk j
    unfolding dispatch
    dispatch_disk help args m j = inl refl
    dispatch_disk version args m j = inl refl
    dispatch_disk copy args m j = elim (dispatch_copy args m j) [
      | inl e ↦ inl e
      | inr e ↦ inr (inl (refl, e))
    ]
    dispatch_disk verification args m j = inl (dispatch_verification args m j)
    dispatch_disk encryption args m j = inl (dispatch_encryption args m j)
    dispatch_disk initialisation args m j = elim (dispatch_initialisation args m j) [
      | inl e ↦ inl e
      | inr e ↦ inr (inr (refl, e))
    ]
    dispatch_disk (unknown cmd) args m j = inl refl

    -- No command line changes a file, such as the state file, unless it is a copy with `--perform`
    -- whose question was answered with YES, or an `init` whose output is that very file, which is not
    -- found or is to be overwritten.
    pub main_disk :
        (cmd : String) (args : List String) (m : Machine World) (j : String)
        → (lookup j (main api env h c stdin sets random faults modes (cmd ∷ args) m).1.disk
            ≡ lookup j m.disk)
          ⊎ MayChange (command_of cmd) args m.disk j
    unfolding main
    main_disk cmd args m j = dispatch_disk (command_of cmd) args m j
