-- ===== src/Command/Main.antt =====
-- cmd/boxcopy/main.go: `main` and the commands other than `init`.
use go_boxcopy.Base.{ℕ, String, ◌||◌, List, [], ◌∷◌, none, some, ◌==◌, string_eq, if◌then◌else◌}
use go_boxcopy.Base.Assoc.{Assoc}
use go_boxcopy.Base.Int.{pos}
use go_boxcopy.Base.Errors.{errorf, wrapf, external, Result, ok, err, relabel}
use go_boxcopy.Base.Text.{trim_space}
use go_boxcopy.Config.Host.{Host}
use go_boxcopy.Config.Crypt.{Cipher, encrypt_password}
use go_boxcopy.Imap.Api.{Api}
use go_boxcopy.Verifier.Verify.{verify}
use go_boxcopy.Runner.Data.{Line, Surroundings, Machine}
use go_boxcopy.Runner.Run.{run}
use go_boxcopy.Command.Data.{CopyFlags, VerifyFlags, Parsed, parsed, exits, FlagSets, InitFaults}
use go_boxcopy.Command.Init.{expand_home, cmd_init}
use go_boxcopy.Command.Report.{print_verify_report}

-- The commands, by the names that `main` gives them.
pub data Command : Type 0 where
  help version copy verification encryption initialisation : Command
  unknown : String → Command

unfoldable pub command_of : String → Command
command_of cmd =
    if cmd == "-h" || cmd == "--help" || cmd == "help"
    then help
    else if cmd == "-v" || cmd == "--version" || cmd == "version"
    then version
    else if cmd == "copy"
    then copy
    else if cmd == "verify"
    then verification
    else if cmd == "encrypt-password"
    then encryption
    else if cmd == "init"
    then initialisation
    else unknown cmd

-- The text that is printed is the result. Here the end of the input is an error too.
unfoldable pub cmd_encrypt_password :
    (c : Cipher) → (ℕ → Result (List c.Byte)) → Line → String → Result String
unfolding encrypt_password
cmd_encrypt_password c random line key =
    if key == ""
    then err (errorf "encryption key is required: use -k <key>" [])
    else elim line.failure [
      | some e ↦ err (wrapf "failed to read password: %w" [] e)
      | none ↦
          if line.ended
          then err (wrapf "failed to read password: %w" [] (external "EOF"))
          else let password = trim_space line.text in
            if password == ""
            then err (errorf "password is required" [])
            else relabel "encryption failed: %w" [] (encrypt_password c random password key)
    ]

-- The exit code of `main` after a command.
unfoldable pub code_of {ℓ} : {A : Type ℓ} → Result A → ℕ
code_of (ok _) = 0
code_of (err _) = 1

module _ (api : Api) (env : Surroundings api.World) (h : Host) (c : Cipher) (stdin : Line) where
  open api use {World}

  unfoldable pub cmd_copy : CopyFlags → Machine World → Result (Unit {0}) × Machine World
  cmd_copy flags m =
      if flags.key == ""
      then (err (errorf "encryption key is required: use -k <key>" []), m)
      else run api env h c
          (some (record {
            config_path = expand_home h flags.config;
            encryption_key = flags.key;
            perform = flags.perform;
            max_copy_duration = pos 0;
            input = stdin;
          }))
          m

  -- With the exit code that a report that did not pass ends the program with.
  unfoldable pub cmd_verify : VerifyFlags → World → Result ℕ × World
  cmd_verify flags w =
      if flags.key == ""
      then (err (errorf "encryption key is required: use -k <key>" []), w)
      else let (r, w') =
          verify api h c
            (record { config_path = expand_home h flags.config; encryption_key = flags.key }) w in
        (
          elim r [
            | err e ↦ err e
            | ok results ↦ ok (if (print_verify_report results).1 then 0 else 1)
          ],
          w',
        )

  -- The modes are those of the files when the program starts; it ends after one command.
  module _ (sets : FlagSets) (random : ℕ → Result (List c.Byte)) (faults : InitFaults)
      (modes : Assoc String ℕ) where
    -- A command's flags, and the command unless they end the program.
    abbrev when_parsed {ℓ} :
        {A : Type ℓ}
        → Parsed A
        → (A → Machine World → ℕ × Machine World)
        → Machine World
        → ℕ × Machine World
    when_parsed (parsed flags) f s = f flags s
    when_parsed (exits code) f s = (code, s)

    -- A command with its arguments, and the exit code of the program.
    unfoldable pub dispatch : Command → List String → Machine World → ℕ × Machine World
    unfolding cmd_copy cmd_verify cmd_encrypt_password cmd_init code_of
    dispatch help args s = (0, s)
    dispatch version args s = (0, s)
    dispatch copy args s =
        when_parsed (sets.copy_flags args)
          (λ flags t. let (r, n) = cmd_copy flags t in (code_of r, n)) s
    dispatch verification args s =
        when_parsed (sets.verify_flags args)
          (λ flags t.
            let (r, w) = cmd_verify flags t.world in
            (elim r [ err _ ↦ 1 | ok code ↦ code ], record t { world = w }))
          s
    dispatch encryption args s =
        when_parsed (sets.encrypt_key args)
          (λ key t. (code_of (cmd_encrypt_password c random stdin key), t)) s
    dispatch initialisation args s =
        when_parsed (sets.init_flags args)
          (λ flags t.
            let (r, files) = cmd_init h faults flags (record { disk = t.disk; modes = modes }) in
            (code_of r, record t { disk = files.disk }))
          s
    dispatch (unknown cmd) args s = (1, s)

    -- os.Args[1:], and the exit code.
    unfoldable pub main : List String → Machine World → ℕ × Machine World
    unfolding command_of dispatch
    main [] s = (1, s)
    main (cmd ∷ args) s = dispatch (command_of cmd) args s
