-- ===== src/Tests/CommandTests.antt =====
-- The commands, at small servers and an empty file system.
use go_boxcopy.Base.{ℕ, ◌≡◌, refl, true, List, [], ◌∷◌, ◌⊎◌, none, some, string_eq, nat_eq}
use go_boxcopy.Base.Assoc.{lookup}
use go_boxcopy.Base.Errors.{external, ok, err}
use go_boxcopy.Verifier.Compare.{MailboxResult, verify_mailbox}
use go_boxcopy.Verifier.Verify.{verify_mailboxes, verify_all, verify}
use go_boxcopy.Verifier.ReadOnly.{Writes, with_writes, verify_same}
use go_boxcopy.Command.Data.{VerifyFlags, InitFlags, parsed, FlagSets, InitFaults, Files}
use go_boxcopy.Store.Ops.{plain, garbage}
use go_boxcopy.Command.Main.{initialisation}
use go_boxcopy.Runner.Data.{Machine}
use go_boxcopy.Command.Init.{
  expand_home, config_template, is_found, write_file, write_failed, cmd_init,
}
use go_boxcopy.Command.Report.{
  format_bytes, lines_of, folder_lines, report_mailbox, report_mailboxes, print_verify_report,
  AllPassed,
}
use go_boxcopy.Command.Main.{
  command_of, cmd_encrypt_password, code_of, cmd_copy, cmd_verify, dispatch, main,
}
use go_boxcopy.Command.Effects.{file_at, Left, cmd_init-Left}
use go_boxcopy.Command.Safety.{cmd_verify_passed, MayChange, main_disk}
use go_boxcopy.Tests.ConfigSamples.{plain_cipher, host}
use go_boxcopy.Tests.ConfigTests.{random}
use go_boxcopy.Tests.VerifierTests.{program as verifier_program}
use go_boxcopy.Tests.RunnerTests.{program as runner_program, two_folders, env, machine, options}

program : Unit {0}
unfolding runner_program verifier_program verify_mailboxes verify_all verify expand_home
    config_template is_found write_file write_failed cmd_init format_bytes lines_of folder_lines
    report_mailbox report_mailboxes print_verify_report command_of cmd_encrypt_password code_of
    cmd_copy cmd_verify dispatch main verify_mailbox
program = tt

abbrev no_init_faults : InitFaults
no_init_faults = record {
  stat_error = none;
  mkdir_error = none;
  write_error = none;
  written = none;
}

abbrev forced : InitFlags
forced = record { output = "~/config.toml"; force = true }

-- The file is there, with the mode 0644.
abbrev readable : Files
readable = record {
  disk = ("/home/alice/config.toml", plain "") ∷ [];
  modes = ("/home/alice/config.toml", 420) ∷ [];
}

init_forced : (cmd_init host no_init_faults forced readable).0 ≡ ok tt
unfolding program
init_forced = refl

-- It keeps its mode.
init_keeps_mode :
    file_at "/home/alice/config.toml" (cmd_init host no_init_faults forced readable).1
    ≡ (some (plain config_template), some 420)
unfolding program
init_keeps_mode = refl

-- A disk that is full cuts the file that was there.
abbrev full_disk : InitFaults
full_disk = record no_init_faults {
  write_error = some (external "no space left on device");
  written = some garbage;
}

cmd_init-Left_example :
    Left host full_disk forced readable
      (cmd_init host full_disk forced readable).0
      (cmd_init host full_disk forced readable).1
      "/home/alice/config.toml"
cmd_init-Left_example = cmd_init-Left host full_disk forced readable "/home/alice/config.toml"

abbrev verify_flags : VerifyFlags
verify_flags = record { config = "config.toml"; key = "key" }

passes : (cmd_verify two_folders env host plain_cipher options.input verify_flags 100).0 ≡ ok 0
unfolding program
passes = refl

cmd_verify_passed_example :
    (results : List MailboxResult) × ((verify two_folders host plain_cipher
        (record { config_path = expand_home host "config.toml"; encryption_key = "key" })
        100).0
      ≡ ok results)
    × AllPassed results
cmd_verify_passed_example =
    cmd_verify_passed two_folders env host plain_cipher options.input verify_flags 100 passes

abbrev sets : FlagSets
sets = record {
  copy_flags = λ args. parsed (record { config = "config.toml"; key = "key"; perform = true });
  verify_flags = λ args. parsed verify_flags;
  encrypt_key = λ args. parsed "key";
  init_flags = λ args. parsed forced;
}

abbrev computer : Machine ℕ
computer = record machine { disk = readable.disk }

main_disk_example :
    (lookup "/home/alice/config.toml"
        (main two_folders env host plain_cipher options.input sets random no_init_faults
          readable.modes
          ("init" ∷ [])
          computer).1.disk
      ≡ some (plain ""))
    ⊎ MayChange two_folders env host plain_cipher options.input sets random no_init_faults
        readable.modes initialisation [] readable.disk "/home/alice/config.toml"
unfolding program
main_disk_example =
    main_disk two_folders env host plain_cipher options.input sets random no_init_faults
      readable.modes "init" [] computer "/home/alice/config.toml"

-- The exit code of a verification of two equal servers.
main_verifies :
    (main two_folders env host plain_cipher options.input sets random no_init_faults readable.modes
      ("verify" ∷ [])
      computer).0
    ≡ 0
unfolding program
main_verifies = refl

-- Servers that refuse every change.
abbrev refused : Writes ℕ ℕ
refused = record {
  select_to_write = λ conn name w. (err (external "refused"), w);
  create = λ conn name w. (some (external "refused"), w);
  delete = λ conn name w. (some (external "refused"), w);
  rename = λ conn old name w. (some (external "refused"), w);
  append_write = λ conn name flags time body w. (some (external "refused"), w);
  append_close = λ conn w. (some (external "refused"), w);
  append_wait = λ conn w. (err (external "refused"), w);
  store = λ conn range op flags w. (some (external "refused"), w);
  expunge = λ conn w. (some (external "refused"), w);
  copy = λ conn range name w. (some (external "refused"), w);
  move = λ conn range name w. (some (external "refused"), w);
}

verify_same_example :
    verify
      (with_writes two_folders refused)
      host
      plain_cipher
      (record { config_path = "config.toml"; encryption_key = "key" })
      100
    ≡ verify two_folders host plain_cipher
        (record { config_path = "config.toml"; encryption_key = "key" })
        100
verify_same_example =
    verify_same two_folders refused host plain_cipher
      (record { config_path = "config.toml"; encryption_key = "key" }) 100
