-- ===== src/Command/Init.antt =====
-- cmd/boxcopy/main.go: `cmdInit` and `expandPath`.
use Prim.Native.String.{◌++◌ as append}
use go_boxcopy.Base.{
  ℕ, String, Bool, true, false, not, ◌&&◌, [], ◌∷◌, Option, none, some, ◌==◌, string_eq,
  if◌then◌else◌,
}
use go_boxcopy.Base.Assoc.{lookup, insert}
use go_boxcopy.Base.Errors.{str, errorf, wrapf, Result, ok, err}
use go_boxcopy.Base.Text.{has_prefix, drop_text}
use go_boxcopy.Config.Host.{Host}
use go_boxcopy.Store.Ops.{Content, plain}
use go_boxcopy.Config.Load.{required_file_mode}
use go_boxcopy.Command.Data.{InitFlags, InitFaults, Files}

unfoldable pub expand_home : Host → String → String
unfolding has_prefix drop_text
expand_home h path =
    if has_prefix path "~/"
    then elim h.home [ none ↦ path | some home ↦ append home (drop_text 1 path) ]
    else path

unfoldable pub config_template : String
config_template =
    "# BoxCopy Configuration\n#\n# SECURITY NOTES:\n# - This file must have mode 0600 (owner read/write only)\n# - All passwords MUST be encrypted using: boxcopy encrypt-password -k <key>\n# - The same key must be used for the copy command\n\n# General settings\n[general]\nstate_file = \"~/.boxcopy/state.dat\"\nlog_level = \"info\"   # debug, info, warn, error\nprogress = 10        # Log progress every N% (0 = disable, 10 = every 10%, 25 = every 25%)\n\n# Copy parameters\n[copy_parameters]\nmessages_per_second = 10  # Rate limit for message copy\nmax_connections = 5       # Max concurrent IMAP connections (one per mailbox)\n\n# Source IMAP server (copy FROM)\n[source]\nhost = \"imap.source.example.com\"\nport = 993\ntls = true\n\n# Target IMAP server (copy TO)\n[target]\nhost = \"imap.target.example.com\"\nport = 993\ntls = true\n\n# Mailbox configurations\n# Add one [[mailbox]] section per user to copy\n# Passwords MUST be encrypted: boxcopy encrypt-password -k <key>\n\n[[mailbox]]\nname = \"john.doe\"\nsource_user = \"john.doe@source.example.com\"\nsource_password = \"PASTE_ENCRYPTED_PASSWORD_HERE\"\ntarget_user = \"john.doe@target.example.com\"\ntarget_password = \"PASTE_ENCRYPTED_PASSWORD_HERE\"\n\n# [[mailbox]]\n# name = \"jane.doe\"\n# source_user = \"jane.doe@source.example.com\"\n# source_password = \"PASTE_ENCRYPTED_PASSWORD_HERE\"\n# target_user = \"jane.doe@target.example.com\"\n# target_password = \"PASTE_ENCRYPTED_PASSWORD_HERE\"\n"

-- os.Stat finds a file.
unfoldable pub is_found : InitFaults → String → Files → Bool
is_found faults path files = elim faults.stat_error [
  | some _ ↦ false
  | none ↦ elim (lookup path files.disk) [ none ↦ false | some _ ↦ true ]
]

-- os.WriteFile: the mode is for a new file; a file that is there keeps its own.
unfoldable pub write_file : String → Content → ℕ → Files → Files
write_file path content mode files = record {
  disk = insert path content files.disk;
  modes = elim (lookup path files.disk) [
    | none ↦ insert path mode files.modes
    | some _ ↦ files.modes
  ];
}

-- The same when it fails: the file may have been created or cut by then, and hold a part.
unfoldable pub write_failed : String → Option Content → ℕ → Files → Files
write_failed path none mode files = files
write_failed path (some part) mode files = write_file path part mode files

unfoldable pub cmd_init : Host → InitFaults → InitFlags → Files → Result (Unit {0}) × Files
unfolding expand_home is_found write_file write_failed config_template
cmd_init h faults flags files =
    let out_path = expand_home h flags.output in
    let dir = h.dir out_path in
    if is_found faults out_path files && not flags.force
    then (
      err (errorf "config file already exists: %s (use -f to overwrite)" (str out_path ∷ [])),
      files,
    )
    else elim (if not (dir == "") && not (dir == ".") then faults.mkdir_error else none) [
      | some e ↦ (err (wrapf "failed to create directory: %w" [] e), files)
      | none ↦ elim faults.write_error [
        | some e ↦ (
          err (wrapf "failed to write config: %w" [] e),
          write_failed out_path faults.written required_file_mode files,
        )
        | none ↦ (ok tt, write_file out_path (plain config_template) required_file_mode files)
      ]
    ]
