-- ===== src/Config/Load.antt =====
-- internal/config/config.go: `Load` and what it calls.
use go_boxcopy.Base.{
  ℕ, ◌+◌, String, true, not, List, [], ◌∷◌, none, some, get_or, length, ◌==◌, nat_eq, string_eq,
  if◌then◌else◌,
}
use go_boxcopy.Base.Int.{pos}
use go_boxcopy.Base.Errors.{errorf, str, num, Result, ok, err, relabel, ◌>>=◌}
use go_boxcopy.Base.Text.{has_prefix, drop_text}
use go_boxcopy.Config.Data.{GeneralConfig, CopyParameters, ServerConfig, MailboxConfig, Config}
use go_boxcopy.Config.Host.{Section, Document, Host}

-- 0600
abbrev pub required_file_mode : ℕ
required_file_mode = 384

unfoldable pub default_state_file : String
default_state_file = "~/.boxcopy/state.dat"

unfoldable pub default_copy_parameters : CopyParameters
default_copy_parameters = record { messages_per_second = pos 10; max_connections = pos 5 }

unfoldable pub load_copy_parameters : Document → CopyParameters
load_copy_parameters doc = elim (doc.section "copy_parameters") [
  | none ↦ default_copy_parameters
  | some section ↦ record {
    messages_per_second = get_or (section.get_int "messages_per_second") (pos 10);
    max_connections = get_or (section.get_int "max_connections") (pos 5);
  }
]

unfoldable pub load_server_config : Document → String → Result ServerConfig
load_server_config doc name = elim (doc.section name) [
  | none ↦ err (errorf "missing required section [%s]" (str name ∷ []))
  | some section ↦ elim (section.get_string "host") [
    | none ↦ err (errorf "[%s] missing required field 'host'" (str name ∷ []))
    | some host ↦ ok (record {
      host = host;
      port = get_or (section.get_int "port") (pos 993);
      tls = get_or (section.get_bool "tls") true;
    })
  ]
]

-- A field that an entry of the mailbox array must have.
unfoldable pub required : Section → ℕ → String → Result String
required section i field = elim (section.get_string field) [
  | none ↦ err (errorf "[[mailbox]] entry %d: missing required field '%s'" (num i ∷ str field ∷ []))
  | some value ↦ ok value
]

-- The body of the loop over the entries.
unfoldable pub load_mailbox : ℕ → Section → Result MailboxConfig
load_mailbox i section = do
  name ← required section i "name"
  source_user ← required section i "source_user"
  source_password ← required section i "source_password"
  target_user ← required section i "target_user"
  target_password ← required section i "target_password"
  ok (record {
    name = name;
    source_user = source_user;
    source_password = source_password;
    target_user = target_user;
    target_password = target_password;
  })

-- The loop, from the entry of number `i` on.
unfoldable pub load_entries : ℕ → List Section → Result (List MailboxConfig)
load_entries i [] = ok []
load_entries i (section ∷ sections) = do
  mb ← load_mailbox i section
  mbs ← load_entries (i + 1) sections
  ok (mb ∷ mbs)

unfoldable pub load_mailbox_configs : Document → Result (List MailboxConfig)
load_mailbox_configs doc = elim (doc.table_array "mailbox") [
  | none ↦ err (errorf "missing required section [[mailbox]]" [])
  | some sections ↦
      if length sections == 0
      then err (errorf "at least one [[mailbox]] entry is required" [])
      else load_entries 0 sections
]

module _ (h : Host) where
  unfoldable pub expand_path : String → String
  expand_path path =
      if has_prefix path "~/"
      then elim h.home [ none ↦ path | some home ↦ h.join home (drop_text 2 path) ]
      else path

  unfoldable pub resolve_path : String → String → String
  unfolding expand_path
  resolve_path path cfg_dir =
      let path' = expand_path path in
      if h.is_abs path' then path' else if cfg_dir == "" then path' else h.join cfg_dir path'

  unfoldable pub default_general_config : GeneralConfig
  default_general_config = record {
    state_file = expand_path default_state_file;
    log_level = "info";
    progress = pos 10;
  }

  unfoldable pub load_general_config : Document → String → GeneralConfig
  load_general_config doc cfg_dir = elim (doc.section "general") [
    | none ↦ default_general_config
    | some section ↦ record {
      state_file =
          resolve_path (get_or (section.get_string "state_file") default_state_file) cfg_dir;
      log_level = get_or (section.get_string "log_level") "info";
      progress = get_or (section.get_int "progress") (pos 10);
    }
  ]

  unfoldable pub load_from_document : Document → String → Result Config
  load_from_document doc cfg_dir = do
    source ← load_server_config doc "source"
    target ← load_server_config doc "target"
    mailboxes ← load_mailbox_configs doc
    ok (record {
      general = load_general_config doc cfg_dir;
      copy_param = load_copy_parameters doc;
      source = source;
      target = target;
      mailboxes = mailboxes;
    })

  unfoldable pub load_string : String → Result Config
  load_string content = do
    doc ← relabel "failed to parse config: %w" [] (h.parse_string content)
    load_from_document doc ""

  unfoldable pub check_file_permissions : String → Result (Unit {0})
  check_file_permissions path = do
    mode ← relabel "failed to stat config file: %w" [] (h.stat path)
    if not (mode == required_file_mode)
        then err (
            errorf "config file %s has insecure permissions %04o, must be %04o"
              (str path ∷ num mode ∷ num required_file_mode ∷ []))
        else ok tt

  unfoldable pub load : String → Result Config
  load path = do
    _ ← check_file_permissions path
    abs_path ← relabel "failed to resolve config path: %w" [] (h.abs path)
    doc ← relabel "failed to parse config: %w" [] (h.parse abs_path)
    load_from_document doc (h.dir abs_path)
