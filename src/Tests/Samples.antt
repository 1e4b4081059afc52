-- ===== src/Tests/Samples.antt =====
-- A sync state after some calls, a disk and two servers with one message between them.
use go_boxcopy.Base.{
  ℕ, suc, String, true, false, [], ◌∷◌, none, some, ◌==◌, nat_eq, string_eq, if◌then◌else◌,
}
use go_boxcopy.Base.Errors.{external, ok}
use go_boxcopy.Base.Int.{pos}
use go_boxcopy.State.Data.{FolderState, MailboxState, State}
use go_boxcopy.Store.Ops.{Faults, Disk, garbage}
use go_boxcopy.Config.Data.{ServerConfig}
use go_boxcopy.Imap.Api.{Api}
use go_boxcopy.Imap.Data.{Message, FetchData, item_uid, item_flags, item_body, Stream, ListData}
use go_boxcopy.Imap.Client.{Client}
use go_boxcopy.Mailbox.Data.{Job, Mailbox, idle, Session, Sys}

-- One mailbox with a folder in which 5 and 3 are synced.
abbrev pub inbox : FolderState
inbox = record {
  name = "INBOX";
  uid_validity = 7;
  uid_next = 0;
  last_sync = 40;
  synced_uids = 5 ∷ 3 ∷ [];
  highest_uid = 5;
  message_count = 0;
  uid_map = (3, 30) ∷ (5, 50) ∷ [];
}

abbrev pub alice : MailboxState
alice = record { name = "alice"; folders = ("INBOX", inbox) ∷ []; last_sync = 40; sync_count = 1 }

abbrev pub synced_state : State
synced_state = record { path = "/var/state.json"; mailboxes = ("alice", alice) ∷ []; dirty = true }

abbrev pub no_faults : Faults
no_faults = record {
  stuck = false;
  read_error = none;
  marshal_error = none;
  mkdir_error = none;
  write_error = none;
  written = none;
  rename_error = none;
}

-- The rename fails.
abbrev pub rename_fault : Faults
rename_fault = record no_faults { rename_error = some (external "disk full") }

abbrev pub old_disk : Disk
old_disk = ("/var/state.json", garbage) ∷ []

-- The source is connection 0; it lists one folder, with one message. The world is a clock.
abbrev pub answer : FetchData
answer = record {
  seq_num = 1;
  items = item_flags ("\\Seen" ∷ []) ∷ item_uid 8 ∷ item_body (ok (104 ∷ 105 ∷ [])) ∷ [];
}

abbrev pub listed : ℕ → Stream ListData
listed conn = record {
  entries =
      if conn == 0
      then record { mailbox = "INBOX"; delim = "/"; attrs = []; status = none } ∷ []
      else [];
  closing = none;
}

abbrev pub servers : Api
servers = record {
  World = ℕ;
  Conn = ℕ;
  dial = λ tls host port w. (ok (if host == "source" then 0 else 1), suc w);
  login = λ conn user password w. (none, suc w);
  logout = λ conn w. (none, suc w);
  close = λ conn w. (none, suc w);
  noop = λ conn w. (none, suc w);
  select = λ conn name read_only w.
      (ok (record { num_messages = 1; uid_validity = 7; uid_next = 9; flags = [] }), suc w);
  unselect = λ conn w. (none, suc w);
  list = λ conn pattern with_status w. (listed conn, suc w);
  create = λ conn name w. (none, suc w);
  delete = λ conn name w. (none, suc w);
  rename = λ conn old name w. (none, suc w);
  status = λ conn name w. (
    ok (record {
      mailbox = name;
      num_messages = none;
      num_unseen = none;
      uid_next = 0;
      uid_validity = 7;
    }),
    suc w,
  );
  fetch = λ conn range opts w. (record { entries = answer ∷ []; closing = none }, suc w);
  append_write = λ conn name flags time body w. (none, suc w);
  append_close = λ conn w. (none, suc w);
  append_wait = λ conn w. (ok (some 80), suc w);
  store = λ conn range op flags w. (none, suc w);
  expunge = λ conn w. (none, suc w);
  copy = λ conn range name w. (none, suc w);
  move = λ conn range name w. (none, suc w);
  uid_search = λ conn since w. (ok [], suc w);
  now = λ w. (w, suc w);
  ctx_err = λ w. (none, w);
  admit = λ w. (none, w);
}

abbrev pub done_servers : Api
done_servers = record servers { ctx_err = λ w. (some (external "context canceled"), w) }

abbrev pub lost_servers : Api
lost_servers = record servers {
  list = λ conn pattern with_status w.
      (record { entries = []; closing = some (external "connection lost") }, suc w);
}

abbrev pub server : String → ServerConfig
server host = record { host = host; port = pos 993; tls = true }

abbrev pub job : Job
job = record {
  config = record {
    name = "alice";
    source_user = "alice";
    source_password = "secret";
    target_user = "alice";
    target_password = "secret";
  };
  source_server = server "source";
  target_server = server "target";
  throttled = false;
}

abbrev pub idle_box : Mailbox ℕ
idle_box = record {
  source_client = none;
  target_client = none;
  status = idle;
  last_error = none;
  last_sync = 0;
  sync_count = 0;
  folders_created = 0;
  messages_copied = 0;
  messages_skipped = 0;
  bytes_copied = 0;
}

abbrev pub before : Sys ℕ ℕ
before = record { box = idle_box; state = synced_state; world = 100 }

abbrev pub client : String → ℕ → Client ℕ
client host conn = record {
  conn = some conn;
  server = server host;
  user = "alice";
  selected = "INBOX";
  done = true;
}

abbrev pub session : Session ℕ ℕ
session = record {
  box = idle_box;
  source = client "source" 0;
  target = client "target" 1;
  state = synced_state;
  world = 100;
}

abbrev pub message : Message
message = record {
  uid = 8;
  seq_num = 1;
  flags = "\\Seen" ∷ [];
  internal_date = 0;
  size = 0;
  envelope = none;
  body = 104 ∷ 105 ∷ [];
}
