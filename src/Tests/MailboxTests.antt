-- ===== src/Tests/MailboxTests.antt =====
-- The copy of a mailbox, at concrete servers.
use go_boxcopy.Base.{
  ℕ, ◌≡◌, refl, Bool, true, false, ◌||◌, List, [], ◌∷◌, some, contains, string_eq, nat_eq,
}
use go_boxcopy.Base.Assoc.{lookup, insert}
use go_boxcopy.Base.Sort.{sort_by, insert_by}
use go_boxcopy.Base.Errors.{ok, external}
use go_boxcopy.Base.Exec.{handle}
use go_boxcopy.State.Data.{new}
use go_boxcopy.State.UidSet.{add}
use go_boxcopy.State.Ops.{
  write_folder, get_or_create_mailbox, get_or_create_folder, set_uid_validity, mark, mark_synced,
  set_uid_mapping, update_last_sync, update_mailbox_last_sync,
}
use go_boxcopy.State.Reads.{find_folder, is_synced, unsynced, get_unsynced_uids, get_target_uid}
use go_boxcopy.State.View.{mailbox_at}
use go_boxcopy.State.Valid.{IsValid}
use go_boxcopy.Imap.Message.{
  default_fetch_options, full_fetch_options, build_fetch_opts, has_attribute, has_flag,
  is_no_select, is_deleted, convert_flags, client_settable_flags, server_set_flags,
}
use go_boxcopy.Imap.Fetch.{parse_item, parse_items, parse_fetch_message, parse_all, drain_fetch_cmd}
use go_boxcopy.Imap.Client.{dial, command, run, close, select}
use go_boxcopy.Imap.Folders.{
  to_folder, to_folders, found, list_folders, create_folder, folder_exists, ensure_folder,
}
use go_boxcopy.Imap.Messages.{fetch, fetch_by_uid, fetch_all, append, appended_uid}
use go_boxcopy.Mailbox.Message.{record_copy, append_message, admitted, copy_message}
use go_boxcopy.Mailbox.Pipeline.{
  check, copy_one, fetch_batch, fetch_step, copy_step, run_schedule, copy_messages, copy_batch,
  copy_batches, fetch_rest, finish, run_pipeline,
}
use go_boxcopy.Mailbox.Folder.{
  by_name, folder_error, create_missing, copy_folders, sync_folder, copy_unsynced, copy_listed,
  copy_selected, copy_folder,
}
use go_boxcopy.Mailbox.Box.{
  dial_source, dial_target, close_client, connect_target, connect_anew, connect, close_if,
  disconnect, with_session, list_source, copy_loop, conclude, copy_connected, then_disconnect, copy,
}
use go_boxcopy.Mailbox.Data.{Sys, update_box, add_skipped}
use go_boxcopy.Mailbox.Copies.{Copies}
use go_boxcopy.Mailbox.BoxCopies.{copy-Copies}
use go_boxcopy.Mailbox.Effects.{mailbox_at-copy, copy-IsValid}
use go_boxcopy.Mailbox.Targets.{HasTargets, copy-HasTargets}
use go_boxcopy.Mailbox.Repeat.{copy_message_done, copy_message-copy_message}
use go_boxcopy.Mailbox.Settled.{copy_connected_failed, IsSettled, copy-IsSettled}
use go_boxcopy.Mailbox.Cancelled.{copy_unsynced_cancelled}
use go_boxcopy.Mailbox.Schedule.{fetch_rest_enough}
use go_boxcopy.Mailbox.Completion.{Leads, Ends, finish-Leads}
use go_boxcopy.Imap.Fetch.{last_uid}
use go_boxcopy.Mailbox.Answered.{last_flags}
use go_boxcopy.Mailbox.Lossless.{copy_listed_lossless}
use go_boxcopy.Base.{arith, none, inl}
use go_boxcopy.Mailbox.Data.{idle}
use go_boxcopy.Base.Errors.{Error, err, wrapf}
use go_boxcopy.Mailbox.Pipeline.{Batch, Copier, Pipe}
use go_boxcopy.Tests.Samples.{
  lost_servers, idle_box, client, servers, done_servers, job, before, session, message,
  synced_state,
}
use go_boxcopy.Tests.StateTests.{synced_state-IsValid}

unfoldable pub program : Unit {0}
unfolding dial_source dial_target close_client connect_target connect_anew connect close_if
    disconnect with_session list_source copy_loop conclude copy_connected then_disconnect copy
    by_name folder_error create_missing copy_folders sync_folder copy_unsynced copy_listed
    copy_selected copy_folder check copy_one fetch_batch fetch_step copy_step run_schedule
    copy_messages copy_batch copy_batches fetch_rest finish run_pipeline record_copy append_message
    admitted copy_message fetch fetch_by_uid fetch_all append appended_uid to_folder to_folders
    found list_folders create_folder folder_exists ensure_folder dial command run close select
    parse_item parse_items parse_fetch_message parse_all drain_fetch_cmd has_attribute has_flag
    is_no_select is_deleted convert_flags client_settable_flags server_set_flags find_folder
    is_synced unsynced get_unsynced_uids get_target_uid write_folder get_or_create_mailbox
    get_or_create_folder set_uid_validity mark mark_synced set_uid_mapping update_last_sync
    update_mailbox_last_sync add lookup insert sort_by insert_by handle contains
    default_fetch_options full_fetch_options build_fetch_opts
program = tt

abbrev plan : ℕ → List Bool
plan n = true ∷ true ∷ false ∷ []

-- The message with UID 8 is copied, and its target UID recorded.
copy_run :
    ((copy servers job plan before).0 ≡ ok tt)
    × (is_synced (copy servers job plan before).1.state "alice" "INBOX" 8 ≡ true)
    × (get_target_uid (copy servers job plan before).1.state "alice" "INBOX" 8 ≡ some 80)
unfolding program
copy_run = (refl, refl, refl)

copy-Copies_example : Copies "alice" synced_state (copy servers job plan before).1.state
copy-Copies_example = copy-Copies servers job plan before

mailbox_at-copy_example :
    mailbox_at (copy servers job plan before).1.state "bob" ≡ mailbox_at synced_state "bob"
mailbox_at-copy_example = mailbox_at-copy servers job plan before "bob" refl

copy-IsValid_example : IsValid (copy servers job plan before).1.state
copy-IsValid_example = copy-IsValid servers job plan before synced_state-IsValid

abbrev first : Sys ℕ ℕ
first = record before { state = new "/var/state.json" }

first-HasTargets : HasTargets first.state "alice"
unfolding program new
first-HasTargets f uid h = cc

copy-HasTargets_example : HasTargets (copy servers job plan first).1.state "alice"
copy-HasTargets_example = copy-HasTargets servers job plan first first-HasTargets

copied : (copy_message servers job "INBOX" message session).0 ≡ ok tt
unfolding program
copied = refl

copy_message_done_example :
    (is_synced (copy_message servers job "INBOX" message session).1.state "alice" "INBOX" 8
      || is_deleted message)
    ≡ true
copy_message_done_example = copy_message_done servers job "INBOX" message session copied

copy_message-copy_message_example :
    copy_message servers job "INBOX" message (copy_message servers job "INBOX" message session).1
    ≡ update_box servers (add_skipped 1) (copy_message servers job "INBOX" message session).1
copy_message-copy_message_example =
    copy_message-copy_message servers job "INBOX" message session copied

copy-IsSettled_example : IsSettled servers job (copy servers job plan before).1.box
copy-IsSettled_example = copy-IsSettled servers job plan before refl refl

copy_unsynced_cancelled_example :
    ((copy_unsynced done_servers job (true ∷ []) "INBOX" (8 ∷ []) session).0 ≡ ok tt)
    × ((now : ℕ) × ((copy_unsynced done_servers job (true ∷ []) "INBOX" (8 ∷ []) session).1.state
          ≡ update_last_sync synced_state "alice" "INBOX" now))
copy_unsynced_cancelled_example =
    copy_unsynced_cancelled done_servers job (true ∷ []) "INBOX" (8 ∷ []) session
      (λ w. (external "context canceled", refl))

abbrev copier : Copier ℕ ℕ
copier = record { session = session; copy_err = none; msg_fail_count = 0 }

abbrev batches : List Batch
batches = ok (message ∷ []) ∷ ok [] ∷ []

abbrev pipe : Pipe ℕ ℕ
pipe = record {
  todo = 9 ∷ [];
  closed = false;
  pending = none;
  channel = batches;
  current = [];
  copier = copier;
}

finish-Leads_example :
    Leads servers job "INBOX" (Ends servers job "INBOX" (finish servers job "INBOX" pipe)) pipe
finish-Leads_example = finish-Leads servers job "INBOX" pipe

fetch_rest_enough_example :
    fetch_rest servers job "INBOX" 4 (8 ∷ 9 ∷ []) copier
    ≡ fetch_rest servers job "INBOX" 2 (8 ∷ 9 ∷ []) copier
fetch_rest_enough_example =
    fetch_rest_enough servers job "INBOX" 4 (8 ∷ 9 ∷ []) copier (omega arith)

abbrev connected : Sys ℕ ℕ
connected = record before {
  box = record idle_box {
    source_client = some (client "source" 0);
    target_client = some (client "target" 1);
  };
}

abbrev list_error : Error
list_error =
    wrapf "failed to list source folders: %w" []
      (wrapf "failed to list folders: %w" [] (external "connection lost"))

list_fails : (copy_connected lost_servers job plan connected).0 ≡ err list_error
unfolding program
list_fails = refl

closes : (disconnect lost_servers job (copy_connected lost_servers job plan connected).1).0 ≡ ok tt
unfolding program
closes = refl

copy_connected_failed_example :
    ((then_disconnect lost_servers job (copy_connected lost_servers job plan) connected).0
      ≡ err list_error)
    × ((then_disconnect lost_servers job
          (copy_connected lost_servers job plan)
          connected).1.box.status
        ≡ idle)
copy_connected_failed_example =
    copy_connected_failed lost_servers job plan connected list_error list_fails closes

-- The listing's one message is not synced yet; the fetcher goes first.
copy_listed_lossless_example :
    (is_synced
        (copy_listed servers job (true ∷ true ∷ false ∷ []) "INBOX" (message ∷ []) session).1.state
        "alice"
        "INBOX"
        8
      || false)
    ≡ true
unfolding program last_uid last_flags
copy_listed_lossless_example =
    copy_listed_lossless 8 false servers job "INBOX" (λ w. refl)
      (λ conn uids w i c. inl (refl, λ k. absurd (ground (arith, k)))) (true ∷ true ∷ false ∷ [])
      (message ∷ []) session refl refl
