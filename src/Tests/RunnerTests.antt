-- ===== src/Tests/RunnerTests.antt =====
-- A run of the program, at two servers with two folders each.
use go_boxcopy.Base.{
  ℕ, suc, String, ◌≡◌, refl, true, false, List, [], ◌∷◌, ◌⊎◌, none, some, get_or, contains,
  string_eq, nat_eq, if◌then◌else◌,
}
use go_boxcopy.Base.Assoc.{lookup, insert}
use go_boxcopy.Base.Int.{pos}
use go_boxcopy.Base.Errors.{external, errorf, num, Error, ok, err}
use go_boxcopy.Base.Exec.{handle}
use go_boxcopy.Base.Sort.{insert_by, sort_by}
use go_boxcopy.Base.Text.{
  trim_left, trim_right, trim_space, is_space, equal_fold, fold_letter, same_codes,
}
use go_boxcopy.Base.TextOrder.{precedes}
use go_boxcopy.Config.Data.{Config}
use go_boxcopy.Config.Crypt.{
  decrypt_password, open_bytes, decrypt_mailbox, decrypt_mailboxes, decrypt_mailbox_passwords,
}
use go_boxcopy.Config.Configured.{configured}
use go_boxcopy.State.Data.{new, empty_mailbox}
use go_boxcopy.State.Ops.{clear_mailbox}
use go_boxcopy.State.View.{mailbox_at}
use go_boxcopy.Store.Disk.{remove, rename}
use go_boxcopy.Store.File.{
  marshal, marshal_mailbox, marshal_folder, marshal_uids, map_values, unmarshal, load_values,
}
use go_boxcopy.Store.Ops.{load_document, load_content, load, save_unlocked, save, final}
use go_boxcopy.Imap.Api.{Api}
use go_boxcopy.Imap.Data.{Folder, ListData}
use go_boxcopy.Imap.Client.{unselect}
use go_boxcopy.Imap.Folders.{delete_folder}
use go_boxcopy.Imap.Messages.{store_flags, add_message_flags, mark_deleted, expunge}
use go_boxcopy.Mailbox.Data.{new_mailbox}
use go_boxcopy.Runner.Data.{Pool, Options, Surroundings, Machine}
use go_boxcopy.Runner.Queue.{run_tasks, enqueue_all, run_queue}
use go_boxcopy.Runner.QueueLaws.{RunsAll}
use go_boxcopy.Runner.Clean.{
  uids_of, sort_descending, clean_selected, clean_folder, clean_folders, delete_folders,
  clean_connected, clean_target_mailbox, clean_targets,
}
use go_boxcopy.Runner.Run.{
  confirm_copy, clear_mailboxes, copy_timeout, empty_options, copy_mailbox, load_state, save_state,
  copy_queue, save_copied, copy_all, copy_with_pool, clean, perform_confirmed, perform_copy,
  dry_run, run_options, run,
}
use go_boxcopy.Runner.Deletions.{delete_each, IsDeletion, delete_folders-IsDeletion}
use go_boxcopy.Runner.Cleared.{names, mailbox_at-clear_mailboxes}
use go_boxcopy.Runner.Guarded.{IsAllowed, run-IsAllowed}
use go_boxcopy.Runner.Cleaned.{AllCleaned, run-AllCleaned}
use go_boxcopy.Tests.Samples.{servers, no_faults, synced_state}
use go_boxcopy.Tests.ConfigSamples.{plain_cipher, host, plain_alice, config}
use go_boxcopy.Tests.MailboxTests.{program as mailbox_program}
use go_boxcopy.Tests.ConfigTests.{program as config_program}

unfoldable pub program : Unit {0}
unfolding mailbox_program config_program handle insert_by sort_by trim_left trim_right trim_space
    is_space equal_fold fold_letter same_codes precedes decrypt_password open_bytes decrypt_mailbox
    decrypt_mailboxes decrypt_mailbox_passwords configured new clear_mailbox remove rename marshal
    marshal_mailbox marshal_folder marshal_uids map_values unmarshal load_values load_document
    load_content load save_unlocked save final unselect delete_folder store_flags add_message_flags
    mark_deleted expunge new_mailbox run_tasks enqueue_all run_queue uids_of sort_descending
    clean_selected clean_folder clean_folders delete_folders clean_connected clean_target_mailbox
    clean_targets confirm_copy clear_mailboxes copy_timeout copy_mailbox load_state save_state
    copy_queue save_copied copy_all copy_with_pool clean perform_confirmed perform_copy dry_run
    run_options run lookup insert
program = tt

-- A pool that runs its tasks in the order of the queue.
abbrev pub in_order : Pool ℕ
in_order = record {
  new_worker_pool = λ max w. (none, suc w);
  enqueue = λ mb w. (none, suc w);
  work = λ queue timeout w. ((queue, none), suc w);
  stop = λ w. (none, suc w);
}

in_order-RunsAll : RunsAll in_order
in_order-RunsAll queue timeout w h mb m = m

abbrev entry : String → ListData
entry name = record { mailbox = name; delim = "/"; attrs = []; status = none }

abbrev pub two_folders : Api
two_folders = record servers {
  list = λ conn pattern with_status w.
      (record { entries = entry "INBOX" ∷ entry "Sent" ∷ []; closing = none }, suc w);
}

abbrev pub env : Surroundings ℕ
env = record {
  cleaners = in_order;
  copiers = in_order;
  load_faults = no_faults;
  clear_faults = no_faults;
  save_faults = no_faults;
  plan = λ mb n. [];
}

abbrev pub machine : Machine ℕ
machine = record { disk = []; world = 100 }

abbrev pub options : Options
options = record {
  config_path = "config.toml";
  encryption_key = "key";
  perform = true;
  max_copy_duration = pos 0;
  input = record { text = " YES\n"; ended = false; failure = none };
}

abbrev declined : Options
declined = record options { input = record { text = "no\n"; ended = false; failure = none } }

run-IsAllowed_example :
    ((run two_folders env host plain_cipher (some declined) machine).1 ≡ machine)
    ⊎ IsAllowed two_folders env host plain_cipher machine (get_or (some declined) empty_options)
run-IsAllowed_example = run-IsAllowed two_folders env host plain_cipher machine (some declined)

no_change_without_yes : (run two_folders env host plain_cipher (some declined) machine).1 ≡ machine
unfolding program
no_change_without_yes = refl

-- The target servers list no folders.
abbrev lost : Api
lost = record servers {
  list = λ conn pattern with_status w.
      (record { entries = []; closing = some (external "connection lost") }, suc w);
}

abbrev plain_config : Config
plain_config = record config { mailboxes = plain_alice ∷ [] }

abbrev clean_error : Error
clean_error = errorf "%d mailbox(es) failed to clean" (num 1 ∷ [])

clean_fails : (clean_targets lost in_order plain_config 100).0 ≡ err clean_error
unfolding program
clean_fails = refl

-- The servers refuse, the cleaning fails, and the state file stays as it was.
clean_stops : (run lost env host plain_cipher (some options) machine).1.disk ≡ machine.disk
unfolding program
clean_stops = refl

run-AllCleaned_example :
    ((run lost env host plain_cipher (some options) machine).1.disk ≡ machine.disk)
    ⊎ ((cfg : Config) × (configured host plain_cipher "config.toml" "key" ≡ ok cfg)
        × (w : ℕ) × AllCleaned lost env cfg 100 w)
run-AllCleaned_example = run-AllCleaned lost env host plain_cipher machine options in_order-RunsAll

abbrev folder : String → Folder
folder name = record {
  name = name;
  delimiter = "/";
  attributes = [];
  num_messages = none;
  num_unseen = none;
}

abbrev folders : List Folder
folders = folder "Sent" ∷ folder "Inbox" ∷ folder "Sent/2025" ∷ []

delete_folders-IsDeletion_example :
    (names : List String) × (delete_folders two_folders (sort_descending folders)
      ≡ delete_each two_folders names)
    × IsDeletion folders names
delete_folders-IsDeletion_example = delete_folders-IsDeletion two_folders folders

-- The child goes first, and INBOX stays.
delete_folders_run :
    delete_folders two_folders (sort_descending folders)
    ≡ delete_each two_folders ("Sent/2025" ∷ "Sent" ∷ [])
unfolding program
delete_folders_run = refl

mailbox_at-clear_mailboxes_example :
    mailbox_at (clear_mailboxes synced_state (plain_alice ∷ [])) "alice" ≡ (
      if contains (names (plain_alice ∷ [])) "alice"
      then empty_mailbox "alice"
      else mailbox_at synced_state "alice")
mailbox_at-clear_mailboxes_example =
    mailbox_at-clear_mailboxes synced_state (plain_alice ∷ []) "alice"
