-- ===== src/Tests/VerifierTests.antt =====
-- The verification, at two servers with the same folder.
use go_boxcopy.Base.{
  ℕ, String, ◌≡◌, refl, true, List, [], ◌∷◌, none, some, contains, string_eq, nat_eq,
}
use go_boxcopy.Base.Assoc.{lookup, insert}
use go_boxcopy.Base.Sort.{sort_by, insert_by}
use go_boxcopy.Base.Exec.{handle}
use go_boxcopy.Imap.Data.{Folder}
use go_boxcopy.Imap.Message.{has_attribute, is_no_select, convert_flags}
use go_boxcopy.Imap.Client.{command, select_read_only}
use go_boxcopy.Imap.Messages.{fetch_all_sizes, total_size, item_sizes}
use go_boxcopy.Verifier.Compare.{
  folder_ok, MailboxResult, all_ok, mailbox_ok, counts, absent, present, sort_names, size_or_zero,
  Pair, folder_total_size, compare_folders, compare_listed,
}
use go_boxcopy.Imap.Api.{Api}
use go_boxcopy.Imap.Folders.{to_folder, to_folders, list_folders}
use go_boxcopy.Base.{suc, none}
use go_boxcopy.Base.Errors.{ok}
use go_boxcopy.Verifier.Compare.{compare_mailbox}
use go_boxcopy.Verifier.Agreement.{compare_mailbox-ok}
use go_boxcopy.Tests.Samples.{servers, client}

unfoldable pub program : Unit {0}
unfolding lookup insert sort_by insert_by handle has_attribute is_no_select convert_flags command
    select_read_only fetch_all_sizes total_size item_sizes folder_ok all_ok mailbox_ok counts absent
    present sort_names size_or_zero folder_total_size compare_folders compare_listed contains
    compare_mailbox list_folders to_folder to_folders
program = tt

abbrev folder : String → ℕ → Folder
folder name n = record {
  name = name;
  delimiter = "/";
  attributes = [];
  num_messages = some n;
  num_unseen = none;
}

abbrev empty_result : MailboxResult
empty_result = record {
  name = "alice";
  src_user = "alice";
  tgt_user = "alice";
  missing_folders = [];
  extra_folders = [];
  folders = [];
  failure = none;
}

abbrev same_servers : Api
same_servers = record servers {
  list = λ conn pattern with_status w. (
    record {
      entries =
          record { mailbox = "INBOX"; delim = "/"; attrs = []; status = some (some 3, some 1) }
          ∷ [];
      closing = none;
    },
    suc w,
  );
}

abbrev same_pair : Pair ℕ ℕ
same_pair = record { src = client "source" 0; tgt = client "target" 1; world = 100 }

abbrev inboxes : List Folder
inboxes = record (folder "INBOX" 3) { num_unseen = some 1 } ∷ []

source_listed : (list_folders same_servers (same_pair.src, 100)).0 ≡ ok inboxes
unfolding program
source_listed = refl

target_listed : (list_folders same_servers (same_pair.tgt, 101)).0 ≡ ok inboxes
unfolding program
target_listed = refl

no_complaint : mailbox_ok (compare_mailbox same_servers empty_result same_pair).0 ≡ true
unfolding program
no_complaint = refl

three_messages : lookup "INBOX" (counts [] inboxes) ≡ some 3
unfolding program
three_messages = refl

compare_mailbox-ok_example : lookup "INBOX" (counts [] inboxes) ≡ some 3
unfolding program
compare_mailbox-ok_example =
    compare_mailbox-ok same_servers empty_result same_pair inboxes inboxes "INBOX" 3 source_listed
      target_listed no_complaint three_messages
