-- ===== src/Command/Report.antt =====
-- cmd/boxcopy/main.go: `printVerifyReport` and `formatBytes`.
use go_boxcopy.Base.{
  ℕ, String, ◌≡◌, ◌↔◌, Bool, true, false, List, [], ◌∷◌, ◌++◌, none, some, leb, ltb, length, arith,
  nat_eq, string_eq, All, if◌then◌else◌,
}
use go_boxcopy.Base.Errors.{Error}
use go_boxcopy.Verifier.Compare.{FolderResult, folder_ok, MailboxResult, mailbox_ok}

-- A number of bytes, and one that is printed under a format as a quotient.
pub data Amount : Type 0 where
  byte_count : ℕ → Amount
  quotient : String → ℕ → ℕ → Amount

unfoldable pub format_bytes : ℕ → Amount
format_bytes b =
    if leb 1073741824 b
    then quotient "%.1f GB" b 1073741824
    else if leb 1048576 b
    then quotient "%.1f MB" b 1048576
    else if leb 1024 b
    then quotient "%.1f KB" b 1024
    else byte_count b

-- The lines of the report.
pub data Printed : Type 0 where
  separator : Printed
  mailbox_line : String → String → String → Printed
  status_line : Bool → Printed
  error_line : Error → Printed
  missing_head extra_head : ℕ → Printed
  missing_line extra_line : String → Printed
  table_head : Printed
  folder_line : String → ℕ → ℕ → Amount → Amount → Bool → Printed
  overall_line : Bool → Printed

unfoldable pub lines_of : (String → Printed) → List String → List Printed
lines_of line [] = []
lines_of line (name ∷ names) = line name ∷ lines_of line names

unfoldable pub folder_lines : List FolderResult → List Printed
unfolding format_bytes folder_ok
folder_lines [] = []
folder_lines (fr ∷ frs) =
    folder_line fr.name fr.src_count fr.tgt_count (format_bytes fr.src_size)
      (format_bytes fr.tgt_size) (folder_ok fr)
    ∷ folder_lines frs

-- The body of the loop: the lines, and whether the mailbox passed.
unfoldable pub report_mailbox : MailboxResult → List Printed × Bool
unfolding lines_of folder_lines
report_mailbox r =
    let head = separator ∷ mailbox_line r.name r.src_user r.tgt_user ∷ [] in
    elim r.failure [
      | some e ↦ (head ++ status_line false ∷ error_line e ∷ [], false)
      | none ↦ (
        head
            ++ status_line (mailbox_ok r)
              ∷ (if ltb 0 (length r.missing_folders)
                  then missing_head (length r.missing_folders)
                    ∷ lines_of missing_line r.missing_folders
                  else [])
            ++ (if ltb 0 (length r.extra_folders)
                then extra_head (length r.extra_folders) ∷ lines_of extra_line r.extra_folders
                else [])
            ++ (if ltb 0 (length r.folders) then table_head ∷ folder_lines r.folders else []),
        mailbox_ok r,
      )
    ]

-- The loop, from what it has found so far.
unfoldable pub report_mailboxes : Bool → List MailboxResult → List Printed × Bool
unfolding report_mailbox
report_mailboxes all_ok [] = (separator ∷ overall_line all_ok ∷ [], all_ok)
report_mailboxes all_ok (r ∷ rs) =
    let (lines, passed) = report_mailbox r in
    let (rest, result) = report_mailboxes (if passed then all_ok else false) rs in
    (lines ++ rest, result)

unfoldable pub print_verify_report : List MailboxResult → List Printed × Bool
unfolding report_mailboxes
print_verify_report results = report_mailboxes true results

abbrev pub AllPassed : List MailboxResult → Type 0
AllPassed results = All (λ r. mailbox_ok r ≡ true) results

report_mailbox_passed : (r : MailboxResult) → (report_mailbox r).1 ≡ mailbox_ok r
unfolding report_mailbox mailbox_ok
report_mailbox_passed r = ground arith

report_mailboxes_passed :
    (b : Bool) (rs : List MailboxResult)
    → ((report_mailboxes b rs).1 ≡ true) ↔ ((b ≡ true) × AllPassed rs)
unfolding report_mailboxes
report_mailboxes_passed b [] = ground arith
report_mailboxes_passed b (r ∷ rs) = ground (
  arith,
  report_mailbox_passed r,
  report_mailboxes_passed (if (report_mailbox r).1 then b else false) rs,
)

pub print_verify_report_passed :
    (results : List MailboxResult) → ((print_verify_report results).1 ≡ true) ↔ AllPassed results
unfolding print_verify_report
print_verify_report_passed results = ground (arith, report_mailboxes_passed true results)
