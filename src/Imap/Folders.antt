-- ===== src/Imap/Folders.antt =====
-- internal/imap/folder.go: the methods of `Client` on folders.
use go_boxcopy.Base.{
  String, Bool, true, false, not, ◌||◌, List, [], ◌∷◌, Option, none, some, get_or, ◌==◌, nat_eq,
  string_eq, if◌then◌else◌,
}
use go_boxcopy.Base.Errors.{str, Error, errorf, wrapf, Result, ok, err, relabel}
use go_boxcopy.Base.Exec.{Exec, pure, lift, ◌>>=◌}
use go_boxcopy.Imap.Data.{Folder, FolderStatusInfo, ListData, StatusData}
use go_boxcopy.Imap.Api.{Api}
use go_boxcopy.Imap.Message.{convert_flags}
use go_boxcopy.Imap.Client.{Link, command, run}

unfoldable pub to_folder : ListData → Folder
to_folder entry = record {
  name = entry.mailbox;
  delimiter = entry.delim;
  attributes = convert_flags entry.attrs;
  num_messages = elim entry.status [ none ↦ none | some (messages, _) ↦ messages ];
  num_unseen = elim entry.status [ none ↦ none | some (_, unseen) ↦ unseen ];
}

unfoldable pub to_folders : List ListData → List Folder
to_folders [] = []
to_folders (entry ∷ entries) = to_folder entry ∷ to_folders entries

-- `folders` once the stream is closed without an error
abbrev pub when_closed {ℓ} : {A : Type ℓ} → String → Option Error → A → Result A
when_closed format none a = ok a
when_closed format (some e) a = err (wrapf format [] e)

-- the flag that the loop of `FolderExists` leaves
unfoldable pub found : String → List ListData → Bool
found name [] = false
found name (entry ∷ entries) = entry.mailbox == name || found name entries

unfoldable pub to_status_info : String → StatusData → Result FolderStatusInfo
to_status_info name info =
    if info.uid_validity == 0
    then err (errorf "server returned invalid UIDValidity 0 for folder %s" (str name ∷ []))
    else ok (record {
      name = info.mailbox;
      num_messages = get_or info.num_messages 0;
      num_unseen = get_or info.num_unseen 0;
      uid_next = info.uid_next;
      uid_validity = info.uid_validity;
    })

module _ (api : Api) where
  unfoldable pub list_folders : Exec (Link api) (List Folder)
  unfolding command
  list_folders = command api (λ conn w.
      let (s, w') = api.list conn "*" true w in
      (when_closed "failed to list folders: %w" s.closing (to_folders s.entries), w'))

  unfoldable pub create_folder : String → Exec (Link api) (Unit {0})
  unfolding run
  create_folder name =
      run api "failed to create folder %s: %w" (str name ∷ []) (λ conn. api.create conn name)

  unfoldable pub delete_folder : String → Exec (Link api) (Unit {0})
  unfolding run
  delete_folder name =
      run api "failed to delete folder %s: %w" (str name ∷ []) (λ conn. api.delete conn name)

  unfoldable pub rename_folder : String → String → Exec (Link api) (Unit {0})
  unfolding run
  rename_folder old_name new_name =
      run api "failed to rename folder %s to %s: %w" (str old_name ∷ str new_name ∷ [])
        (λ conn. api.rename conn old_name new_name)

  unfoldable pub folder_status : String → Exec (Link api) FolderStatusInfo
  unfolding command
  folder_status name = do
    info ← command api (λ conn w.
        let (r, w') = api.status conn name w in
        (relabel "failed to get status for folder %s: %w" (str name ∷ []) r, w'))
    lift (to_status_info name info)

  unfoldable pub folder_exists : String → Exec (Link api) Bool
  unfolding command
  folder_exists name = command api (λ conn w.
      let (s, w') = api.list conn name false w in
      (when_closed "failed to check folder existence: %w" s.closing (found name s.entries), w'))

  unfoldable pub ensure_folder : String → Exec (Link api) (Unit {0})
  unfolding folder_exists create_folder
  ensure_folder name = do
    exists ← folder_exists name
    if not exists then create_folder name else pure tt
