-- ===== src/Mailbox/Folder.antt =====
-- internal/mailbox/copy.go: `copyFolders` and `copyFolder`, once both clients are connected.
use text.Mathlib.Text.{is_lt}
use Prim.Native.String.{compare as compare_text}
use go_boxcopy.Base.{
  ℕ, String, Bool, not, List, [], ◌∷◌, Option, none, some, length, map, contains, ◌==◌, nat_eq,
  string_eq, if◌then◌else◌,
}
use go_boxcopy.Base.Errors.{Error, errorf, str, num, ok, err}
use go_boxcopy.Base.Exec.{pure, handle, ◌>>=◌, ◌>>◌}
use go_boxcopy.Base.Sort.{sort_by}
use go_boxcopy.State.Ops.{set_uid_validity, update_last_sync}
use go_boxcopy.State.Reads.{get_unsynced_uids}
use go_boxcopy.Imap.Api.{Api}
use go_boxcopy.Imap.Data.{Message, Folder, MailboxInfo}
use go_boxcopy.Imap.Message.{default_fetch_options, is_no_select}
use go_boxcopy.Imap.Client.{select}
use go_boxcopy.Imap.Folders.{list_folders, create_folder, ensure_folder}
use go_boxcopy.Imap.Messages.{fetch_all}
use go_boxcopy.Mailbox.Data.{
  Job, InSession, on_source, on_target, update_state, update_box, add_skipped, add_folders_created,
  relabeled,
}
use go_boxcopy.Mailbox.Pipeline.{run_pipeline}

-- sort.Slice by name, ascending
unfoldable pub by_name : Folder → Folder → Bool
by_name f g = not (is_lt (compare_text g.name f.name))

-- The error of a folder after its last batch: the first of the copier's, or the count of messages.
unfoldable pub folder_error : String → Option Error → ℕ → Option Error
folder_error folder (some e) fails = some e
folder_error folder none fails =
    if fails == 0
    then none
    else some (errorf "%d message(s) failed to copy in folder %s" (num fails ∷ str folder ∷ []))

module _ (api : Api) (job : Job) where
  open api use {World, Conn}

  abbrev name : String
  name = job.config.name

  -- The loop over the sorted source folders; `target_set` holds the names on the target. A folder
  -- that cannot be created is only logged.
  unfoldable pub create_missing : List String → List Folder → InSession api (Unit {0})
  create_missing target_set [] = pure tt
  create_missing target_set (folder ∷ folders) =
      let rest = create_missing target_set folders in
      if is_no_select folder
      then rest
      else if contains target_set folder.name
      then rest
      else handle (on_target api (create_folder api folder.name))
          (λ _. update_box api (add_folders_created 1) >> rest) (λ _. rest)

  unfoldable pub copy_folders : InSession api (Unit {0})
  copy_folders = do
    source_folders ←
        relabeled "failed to list source folders: %w" [] (on_source api (list_folders api))
    target_folders ←
        relabeled "failed to list target folders: %w" [] (on_target api (list_folders api))
    create_missing (map (λ f. f.name) target_folders) (sort_by by_name source_folders)

  -- m.state.UpdateLastSync at the time of the world
  unfoldable pub sync_folder : String → InSession api (Unit {0})
  sync_folder folder s = (
    ok tt,
    record s {
      state = update_last_sync s.state name folder (api.now s.world).0;
      world = (api.now s.world).1;
    },
  )

  -- From the unsynced UIDs on.
  unfoldable pub copy_unsynced : List Bool → String → List ℕ → InSession api (Unit {0})
  copy_unsynced schedule folder uids s =
      let c = run_pipeline api job folder schedule uids s in
      elim (folder_error folder c.copy_err c.msg_fail_count) [
        | some e ↦ (err e, c.session)
        | none ↦ sync_folder folder c.session
      ]

  -- From the list of the source's messages on.
  unfoldable pub copy_listed : List Bool → String → List Message → InSession api (Unit {0})
  copy_listed schedule folder [] s = (ok tt, s)
  copy_listed schedule folder (msg ∷ msgs) s =
      elim (get_unsynced_uids s.state name folder (map (λ m. m.uid) (msg ∷ msgs))) [
        | [] ↦ update_box api (add_skipped (length (msg ∷ msgs))) s
        | uid ∷ uids ↦ copy_unsynced schedule folder (uid ∷ uids) s
      ]

  -- From a source folder with messages on.
  unfoldable pub copy_selected : List Bool → String → MailboxInfo → InSession api (Unit {0})
  copy_selected schedule folder info = do
    _ ←
        relabeled "failed to select target folder %s: %w" (str folder ∷ [])
          (on_target api (select api folder))
    update_state api (λ s. (set_uid_validity s name folder info.uid_validity).0)
    messages ←
        relabeled "failed to fetch messages from %s: %w" (str folder ∷ [])
          (on_source api (fetch_all api (some default_fetch_options)))
    copy_listed schedule folder messages

  unfoldable pub copy_folder : List Bool → String → InSession api (Unit {0})
  copy_folder schedule folder = do
    info ←
        relabeled "failed to select source folder %s: %w" (str folder ∷ [])
          (on_source api (select api folder))
    relabeled "failed to ensure target folder %s: %w" (str folder ∷ [])
        (on_target api (ensure_folder api folder))
    if info.num_messages == 0 then pure tt else copy_selected schedule folder info
