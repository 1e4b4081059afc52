-- ===== src/Runner/Clean.antt =====
-- internal/runner/runner.go: `cleanTargetMailbox` and `cleanTargets`.
use go_boxcopy.Base.{
  ℕ, String, true, false, not, List, [], ◌∷◌, none, some, ltb, length, ◌==◌, nat_eq, if◌then◌else◌,
}
use go_boxcopy.Base.Int.{ℤ, pos}
use go_boxcopy.Base.Errors.{str, num, errorf, wrapf, ok, err}
use go_boxcopy.Base.Exec.{Exec, pure, ◌>>=◌, ◌>>◌}
use go_boxcopy.Base.Sort.{sort_by}
use go_boxcopy.Base.Text.{equal_fold}
use go_boxcopy.Base.TextOrder.{precedes}
use go_boxcopy.Config.Data.{ServerConfig, MailboxConfig, Config}
use go_boxcopy.Imap.Api.{Api}
use go_boxcopy.Imap.Data.{Folder, Message, FetchOptions}
use go_boxcopy.Imap.Message.{is_no_select}
use go_boxcopy.Imap.Client.{Link, dial, close, select, unselect}
use go_boxcopy.Imap.Folders.{list_folders, delete_folder}
use go_boxcopy.Imap.Messages.{fetch_all, mark_deleted, expunge}
use go_boxcopy.Mailbox.Data.{relabeled}
use go_boxcopy.Runner.Data.{Pool}
use go_boxcopy.Runner.Queue.{run_queue}

-- { UID: true }
abbrev pub uid_options : FetchOptions
uid_options = record {
  uid = true;
  flags = false;
  internal_date = false;
  size = false;
  envelope = false;
  body = false;
  body_peek = false;
}

-- The loop that collects the UIDs.
unfoldable pub uids_of : List Message → List ℕ
uids_of [] = []
uids_of (msg ∷ msgs) = msg.uid ∷ uids_of msgs

-- sort.Slice, by descending name
unfoldable pub sort_descending : List Folder → List Folder
unfolding precedes
sort_descending folders = sort_by (λ a b. not (precedes a.name b.name)) folders

module _ (api : Api) where
  open api use {World, Conn}

  -- A selected folder that has messages.
  unfoldable pub clean_selected : String → Exec (Link api) (Unit {0})
  unfolding fetch_all mark_deleted expunge
  clean_selected name = do
    all_uids ←
        relabeled "failed to fetch UIDs in folder %q: %w" (str name ∷ [])
          (fetch_all api (some uid_options))
    let uids = uids_of all_uids
    if ltb 0 (length uids)
        then relabeled "failed to mark messages deleted in folder %q: %w" (str name ∷ [])
            (mark_deleted api uids)
        else pure tt
    relabeled "failed to expunge folder %q: %w" (str name ∷ []) (expunge api)

  -- The body of the loop over the folders.
  unfoldable pub clean_folder : Folder → Exec (Link api) (Unit {0})
  unfolding clean_selected select
  clean_folder folder = if is_no_select folder then pure tt else (do
    info ←
        relabeled "failed to select folder %q: %w" (str folder.name ∷ []) (select api folder.name)
    if info.num_messages == 0 then pure tt else clean_selected folder.name)

  unfoldable pub clean_folders : List Folder → Exec (Link api) (Unit {0})
  clean_folders [] = pure tt
  clean_folders (folder ∷ folders) = clean_folder folder >> clean_folders folders

  -- The loop over the sorted folders.
  unfoldable pub delete_folders : List Folder → Exec (Link api) (Unit {0})
  unfolding delete_folder
  delete_folders [] = pure tt
  delete_folders (folder ∷ folders) =
      let rest = delete_folders folders in
      if equal_fold folder.name "INBOX"
      then rest
      else relabeled "failed to delete folder %q: %w" (str folder.name ∷ [])
          (delete_folder api folder.name)
        >> rest

  -- From the connection on, without the deferred close.
  unfoldable pub clean_connected : Exec (Link api) (Unit {0})
  unfolding list_folders unselect clean_folders delete_folders
  clean_connected = do
    folders ← relabeled "failed to list folders: %w" [] (list_folders api)
    clean_folders folders
    relabeled "failed to unselect mailbox before folder deletion: %w" [] (unselect api)
    delete_folders (sort_descending folders)

  unfoldable pub clean_target_mailbox : ServerConfig → MailboxConfig → Exec World (Unit {0})
  unfolding dial close clean_connected
  clean_target_mailbox target_server mb w =
      let (r, w1) = dial api target_server mb.target_user mb.target_password w in
      elim r [
        | err e ↦ (err (wrapf "failed to connect: %w" [] e), w1)
        | ok client ↦
            let (done, (c, w2)) = clean_connected (client, w1) in
            let (closed, (_, w3)) = close api (c, w2) in
            (
              elim done [
                | err e ↦ err e
                | ok _ ↦ elim closed [
                  | err e ↦ err (wrapf "failed to close client: %w" [] e)
                  | ok _ ↦ ok tt
                ]
              ],
              w3,
            )
      ]

-- 30 * time.Minute
abbrev pub clean_timeout : ℤ
clean_timeout = pos 1800000000000

module _ (api : Api) (pool : Pool api.World) where
  open api use {World}

  -- An error of the deferred stop is dropped.
  unfoldable pub clean_targets : Config → Exec World (Unit {0})
  unfolding clean_target_mailbox run_queue
  clean_targets cfg w =
      let (refused, w1) = pool.new_worker_pool cfg.copy_param.max_connections w in
      elim refused [
        | some e ↦ (err (wrapf "failed to create cleanup worker pool: %w" [] e), w1)
        | none ↦
            let (r, w2) =
              run_queue pool (λ w'. w') (λ _ w'. w') (clean_target_mailbox api cfg.target)
                "failed to enqueue cleanup for mailbox %s: %w"
                (wrapf "target cleanup timed out: %w" []) clean_timeout cfg.mailboxes w1 in
            let (_, w3) = pool.stop w2 in
            (
              elim r [
                | err e ↦ err e
                | ok fails ↦
                    if ltb 0 fails
                    then err (errorf "%d mailbox(es) failed to clean" (num fails ∷ []))
                    else ok tt
              ],
              w3,
            )
      ]
