-- ===== src/Mailbox/FolderCopies.antt =====
-- internal/mailbox/copy.go: `copyFolders` and `copyFolder`, under any schedule, only make the calls of
-- a copy.
use go_boxcopy.Base.Equality.{nat_eq}
use go_boxcopy.Base.{
  ℕ, String, Bool, List, [], ◌∷◌, map, inl, inr, contains, Bool-cases, Option-cases, List-cases,
  ◌==◌, string_eq, if◌then◌else◌,
}
use go_boxcopy.Base.Exec.{pure}
use go_boxcopy.Base.Keeps.{Keeps, Keeps-handle, Keeps-bind}
use go_boxcopy.State.Data.{State}
use go_boxcopy.State.Reads.{get_unsynced_uids}
use go_boxcopy.Imap.Api.{Api}
use go_boxcopy.Imap.Data.{Message, Folder, MailboxInfo}
use go_boxcopy.Imap.Message.{is_no_select}
use go_boxcopy.Mailbox.Data.{Job, Session, InSession}
use go_boxcopy.Mailbox.Pipeline.{run_pipeline}
use go_boxcopy.Mailbox.Folder.{
  folder_error, create_missing, copy_folders, sync_folder, copy_unsynced, copy_listed,
  copy_selected, copy_folder,
}
use go_boxcopy.Mailbox.Copies.{validated, synced, FromStart}
use go_boxcopy.Mailbox.PipelineCopies.{run_pipeline-Keeps}

module _ (api : Api) (job : Job) (start : State) where
  open api use {World, Conn}

  abbrev InFolder : {A : Type 0} → InSession api A → Type 0
  InFolder = Keeps (FromStart api job start)

  sync_folder-Keeps : (folder : String) → InFolder (sync_folder api job folder)
  unfolding sync_folder
  sync_folder-Keeps folder s h = synced h folder _

  copy_unsynced-Keeps :
      (schedule : List Bool) (folder : String) (uids : List ℕ)
      → InFolder (copy_unsynced api job schedule folder uids)
  unfolding copy_unsynced
  copy_unsynced-Keeps schedule folder uids s h =
      let c = run_pipeline api job folder schedule uids s in
      let kept = run_pipeline-Keeps api job start folder schedule uids s h in
      elim (Option-cases (folder_error folder c.copy_err c.msg_fail_count)) [
        | inl e ↦ rw (e, copy_unsynced) (sync_folder-Keeps folder c.session kept)
        | inr (d, e) ↦ rw (e, copy_unsynced) kept
      ]

  copy_listed-Keeps :
      (schedule : List Bool) (folder : String) (msgs : List Message)
      → InFolder (copy_listed api job schedule folder msgs)
  unfolding copy_listed
  copy_listed-Keeps schedule folder [] s h = h
  copy_listed-Keeps schedule folder (msg ∷ msgs) s h =
      elim (List-cases
        (get_unsynced_uids s.state job.config.name folder (map (λ m. m.uid) (msg ∷ msgs)))) [
          | inl e ↦ rw (e, copy_listed) h
          | inr (uid, uids, e) ↦
              rw (e, copy_listed) (copy_unsynced-Keeps schedule folder (uid ∷ uids) s h)
        ]

  create_missing-Keeps :
      (target_set : List String) (folders : List Folder)
      → InFolder (create_missing api job target_set folders)
  unfolding create_missing
  create_missing-Keeps target_set [] s h = h
  create_missing-Keeps target_set (folder ∷ folders) s h =
      let rest = create_missing-Keeps target_set folders in
      elim (Bool-cases (is_no_select folder)) [
        | inl e ↦ rw (e, create_missing) (rest s h)
        | inr e ↦ elim (Bool-cases (contains target_set folder.name)) [
          | inl f ↦ rw (e, f, create_missing) (rest s h)
          | inr f ↦
              rw (e, f, create_missing)
                (Keeps-handle (FromStart api job start) _ _ _ (λ t k. k)
                  (λ _. Keeps-bind (FromStart api job start) _ _ (λ t k. k) (λ _. rest)) (λ _. rest)
                  s h)
        ]
      ]

  pub copy_folders-Keeps : InFolder (copy_folders api job)
  unfolding copy_folders
  copy_folders-Keeps =
      Keeps-bind P _ _ (Keeps-handle P _ _ _ (λ t k. k) (λ _ t k. k) (λ _ t k. k))
        (λ source_folders.
          Keeps-bind P _ _ (Keeps-handle P _ _ _ (λ t k. k) (λ _ t k. k) (λ _ t k. k))
            (λ target_folders. create_missing-Keeps _ _))
    where
      P : Session Conn World → Type 0
      P = FromStart api job start

  copy_selected-Keeps :
      (schedule : List Bool) (folder : String) (info : MailboxInfo)
      → InFolder (copy_selected api job schedule folder info)
  unfolding copy_selected
  copy_selected-Keeps schedule folder info =
      Keeps-bind P _ _ (Keeps-handle P _ _ _ (λ t k. k) (λ _ t k. k) (λ _ t k. k)) (λ _.
        Keeps-bind P _ _ (λ t k. validated k folder info.uid_validity)
          (λ _.
            Keeps-bind P _ _ (Keeps-handle P _ _ _ (λ t k. k) (λ _ t k. k) (λ _ t k. k))
              (λ msgs. copy_listed-Keeps schedule folder msgs)))
    where
      P : Session Conn World → Type 0
      P = FromStart api job start

  copy_ensured-Keeps :
      (schedule : List Bool) (folder : String) (info : MailboxInfo)
      → InFolder
          (if info.num_messages == 0 then pure tt else copy_selected api job schedule folder info)
  copy_ensured-Keeps schedule folder info = elim (Bool-cases (info.num_messages == 0)) [
    | inl e ↦ rw e (λ t k. k)
    | inr e ↦ rw e (copy_selected-Keeps schedule folder info)
  ]

  pub copy_folder-Keeps :
      (schedule : List Bool) (folder : String) → InFolder (copy_folder api job schedule folder)
  unfolding copy_folder
  copy_folder-Keeps schedule folder =
      Keeps-bind P _ _ (Keeps-handle P _ _ _ (λ t k. k) (λ _ t k. k) (λ _ t k. k)) (λ info.
        Keeps-bind P _ _ (Keeps-handle P _ _ _ (λ t k. k) (λ _ t k. k) (λ _ t k. k))
          (λ _. copy_ensured-Keeps schedule folder info))
    where
      P : Session Conn World → Type 0
      P = FromStart api job start
