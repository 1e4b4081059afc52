-- ===== src/State/View.antt =====
-- The abstract state: a total map from mailbox names to mailbox states, and from folder names to
-- folder states, where what the program has not met is empty. An operation updates it at its names.
use go_boxcopy.Base.{
  String, ◌≡◌, inl, inr, false, some, get_or, arith, ◌==◌, Option-cases, string_eq, if◌then◌else◌,
}
use go_boxcopy.Base.Assoc.{
  lookup, insert, lookup-insert, lookup-insert_self, insert-insert, insert-lookup,
}
use go_boxcopy.State.Data.{FolderState, MailboxState, State, empty_folder, empty_mailbox}
use go_boxcopy.State.Ops.{write_mailbox, write_folder, get_or_create_mailbox, get_or_create_folder}
use go_boxcopy.State.Reads.{find_folder}

unfoldable pub mailbox_at : State → String → MailboxState
mailbox_at s mailbox = get_or (lookup mailbox s.mailboxes) (empty_mailbox mailbox)

unfoldable pub folder_in : MailboxState → String → FolderState
folder_in ms folder = get_or (lookup folder ms.folders) (empty_folder folder)

abbrev pub put_folder : MailboxState → String → FolderState → MailboxState
put_folder ms folder fs = record ms { folders = insert folder fs ms.folders }

abbrev pub folder_at : State → String → String → FolderState
folder_at s mailbox folder = folder_in (mailbox_at s mailbox) folder

pub folder_in-put_folder :
    (ms : MailboxState) (f g : String) (fs : FolderState)
    → folder_in (put_folder ms f fs) g ≡ (if f == g then fs else folder_in ms g)
unfolding folder_in
folder_in-put_folder ms f g fs = ground (arith, lookup-insert f g fs ms.folders)

pub find_folder-folder_in :
    (s : State) (m f : String) → get_or (find_folder s m f) (empty_folder f) ≡ folder_at s m f
unfolding folder_in find_folder mailbox_at lookup
find_folder-folder_in s m f = ground arith

module _ (s : State) (m n : String) where
  pub mailbox_at-write_mailbox :
      (ms : MailboxState)
      → mailbox_at (write_mailbox s m ms) n ≡ (if m == n then ms else mailbox_at s n)
  unfolding mailbox_at
  mailbox_at-write_mailbox ms = ground (arith, lookup-insert m n ms s.mailboxes)

  pub mailbox_at-get_or_create_mailbox : mailbox_at (get_or_create_mailbox s m).0 n ≡ mailbox_at s n
  unfolding mailbox_at get_or_create_mailbox
  mailbox_at-get_or_create_mailbox =
      ground (arith, string_eq.beq_iff m n, lookup-insert m n (empty_mailbox m) s.mailboxes)

module _ (s : State) (m : String) where
  pub get_or_create_mailbox_lem : (get_or_create_mailbox s m).1 ≡ mailbox_at s m
  unfolding mailbox_at get_or_create_mailbox
  get_or_create_mailbox_lem = ground arith

  pub get_or_create_mailbox_found :
      lookup m (get_or_create_mailbox s m).0.mailboxes ≡ some (mailbox_at s m)
  unfolding mailbox_at get_or_create_mailbox
  get_or_create_mailbox_found = ground (arith, lookup-insert_self m (empty_mailbox m) s.mailboxes)

  pub get_or_create_folder_lem : (f : String) → (get_or_create_folder s m f).1 ≡ folder_at s m f
  unfolding get_or_create_folder mailbox_at folder_in lookup
  get_or_create_folder_lem f = ground arith

module _ (s : State) (m f : String) where
  -- The folder's entry is there afterwards.
  pub get_or_create_folder_found :
      lookup m (get_or_create_folder s m f).0.mailboxes
      ≡ some (put_folder (mailbox_at s m) f (folder_at s m f))
  unfolding get_or_create_folder mailbox_at folder_in lookup
  get_or_create_folder_found = elim (Option-cases (lookup m s.mailboxes)) [
    | inl e ↦ ground (
      arith,
      lookup-insert_self m (empty_mailbox m) s.mailboxes,
      lookup-insert_self m (put_folder (empty_mailbox m) f (empty_folder f))
          (insert m (empty_mailbox m) s.mailboxes),
    )
    | inr (ms, e) ↦ ground (
      arith,
      insert-lookup f (folder_in ms f) ms.folders,
      lookup-insert_self m (put_folder ms f (empty_folder f)) s.mailboxes,
    )
  ]

  -- No other mailbox is touched.
  get_or_create_folder_ne :
      (n : String)
      → (m == n) ≡ false
      → lookup n (get_or_create_folder s m f).0.mailboxes ≡ lookup n s.mailboxes
  unfolding get_or_create_folder
  get_or_create_folder_ne n h = elim (Option-cases (lookup m s.mailboxes)) [
    | inl e ↦ ground (
      arith,
      lookup-insert m n (empty_mailbox m) s.mailboxes,
      lookup-insert m n (put_folder (empty_mailbox m) f (empty_folder f))
          (insert m (empty_mailbox m) s.mailboxes),
      insert-insert m (put_folder (empty_mailbox m) f (empty_folder f)) (empty_mailbox m)
          s.mailboxes,
    )
    | inr (ms, e) ↦ ground (arith, lookup-insert m n (put_folder ms f (empty_folder f)) s.mailboxes)
  ]

  pub mailbox_at-get_or_create_folder :
      (n : String)
      → mailbox_at (get_or_create_folder s m f).0 n
        ≡ (if m == n then put_folder (mailbox_at s m) f (folder_at s m f) else mailbox_at s n)
  unfolding mailbox_at
  mailbox_at-get_or_create_folder n =
      ground (arith, get_or_create_folder_ne n, get_or_create_folder_found, string_eq.beq_iff m n)

  -- A write through the folder's pointer.
  pub mailbox_at-write_folder :
      (fs : FolderState) (n : String)
      → mailbox_at (write_folder (get_or_create_folder s m f).0 m f fs) n
        ≡ (if m == n then put_folder (mailbox_at s m) f fs else mailbox_at s n)
  unfolding write_folder mailbox_at
  mailbox_at-write_folder fs n = ground (
    arith,
    get_or_create_folder_ne n,
    get_or_create_folder_found,
    string_eq.beq_iff m n,
    insert-insert f fs (folder_at s m f) (mailbox_at s m).folders,
    lookup-insert m n (put_folder (put_folder (mailbox_at s m) f (folder_at s m f)) f fs)
        (get_or_create_folder s m f).0.mailboxes,
  )

  pub write_folder_found :
      (fs : FolderState)
      → lookup m (write_folder (get_or_create_folder s m f).0 m f fs).mailboxes
        ≡ some (put_folder (mailbox_at s m) f fs)
  unfolding write_folder mailbox_at
  write_folder_found fs = ground (
    arith,
    get_or_create_folder_found,
    insert-insert f fs (folder_at s m f) (mailbox_at s m).folders,
    lookup-insert_self m (put_folder (put_folder (mailbox_at s m) f (folder_at s m f)) f fs)
        (get_or_create_folder s m f).0.mailboxes,
  )
