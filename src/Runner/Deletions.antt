-- ===== src/Runner/Deletions.antt =====
-- internal/runner/runner.go: which folders the cleaning of a target deletes, and in which order.
use Prim.Native.Char.{Char}
use Prim.Native.String.{◌∷◌ as text_cons, ◌++◌ as append}
use go_boxcopy.Base.{
  String, ◌≡◌, ◌≢◌, refl, Bool, true, false, not, ◌&&◌, List, [], ◌∷◌, inl, inr, arith, contains,
  string_eq, nat_eq, Bool-cases, All, All-imply, ap, if◌then◌else◌,
}
use go_boxcopy.Base.Errors.{str}
use go_boxcopy.Base.Exec.{Exec, pure, ◌>>◌}
use go_boxcopy.Base.Sort.{insert_by, sort_by}
use go_boxcopy.Base.Sorted.{Pairwise, Pairwise-imply, sort_by-Pairwise}
use go_boxcopy.Base.Text.{equal_fold}
use go_boxcopy.Base.TextOrder.{precedes, precedes_asym, precedes_trans, precedes-append}
use go_boxcopy.Imap.Api.{Api}
use go_boxcopy.Imap.Data.{Folder}
use go_boxcopy.Imap.Client.{Link}
use go_boxcopy.Imap.Folders.{delete_folder}
use go_boxcopy.Mailbox.Data.{relabeled}
use go_boxcopy.Runner.Clean.{sort_descending, delete_folders}

abbrev pub folder_names : List Folder → List String
folder_names [] = []
folder_names (f ∷ fs) = f.name ∷ folder_names fs

abbrev is_inbox : String → Bool
is_inbox name = equal_fold name "INBOX"

-- The names other than INBOX.
abbrev deletions : List Folder → List String
deletions [] = []
deletions (f ∷ fs) = if is_inbox f.name then deletions fs else f.name ∷ deletions fs

contains-deletions :
    (fs : List Folder) (n : String)
    → contains (deletions fs) n ≡ (contains (folder_names fs) n && not (is_inbox n))
unfolding contains
contains-deletions [] n = refl
contains-deletions (f ∷ fs) n = ground (arith, contains-deletions fs n, string_eq.beq_iff f.name n)

abbrev at_or_after : Folder → Folder → Bool
at_or_after a b = not (precedes a.name b.name)

contains-folder_names :
    (f : Folder) (fs : List Folder) (n : String)
    → contains (folder_names (insert_by at_or_after f fs)) n ≡ contains (folder_names (f ∷ fs)) n
unfolding insert_by contains
contains-folder_names f [] n = refl
contains-folder_names f (g ∷ gs) n = ground (arith, contains-folder_names f gs n)

contains-sort_descending :
    (fs : List Folder) (n : String)
    → contains (folder_names (sort_descending fs)) n ≡ contains (folder_names fs) n
unfolding sort_descending sort_by contains
contains-sort_descending [] n = refl
contains-sort_descending (f ∷ fs) n =
    ground (arith, contains-folder_names f (sort_descending fs) n, contains-sort_descending fs n)

-- `b` does not go on after `a`, as the name of a child goes on after its parent's.
abbrev pub IsNoChild : String → String → Type 0
IsNoChild a b = (c : Char) (t : String) → b ≢ append a (text_cons c t)

abbrev pub Reaches : String → String → Type 0
Reaches a b = precedes a b ≡ false

Reaches-IsNoChild : (a b : String) → Reaches a b → IsNoChild a b
Reaches-IsNoChild a b h c t e = ground (arith, precedes-append a c t, e)

All-deletions {κ} :
    (P : String → Type κ) (fs : List Folder) → All (λ f. P f.name) fs → All P (deletions fs)
All-deletions P [] h = tt
All-deletions P (f ∷ fs) h = elim (Bool-cases (is_inbox f.name)) [
  | inl e ↦ rw e (All-deletions P fs h.1)
  | inr e ↦ rw e (h.0, All-deletions P fs h.1)
]

reaches : (f g : Folder) → at_or_after f g ≡ true → Reaches f.name g.name
reaches f g h = ground arith

deletions-Pairwise :
    (fs : List Folder)
    → Pairwise (λ a b. at_or_after a b ≡ true) fs
    → Pairwise Reaches (deletions fs)
deletions-Pairwise [] h = tt
deletions-Pairwise (f ∷ fs) h = elim (Bool-cases (is_inbox f.name)) [
  | inl e ↦ rw e (deletions-Pairwise fs h.1)
  | inr e ↦
      rw e (
        All-deletions (Reaches f.name) fs (All-imply (reaches f) fs h.0),
        deletions-Pairwise fs h.1,
      )
]

sort_descending-Pairwise :
    (fs : List Folder) → Pairwise (λ a b. at_or_after a b ≡ true) (sort_descending fs)
unfolding sort_descending
sort_descending-Pairwise =
    sort_by-Pairwise at_or_after (λ a b h. ground (arith, precedes_asym a.name b.name))
      (λ a b c h k. ground (arith, precedes_trans a.name b.name c.name))

-- The names of the folders to delete: all but INBOX, in whatever case, and none after one that its
-- own name goes on after.
abbrev pub IsDeletion : List Folder → List String → Type 0
IsDeletion folders names =
    ((n : String)
      → contains names n ≡ (contains (folder_names folders) n && not (equal_fold n "INBOX")))
    × Pairwise IsNoChild names

module _ (api : Api) where
  -- A deletion for each name in turn, up to the first that fails.
  abbrev pub delete_each : List String → Exec (Link api) (Unit {0})
  delete_each [] = pure tt
  delete_each (name ∷ names) =
      relabeled "failed to delete folder %q: %w" (str name ∷ []) (delete_folder api name)
      >> delete_each names

  delete_folders-deletions : (fs : List Folder) → delete_folders api fs ≡ delete_each (deletions fs)
  unfolding delete_folders
  delete_folders-deletions [] = refl
  delete_folders-deletions (f ∷ fs) = elim (Bool-cases (is_inbox f.name)) [
    | inl e ↦ rw e (delete_folders-deletions fs)
    | inr e ↦ rw e (
        ap
          (λ k.
            relabeled "failed to delete folder %q: %w" (str f.name ∷ []) (delete_folder api f.name)
            >> k)
          (delete_folders-deletions fs))
  ]

  -- The deletion of a target's folders is that of a list of names, one after the other up to the
  -- first failure: each folder that is not INBOX, in whatever case of its letters, and no other,
  -- with no folder after one whose name its own starts with, so that children go before parents.
  pub delete_folders-IsDeletion :
      (folders : List Folder)
      → (names : List String) × (delete_folders api (sort_descending folders) ≡ delete_each names)
        × IsDeletion folders names
  delete_folders-IsDeletion folders =
      let sorted = sort_descending folders in
      (
        deletions sorted,
        delete_folders-deletions sorted,
        (
          λ n. ground (arith, contains-deletions sorted n, contains-sort_descending folders n),
          Pairwise-imply Reaches-IsNoChild (deletions sorted)
              (deletions-Pairwise sorted (sort_descending-Pairwise folders)),
        ),
      )
