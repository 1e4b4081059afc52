-- ===== src/Verifier/Agreement.antt =====
-- internal/verifier/verifier.go: what a verification without complaint says of the folders.
use go_boxcopy.Base.{
  ℕ, String, ◌≡◌, refl, true, List, [], ◌∷◌, none, some, get_or, inl, inr, arith, contains,
  Option-cases, List-cases, Bool-cases, ◌==◌, nat_eq, string_eq, ◌∙◌,
}
use go_boxcopy.Base.Assoc.{Assoc, keys, lookup}
use go_boxcopy.Base.Sort.{contains-sort_by}
use go_boxcopy.Imap.Api.{Api}
use go_boxcopy.Imap.Data.{Folder}
use go_boxcopy.Imap.Folders.{list_folders}
use go_boxcopy.Base.Errors.{ok}
use go_boxcopy.Verifier.Compare.{
  compare_mailbox, folder_ok, MailboxResult, all_ok, mailbox_ok, counts, absent, present,
  sort_names, compare_folders, compare_listed, folder_total_size, Pair,
}

contains-sort_names :
    (names : List String) (x : String) → contains (sort_names names) x ≡ contains names x
unfolding sort_names
contains-sort_names names x = contains-sort_by _ names x

contains-absent :
    (m : Assoc String ℕ) (names : List String) (x : String)
    → lookup x m ≡ none
    → contains (absent m names) x ≡ contains names x
unfolding absent contains
contains-absent m [] x h = refl
contains-absent m (name ∷ names) x h = elim (Option-cases (lookup name m)) [
  | inl e ↦ ground (arith, contains-absent m names x h)
  | inr (n, e) ↦ ground (arith, contains-absent m names x h, string_eq.beq_iff name x)
]

contains-present :
    (m : Assoc String ℕ) (names : List String) (x : String) (n : ℕ)
    → lookup x m ≡ some n
    → contains (present m names) x ≡ contains names x
unfolding present contains
contains-present m [] x n h = refl
contains-present m (name ∷ names) x n h = elim (Option-cases (lookup name m)) [
  | inr (k, e) ↦ ground (arith, contains-present m names x n h)
  | inl e ↦ ground (arith, contains-present m names x n h, string_eq.beq_iff name x)
]

contains-keys :
    (m : Assoc String ℕ) (x : String) (n : ℕ) → lookup x m ≡ some n → contains (keys m) x ≡ true
unfolding lookup contains
contains-keys [] x n h = cc
contains-keys ((j, v) ∷ m) x n h = ground (arith, contains-keys m x n)

module _ (api : Api) where
  counts_agree :
      (a b : Assoc String ℕ) (names : List String) (p : Pair api.Conn api.World) (x : String)
      → all_ok (compare_folders api a b names p).0 ≡ true
      → contains names x ≡ true
      → get_or (lookup x a) 0 ≡ get_or (lookup x b) 0
  unfolding compare_folders all_ok folder_ok contains
  counts_agree a b [] p x h g = cc
  counts_agree a b (name ∷ names) p x h g =
      let u = folder_total_size api name (p.src, p.world) in
      let v = folder_total_size api name (p.tgt, u.1.1) in
      let q : Pair api.Conn api.World = record { src = u.1.0; tgt = v.1.0; world = v.1.1 } in
      elim (Bool-cases (name == x)) [
        | inl e ↦ ground (arith, string_eq.beq_iff name x)
        | inr e ↦ counts_agree a b names q x (ground arith) (ground arith)
      ]

  mailbox_ok_lem :
      (r : MailboxResult)
      → mailbox_ok r ≡ true
      → (r.missing_folders ≡ []) × (all_ok r.folders ≡ true)
  unfolding mailbox_ok
  mailbox_ok_lem r h = elim (Option-cases r.failure) [
    | inr (e, f) ↦ absurd (cc (rw (f, mailbox_ok) at h))
    | inl f ↦ elim (List-cases r.missing_folders) [
      | inl g ↦ (g, ground arith)
      | inr (x, xs, g) ↦ absurd (ground (arith, (rw (f, g, mailbox_ok) at h)))
    ]
  ]

  -- From both lists of folders on.
  compare_listed-ok :
      (result : MailboxResult) (source target : List Folder) (p : Pair api.Conn api.World)
      (name : String) (n : ℕ)
      → mailbox_ok (compare_listed api result source target p).0 ≡ true
      → lookup name (counts [] source) ≡ some n
      → lookup name (counts [] target) ≡ some n
  unfolding compare_listed contains
  compare_listed-ok result source target p name n h found =
      let a = counts [] source in
      let b = counts [] target in
      let fine = mailbox_ok_lem (compare_listed api result source target p).0 h in
      let named = contains-keys a name n found in
      elim (Option-cases (lookup name b)) [
        | inl e ↦
            let listed =
              contains-sort_names (absent b (keys a)) name
              ∙ contains-absent b (keys a) name e
              ∙ named in
            absurd (cc (rw fine.0 at listed))
        | inr (k, e) ↦
            let listed =
              contains-sort_names (present b (keys a)) name
              ∙ contains-present b (keys a) name k e
              ∙ named in
            let same = counts_agree a b (sort_names (present b (keys a))) p name fine.1 listed in
            ground (arith, same)
      ]

  -- When both servers list their folders and the verification has no complaint, every selectable
  -- folder of the source is a selectable folder of the target, and the two listings report the same
  -- number of messages for it, where a listing without a number counts as 0
  -- and the last one counts if a name is listed twice.
  pub compare_mailbox-ok :
      (result : MailboxResult) (p : Pair api.Conn api.World) (source target : List Folder)
      (name : String) (n : ℕ)
      → (list_folders api (p.src, p.world)).0 ≡ ok source
      → (list_folders api (p.tgt, (list_folders api (p.src, p.world)).1.1)).0 ≡ ok target
      → mailbox_ok (compare_mailbox api result p).0 ≡ true
      → lookup name (counts [] source) ≡ some n
      → lookup name (counts [] target) ≡ some n
  unfolding compare_mailbox
  compare_mailbox-ok result p source target name n s t h =
      compare_listed-ok result source target _ name n (rw (s, t, compare_mailbox) at h)
