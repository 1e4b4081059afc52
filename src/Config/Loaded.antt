-- ===== src/Config/Loaded.antt =====
-- internal/config/config.go: what a configuration that was loaded comes from.
use go_boxcopy.Base.{
  ℕ, ◌+◌, String, ◌≡◌, ◌≢◌, ◌↔◌, List, [], ◌∷◌, some, inl, inr, arith, nat_eq, Option-cases,
  List-cases,
}
use go_boxcopy.Base.Errors.{ok}
use go_boxcopy.Config.Data.{MailboxConfig, Config}
use go_boxcopy.Config.Host.{Section, Document, Host}
use go_boxcopy.Config.Load.{
  required_file_mode, required, load_mailbox, load_entries, load_mailbox_configs,
  check_file_permissions, load,
}

-- The mailbox has the values of the section.
abbrev pub IsEntry : MailboxConfig → Section → Type 0
IsEntry mb section =
    (section.get_string "name" ≡ some mb.name)
    × (section.get_string "source_user" ≡ some mb.source_user)
    × (section.get_string "source_password" ≡ some mb.source_password)
    × (section.get_string "target_user" ≡ some mb.target_user)
    × (section.get_string "target_password" ≡ some mb.target_password)

abbrev pub AreEntries : List MailboxConfig → List Section → Type 0
AreEntries [] [] = Unit
AreEntries (mb ∷ mbs) (section ∷ sections) = IsEntry mb section × AreEntries mbs sections
AreEntries _ _ = ⊥

required_iff :
    (section : Section) (i : ℕ) (field value : String)
    → (required section i field ≡ ok value) ↔ (section.get_string field ≡ some value)
unfolding required
required_iff section i field value = ground arith

load_mailbox_iff :
    (i : ℕ) (section : Section) (mb : MailboxConfig)
    → (load_mailbox i section ≡ ok mb) ↔ IsEntry mb section
unfolding load_mailbox required
load_mailbox_iff i section mb = ground arith

load_entries_iff :
    (i : ℕ) (sections : List Section) (mbs : List MailboxConfig)
    → (load_entries i sections ≡ ok mbs) ↔ AreEntries mbs sections
unfolding load_entries
load_entries_iff i [] [] = ground arith
load_entries_iff i [] (mb ∷ mbs) = ground arith
load_entries_iff i (section ∷ sections) [] = ground arith
load_entries_iff i (section ∷ sections) (mb ∷ mbs) =
    ground (arith, load_mailbox_iff i section mb, load_entries_iff (i + 1) sections mbs)

module _ (doc : Document) (mbs : List MailboxConfig) where
  -- The entries that a list of mailboxes was loaded from.
  abbrev pub Entries : Type 0
  Entries =
      (sections : List Section) × (doc.table_array "mailbox" ≡ some sections)
      × AreEntries mbs sections

  load_mailbox_configs_found :
      (sections : List Section)
      → doc.table_array "mailbox" ≡ some sections
      → (load_mailbox_configs doc ≡ ok mbs) ↔ ((mbs ≢ []) × AreEntries mbs sections)
  unfolding load_mailbox_configs
  load_mailbox_configs_found [] e =
      rw (e, load_mailbox_configs)
        (elim (List-cases mbs) [
          | inl g ↦ rw g (ground arith)
          | inr (mb, rest, g) ↦ rw g (ground arith)
        ])
  load_mailbox_configs_found (section ∷ sections) e =
      rw (e, load_mailbox_configs)
        (elim (List-cases mbs) [
          | inl g ↦ rw g (ground (arith, load_entries_iff 0 (section ∷ sections) []))
          | inr (mb, rest, g) ↦
              rw g (ground (arith, load_entries_iff 0 (section ∷ sections) (mb ∷ rest)))
        ])

  -- The mailboxes are loaded, as `mbs`, exactly when the document has the array and `mbs` is not
  -- empty and has one mailbox for each entry, in order, with the values of the entry's five fields.
  pub load_mailbox_configs_iff : (load_mailbox_configs doc ≡ ok mbs) ↔ ((mbs ≢ []) × Entries)
  unfolding load_mailbox_configs
  load_mailbox_configs_iff = (
    (λ h. elim (Option-cases (doc.table_array "mailbox")) [
      | inl e ↦ absurd (cc (rw (load_mailbox_configs, e) at h))
      | inr (sections, e) ↦
          let both = (load_mailbox_configs_found sections e).0 h in (both.0, (sections, e, both.1))
    ]),
    (λ h. (load_mailbox_configs_found h.1.0 h.1.1).1 (h.0, h.1.2)),
  )

module _ (h : Host) where
  -- A configuration is only ever loaded from a file whose mode is 0600.
  pub load-check_file_permissions :
      (path : String) (c : Config) → load h path ≡ ok c → h.stat path ≡ ok required_file_mode
  unfolding load check_file_permissions
  load-check_file_permissions path c e = ground (arith, nat_eq.beq_iff)
