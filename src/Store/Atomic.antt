-- ===== src/Store/Atomic.antt =====
-- internal/state/store.go: a save is atomic, whatever fails and wherever the program stops.
use go_boxcopy.Base.{
  false, String, ◌≡◌, refl, Option, none, some, ◌⊎◌, inl, inr, arith, string_eq, All, Option-cases,
}
use go_boxcopy.Base.Assoc.{lookup, insert, lookup-insert, lookup-insert_self}
use go_boxcopy.Base.Errors.{Result, ok, err}
use go_boxcopy.State.Data.{Time, State}
use go_boxcopy.Store.Disk.{remove, rename, temp_path, temp_path-ne, lookup-remove}
use go_boxcopy.Store.File.{marshal}
use go_boxcopy.Store.Ops.{
  final, Content, document, Disk, Faults, leave, try_remove, save_unlocked, save,
}

module _ (s : State) (now : Time) (faults : Faults) (disk : Disk) where
  -- The file of the state is the old one, or the whole new one.
  abbrev pub IsOldOrNew : Disk → Type 0
  IsOldOrNew d =
      (lookup s.path d ≡ lookup s.path disk) ⊎ (lookup s.path d ≡ some (document (marshal s now)))

  abbrev temp : String
  temp = temp_path s.path

  abbrev written : Disk
  written = insert temp (document (marshal s now)) disk

  lookup-written : lookup s.path written ≡ lookup s.path disk
  lookup-written =
      ground (arith, lookup-insert temp s.path (document (marshal s now)) disk, temp_path-ne s.path)

  lookup-leave : (o : Option Content) → lookup s.path (leave temp o disk) ≡ lookup s.path disk
  lookup-leave none = refl
  lookup-leave (some c) = ground (arith, lookup-insert temp s.path c disk, temp_path-ne s.path)

  lookup-try_remove : lookup s.path (try_remove faults temp written) ≡ lookup s.path disk
  lookup-try_remove =
      ground (arith, lookup-remove temp s.path written, lookup-written, temp_path-ne s.path)

  lookup-rename : lookup s.path (rename temp s.path written) ≡ some (document (marshal s now))
  unfolding rename
  lookup-rename = ground (
    arith,
    lookup-insert_self temp (document (marshal s now)) disk,
    lookup-insert_self s.path (document (marshal s now)) (remove temp written),
  )

  -- After every system call of a save that touches the disk, the last one or not, and whichever
  -- fails, the state file is the old one or the whole new one.
  pub save-IsOldOrNew : All IsOldOrNew (save s now faults disk).disks
  unfolding save
  save-IsOldOrNew = elim (Option-cases faults.marshal_error) [
    | inr (e, j) ↦ rw (j, save_unlocked) tt
    | inl j ↦ elim (Option-cases faults.mkdir_error) [
      | inr (e, h) ↦ rw (j, h, save_unlocked) tt
      | inl h ↦ elim (Option-cases faults.write_error) [
        | inr (e, w) ↦ rw (j, h, w, save_unlocked) (inl (lookup-leave faults.written), tt)
        | inl w ↦ elim (Option-cases faults.rename_error) [
          | inr (e, r) ↦
              rw (j, h, w, r, save_unlocked) (inl lookup-try_remove, (inl lookup-written, tt))
          | inl r ↦ rw (j, h, w, r, save_unlocked) (inr lookup-rename, (inl lookup-written, tt))
        ]
      ]
    ]
  ]

  lookup-temp : lookup temp (rename temp s.path written) ≡ none
  unfolding rename
  lookup-temp = ground (
    arith,
    lookup-insert_self temp (document (marshal s now)) disk,
    lookup-insert s.path temp (document (marshal s now)) (remove temp written),
    lookup-remove temp temp written,
    string_eq.beq_iff temp temp,
    string_eq.beq_iff temp s.path,
    string_eq.beq_iff s.path temp,
    temp_path-ne s.path,
  )

  -- What a save promises: on success the new document, a clean state and no temporary file; on an
  -- error the old file, and a state that is as dirty as before.
  abbrev pub Promise : Result (Unit {0}) → State → Disk → Type 0
  Promise (ok _) t d =
      (lookup s.path d ≡ some (document (marshal s now)))
      × (lookup (temp_path s.path) d ≡ none)
      × (t ≡ record s { dirty = false })
  Promise (err _) t d = (lookup s.path d ≡ lookup s.path disk) × (t ≡ s)

  -- A save that succeeds leaves the new document at its path, no temporary file, and a clean state;
  -- one that fails, in the encoder or whichever system call it is, leaves the file at its path and the state as they
  -- were.
  pub save-Promise :
      Promise
        (save s now faults disk).result
        (save s now faults disk).state
        (final disk (save s now faults disk))
  unfolding save final
  save-Promise = elim (Option-cases faults.marshal_error) [
    | inr (e, j) ↦ rw (j, save_unlocked) (refl, refl)
    | inl j ↦ elim (Option-cases faults.mkdir_error) [
      | inr (e, h) ↦ rw (j, h, save_unlocked) (refl, refl)
      | inl h ↦ elim (Option-cases faults.write_error) [
        | inr (e, w) ↦ rw (j, h, w, save_unlocked) (lookup-leave faults.written, refl)
        | inl w ↦ elim (Option-cases faults.rename_error) [
          | inr (e, r) ↦ rw (j, h, w, r, save_unlocked) (lookup-try_remove, refl)
          | inl r ↦ rw (j, h, w, r, save_unlocked) (lookup-rename, lookup-temp, refl)
        ]
      ]
    ]
  ]
