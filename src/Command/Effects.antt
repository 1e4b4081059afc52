-- ===== src/Command/Effects.antt =====
-- cmd/boxcopy/main.go: what the commands change, and what their success says.
use go_boxcopy.Base.{
  ℕ, String, ◌≡◌, refl, true, false, not, ◌&&◌, Option, none, some, ◌⊎◌, inl, inr, arith, ◌==◌,
  string_eq, nat_eq, Bool-cases, Option-cases, ap, subst, if◌then◌else◌,
}
use go_boxcopy.Base.Assoc.{lookup, lookup-insert}
use go_boxcopy.Base.Errors.{Result, ok, err}
use go_boxcopy.Store.Ops.{Content, plain}
use go_boxcopy.Config.Host.{Host}
use go_boxcopy.Config.Load.{required_file_mode}
use go_boxcopy.Command.Data.{InitFlags, InitFaults, Files}
use go_boxcopy.Command.Init.{
  expand_home, config_template, is_found, write_file, write_failed, cmd_init,
}

-- What is at a path: the content of the file and its mode.
abbrev pub file_at : String → Files → Option Content × Option ℕ
file_at j files = (lookup j files.disk, lookup j files.modes)

-- A file keeps its mode, and a new one has the mode 0600.
abbrev pub mode_after : String → Files → Option ℕ
mode_after j files = elim (lookup j files.disk) [
  | none ↦ some required_file_mode
  | some _ ↦ lookup j files.modes
]

modes-write_file :
    (path j : String) (content : Content) (files : Files)
    → lookup j (write_file path content required_file_mode files).modes
      ≡ (if path == j then mode_after j files else lookup j files.modes)
unfolding write_file
modes-write_file path j content files =
    let new = lookup-insert path j required_file_mode files.modes in
    elim (Bool-cases (path == j)) [
      | inl e ↦
          let same = (string_eq.beq_iff path j).0 e in
          elim (Option-cases (lookup path files.disk)) [
            | inl f ↦ ground (arith, new, same, f, e)
            | inr (c, f) ↦ ground (arith, new, same, f, e)
          ]
      | inr e ↦ elim (Option-cases (lookup path files.disk)) [
        | inl f ↦ ground (arith, new, e, f)
        | inr (c, f) ↦ ground (arith, e, f)
      ]
    ]

file_at-write_file :
    (path j : String) (content : Content) (files : Files)
    → file_at j (write_file path content required_file_mode files)
      ≡ (if path == j then (some content, mode_after j files) else file_at j files)
unfolding write_file
file_at-write_file path j content files =
    let new = lookup-insert path j content files.disk in
    let mode = modes-write_file path j content files in
    elim (Bool-cases (path == j)) [
      | inl e ↦ rw e (λ t. ((rw e at new) t, (rw e at mode) t))
      | inr e ↦ rw e (λ t. ((rw e at new) t, (rw e at mode) t))
    ]

module _ (h : Host) (faults : InitFaults) (flags : InitFlags) (files : Files) where
  abbrev out_path : String
  out_path = expand_home h flags.output

  abbrev IsFree : Type 0
  IsFree = (flags.force ≡ true) ⊎ (is_found faults out_path files ≡ false)

  -- What `init` leaves of the file at `j`.
  abbrev pub Left : Result (Unit {0}) → Files → String → Type 0
  Left (ok _) after j =
      IsFree
      × (file_at j after ≡ (
          if out_path == j
          then (some (plain config_template), mode_after j files)
          else file_at j files))
  Left (err _) after j =
      (file_at j after ≡ file_at j files)
      ⊎ (IsFree
          × ((out_path == j) ≡ true)
          × ((part : Content) × (faults.written ≡ some part)
              × (file_at j after ≡ (some part, mode_after j files))))

  -- From the check for an existing file on.
  write_template-Left :
      (j : String)
      → IsFree
      → (is_found faults out_path files && not flags.force) ≡ false
      → Left (cmd_init h faults flags files).0 (cmd_init h faults flags files).1 j
  unfolding cmd_init write_failed
  write_template-Left j free e =
      let dir = h.dir out_path in
      let made = if not (dir == "") && not (dir == ".") then faults.mkdir_error else none in
      elim (Option-cases made) [
        | inr (d, f) ↦ rw (cmd_init, e, f) (inl refl)
        | inl f ↦ elim (Option-cases faults.write_error) [
          | inl g ↦
              rw (cmd_init, e, f, g)
                (free, file_at-write_file out_path j (plain config_template) files)
          | inr (d, g) ↦ elim (Option-cases faults.written) [
            | inl w ↦ rw (cmd_init, e, f, g, w) (inl refl)
            | inr (part, w) ↦
                let after = file_at-write_file out_path j part files in
                elim (Bool-cases (out_path == j)) [
                  | inl k ↦
                      rw (cmd_init, e, f, g, w, write_failed)
                        (inr (free, k, (part, refl, rw k at after)))
                  | inr k ↦ rw (cmd_init, e, f, g, w, write_failed) (inl (rw k at after))
                ]
          ]
        ]
      ]

  -- The disk alone, for either outcome.
  Left-disk :
      (r : Result (Unit {0})) (after : Files) (j : String)
      → Left r after j
      → (lookup j after.disk ≡ lookup j files.disk)
        ⊎ ((out_path ≡ j) × ((flags.force ≡ true) ⊎ (is_found faults j files ≡ false)))
  Left-disk (err e) after j (inl same) = inl (ap (λ p. p.0) same)
  Left-disk (err e) after j (inr left) =
      let here = (string_eq.beq_iff out_path j).0 left.1 in
      inr (here, subst (λ p. (flags.force ≡ true) ⊎ (is_found faults p files ≡ false)) here left.0)
  Left-disk (ok _) after j left = elim (Bool-cases (out_path == j)) [
    | inr e ↦ inl (ap (λ p. p.0) (rw e at left.1))
    | inl e ↦
        let here = (string_eq.beq_iff out_path j).0 e in
        inr
          (here, subst (λ p. (flags.force ≡ true) ⊎ (is_found faults p files ≡ false)) here left.0)
  ]

  -- `init` writes the template only where it finds no file or is told to overwrite it, and changes no
  -- other file. A new file has the mode 0600; a file that was there keeps its mode. After an error
  -- every file is as it was, unless the write itself has failed midway: then the output, which was
  -- free to be written, holds what the write has left there.
  pub cmd_init-Left :
      (j : String) → Left (cmd_init h faults flags files).0 (cmd_init h faults flags files).1 j
  unfolding cmd_init
  cmd_init-Left j = elim (Bool-cases (is_found faults out_path files && not flags.force)) [
    | inl e ↦ rw (cmd_init, e) (inl refl)
    | inr e ↦
        write_template-Left j
          (elim (Bool-cases flags.force) [ inl f ↦ inl f | inr f ↦ inr (ground arith) ]) e
  ]

  -- A file that `init` changes is its output, and was free to be written.
  pub cmd_init_disk :
      (j : String)
      → (lookup j (cmd_init h faults flags files).1.disk ≡ lookup j files.disk)
        ⊎ ((out_path ≡ j) × ((flags.force ≡ true) ⊎ (is_found faults j files ≡ false)))
  cmd_init_disk j =
      Left-disk (cmd_init h faults flags files).0 (cmd_init h faults flags files).1 j
        (cmd_init-Left j)
