-- ===== src/Store/Disk.antt =====
-- The part of the file system that the state file lives in: the documents by their paths. A system
-- call that can fail takes the failure as an argument.

use text.Mathlib.TextLemmas.{length-append}
use Prim.Native.String.{◌++◌ as append, count}
use go_boxcopy.Base.{
  Bool-cases, inl, inr, ap, String, ◌≡◌, false, [], ◌∷◌, none, some, arith, ◌==◌, string_eq,
  if◌then◌else◌,
}
use go_boxcopy.Base.Assoc.{Assoc, lookup, insert}

module _ {ℓ} {C : Type ℓ} where
  -- os.Remove of a file
  unfoldable pub remove : String → Assoc String C → Assoc String C
  remove path [] = []
  remove path ((j, c) ∷ disk) =
      let rest = remove path disk in if j == path then rest else (j, c) ∷ rest

  pub lookup-remove :
      (path j : String) (disk : Assoc String C)
      → lookup j (remove path disk) ≡ (if path == j then none else lookup j disk)
  unfolding remove lookup
  lookup-remove path j [] = ground arith
  lookup-remove path j ((i, c) ∷ disk) = ground (
    arith,
    lookup-remove path j disk,
    string_eq.beq_iff i path,
    string_eq.beq_iff i j,
    string_eq.beq_iff path j,
  )

  -- os.Rename: the old name goes, the new one holds its file.
  unfoldable pub rename : String → String → Assoc String C → Assoc String C
  rename old path disk = elim (lookup old disk) [
    | none ↦ disk
    | some c ↦ insert path c (remove old disk)
  ]

-- path + ".tmp"
abbrev pub temp_path : String → String
temp_path path = append path ".tmp"

pub temp_path-ne : (path : String) → (temp_path path == path) ≡ false
temp_path-ne path = elim (Bool-cases (temp_path path == path)) [
  | inl e ↦
      absurd (omega (arith, ap count ((string_eq.beq_iff _ path).0 e), length-append path ".tmp"))
  | inr e ↦ e
]
