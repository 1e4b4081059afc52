-- ===== src/State/UidSet.antt =====
-- internal/state/state.go: `UIDSet`, a Go map with no values. The order of the list stands for the
-- order in which a `range` visits the set.
use go_boxcopy.Base.{
  ℕ, ◌≡◌, List, [], ◌∷◌, ◌||◌, arith, length, contains, ◌==◌, nat_eq, eqb_iff, if◌then◌else◌,
}

abbrev pub UidSet : Type 0
UidSet = List ℕ

unfoldable pub add : UidSet → ℕ → UidSet
add u uid = if contains u uid then u else uid ∷ u

unfoldable pub remove : UidSet → ℕ → UidSet
remove [] uid = []
remove (x ∷ u) uid = let rest = remove u uid in if x == uid then rest else x ∷ rest

unfoldable pub len : UidSet → ℕ
len u = length u

unfoldable pub to_slice : UidSet → List ℕ
to_slice [] = []
to_slice (uid ∷ u) = uid ∷ to_slice u

pub contains-add : (u : UidSet) (uid x : ℕ) → contains (add u uid) x ≡ (uid == x || contains u x)
unfolding add contains
contains-add u uid x = ground (arith, eqb_iff uid x)
