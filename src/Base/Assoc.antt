-- ===== src/Base/Assoc.antt =====
-- Go maps as association lists. The order of the entries stands for the order in which a `range`
-- over the map visits them.
use Prim.Native.Nat.{◌+◌}
use mathlib.Core.Path.{◌≡◌, refl}
use mathlib.Core.Option.{Option, none, some}
use mathlib.Core.List.{List, [], ◌∷◌, map}
use native.Mathlib.Omega.{arith}
use go_boxcopy.Base.Tests.{if◌then◌else◌}
use go_boxcopy.Base.Lists.{length}
use go_boxcopy.Base.Equality.{Eq, ◌==◌, beq_refl}

abbrev pub Assoc {ℓ κ} : Type ℓ → Type κ → Type (ℓ ⊔ κ)
Assoc K V = List (K × V)

module _ {ℓ κ} {K : Type ℓ} {V : Type κ} where
  abbrev pub keys : Assoc K V → List K
  keys = map (λ e. e.0)

module _ {ℓ κ} {K : Type ℓ} {V : Type κ} ⦃e : Eq K⦄ where
  -- m[k], with whether it was there
  unfoldable pub lookup : K → Assoc K V → Option V
  lookup k [] = none
  lookup k ((j, v) ∷ m) = if j == k then some v else lookup k m

  -- m[k] = v
  unfoldable pub insert : K → V → Assoc K V → Assoc K V
  insert k v [] = (k, v) ∷ []
  insert k v ((j, w) ∷ m) = if j == k then (j, v) ∷ m else (j, w) ∷ insert k v m

  pub lookup-insert :
      (put asked : K) (v : V) (m : Assoc K V)
      → lookup asked (insert put v m) ≡ (if put == asked then some v else lookup asked m)
  unfolding insert lookup
  lookup-insert put asked v [] = refl
  lookup-insert put asked v ((j, w) ∷ m) =
      ground (
        arith,
        lookup-insert put asked v m,
        e.beq_iff put asked,
        e.beq_iff j put,
        e.beq_iff j asked,
      )

  pub lookup-insert_self : (k : K) (v : V) (m : Assoc K V) → lookup k (insert k v m) ≡ some v
  lookup-insert_self k v m = simp (lookup-insert, beq_refl)

  pub insert-insert : (k : K) (v w : V) (m : Assoc K V) → insert k v (insert k w m) ≡ insert k v m
  unfolding insert
  insert-insert k v w [] = ground (arith, beq_refl k)
  insert-insert k v w ((i, u) ∷ m) = ground (arith, insert-insert k v w m)

  -- No key twice, which a Go map gives for nothing.
  abbrev pub Distinct : Assoc K V → Type κ
  Distinct [] = Unit
  Distinct ((k, v) ∷ m) = (lookup k m ≡ none) × Distinct m

  pub insert-Distinct : (k : K) (v : V) (m : Assoc K V) → Distinct m → Distinct (insert k v m)
  unfolding lookup insert
  insert-Distinct k v [] d = (refl, tt)
  insert-Distinct k v ((j, w) ∷ m) d =
      ground (arith, insert-Distinct k v m, lookup-insert k j v m, e.beq_iff j k, e.beq_iff k j)

  pub length-insert :
      (k : K) (v : V) (m : Assoc K V)
      → length (insert k v m) ≡ length m + (elim (lookup k m) [ none ↦ 1 | some _ ↦ 0 ])
  unfolding lookup insert
  length-insert k v [] = omega arith
  length-insert k v ((j, w) ∷ m) = ground (arith, length-insert k v m)

  pub insert-lookup : (k : K) (v : V) (m : Assoc K V) → lookup k m ≡ some v → insert k v m ≡ m
  unfolding lookup insert
  insert-lookup k v [] h = cc
  insert-lookup k v ((j, w) ∷ m) h = ground (arith, insert-lookup k v m)
