-- ===== src/Base/Sort.antt =====
-- Sorting, for `sort.Slice`, `sort.Strings` and `slices.Sort`.
use Prim.Native.Nat.{ℕ, ◌<◌}
use mathlib.Core.Path.{◌≡◌, refl}
use mathlib.Core.Bool.{Bool, true, false, ◌||◌}
use mathlib.Core.List.{List, [], ◌∷◌}
use mathlib.Core.Logic.{inl, inr}
use native.Mathlib.Omega.{arith}
use go_boxcopy.Base.Tests.{leb, Bool-cases, if◌then◌else◌}
use go_boxcopy.Base.Equality.{Eq, ◌==◌, nat_eq, contains}

module _ {ℓ} {A : Type ℓ} (le : A → A → Bool) where
  unfoldable pub insert_by : A → List A → List A
  insert_by x [] = x ∷ []
  insert_by x (y ∷ ys) = if le x y then x ∷ y ∷ ys else y ∷ insert_by x ys

  unfoldable pub sort_by : List A → List A
  sort_by [] = []
  sort_by (x ∷ xs) = insert_by x (sort_by xs)

module _ {ℓ} {A : Type ℓ} ⦃e : Eq A⦄ (le : A → A → Bool) where
  contains-insert_by :
      (x : A) (ys : List A) (z : A) → contains (insert_by le x ys) z ≡ (x == z || contains ys z)
  unfolding insert_by contains
  contains-insert_by x [] z = refl
  contains-insert_by x (y ∷ ys) z = ground (arith, contains-insert_by x ys z)

  -- Sorting keeps the members.
  pub contains-sort_by : (xs : List A) (z : A) → contains (sort_by le xs) z ≡ contains xs z
  unfolding sort_by contains
  contains-sort_by [] z = refl
  contains-sort_by (x ∷ xs) z =
      ground (arith, contains-insert_by x (sort_by le xs) z, contains-sort_by xs z)

-- Numbers in ascending order, none twice.
abbrev pub Ascends : List ℕ → Type 0
Ascends [] = Unit
Ascends (x ∷ xs) = ((y : ℕ) → contains xs y ≡ true → x < y) × Ascends xs

pub insert_by-Ascends :
    (x : ℕ) (ys : List ℕ) → contains ys x ≡ false → Ascends ys → Ascends (insert_by leb x ys)
unfolding insert_by contains
insert_by-Ascends x [] h a = ((λ y e. cc), tt)
insert_by-Ascends x (y ∷ ys) h a = elim (Bool-cases (leb x y)) [
  | inl e ↦ rw e ((λ z f. ground (arith, a.0 z)), a)
  | inr e ↦ rw e (
    (λ z f. ground (arith, a.0 z, contains-insert_by leb x ys z)),
    insert_by-Ascends x ys (ground arith) a.1,
  )
]

-- Two ascending lists with the same members are the same list.
pub Ascends-unique :
    (xs ys : List ℕ) → Ascends xs → Ascends ys → ((z : ℕ) → contains xs z ≡ contains ys z) → xs ≡ ys
unfolding contains
Ascends-unique [] [] a b h = refl
Ascends-unique [] (y ∷ ys) a b h = ground (arith, h y)
Ascends-unique (x ∷ xs) [] a b h = ground (arith, h x)
Ascends-unique (x ∷ xs) (y ∷ ys) a b h =
    let heads : x ≡ y = ground (arith, h x, h y, a.0 y, b.0 x) in
    let tails = Ascends-unique xs ys a.1 b.1 (λ z. ground (arith, h z, heads, a.0 z, b.0 z)) in
    cc (heads, tails)
