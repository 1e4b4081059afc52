-- ===== src/Base/Sorted.antt =====
-- What `sort_by` returns is sorted.
use mathlib.Core.Path.{◌≡◌}
use mathlib.Core.Bool.{Bool, true, false}
use mathlib.Core.List.{List, [], ◌∷◌}
use mathlib.Core.Logic.{inl, inr}
use go_boxcopy.Base.Tests.{Bool-cases}
use go_boxcopy.Base.Lists.{All, All-imply}
use go_boxcopy.Base.Sort.{insert_by, sort_by}

-- Each entry stands in the relation to all that come after it.
abbrev pub Pairwise {ℓ κ} : {A : Type ℓ} → (A → A → Type κ) → List A → Type κ
Pairwise R [] = Unit
Pairwise R (x ∷ xs) = All (R x) xs × Pairwise R xs

module _ {ℓ} {A : Type ℓ} (le : A → A → Bool) (total : (x y : A) → le x y ≡ false → le y x ≡ true)
    (trans : (x y z : A) → le x y ≡ true → le y z ≡ true → le x z ≡ true) where
  abbrev Le : A → A → Type 0
  Le x y = le x y ≡ true

  All-insert_by {κ} :
      (P : A → Type κ) (x : A) (ys : List A) → P x → All P ys → All P (insert_by le x ys)
  unfolding insert_by
  All-insert_by P x [] h k = (h, tt)
  All-insert_by P x (y ∷ ys) h k = elim (Bool-cases (le x y)) [
    | inl e ↦ rw (insert_by, e) (h, k)
    | inr e ↦ rw (insert_by, e) (k.0, All-insert_by P x ys h k.1)
  ]

  insert_by-Pairwise : (x : A) (ys : List A) → Pairwise Le ys → Pairwise Le (insert_by le x ys)
  unfolding insert_by
  insert_by-Pairwise x [] h = (tt, tt)
  insert_by-Pairwise x (y ∷ ys) h = elim (Bool-cases (le x y)) [
    | inl e ↦ rw (insert_by, e) ((e, All-imply (λ z. trans x y z e) ys h.0), h)
    | inr e ↦
        rw (insert_by, e) (All-insert_by (Le y) x ys (total x y e) h.0, insert_by-Pairwise x ys h.1)
  ]

  pub sort_by-Pairwise : (xs : List A) → Pairwise Le (sort_by le xs)
  unfolding sort_by
  sort_by-Pairwise [] = tt
  sort_by-Pairwise (x ∷ xs) = insert_by-Pairwise x (sort_by le xs) (sort_by-Pairwise xs)

module _ {ℓ κ μ} {A : Type ℓ} {R : A → A → Type κ} {S : A → A → Type μ} where
  pub Pairwise-imply : ((x y : A) → R x y → S x y) → (xs : List A) → Pairwise R xs → Pairwise S xs
  Pairwise-imply f [] h = tt
  Pairwise-imply f (x ∷ xs) h = (All-imply (f x) xs h.0, Pairwise-imply f xs h.1)
