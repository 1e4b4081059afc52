-- ===== src/Base/Keeps.antt =====
-- Properties of the state that a method keeps, whether it returns or fails.
use mathlib.Core.Path.{◌≡◌, refl}
use go_boxcopy.Base.Errors.{Error, Result, ok, err}
use go_boxcopy.Base.Exec.{Exec, raise, resume, handle, ◌>>=◌}

abbrev pub Keeps {ℓ κ} : {S A : Type ℓ} → (S → Type κ) → Exec S A → Type (ℓ ⊔ κ)
Keeps {S} P m = (s : S) → P s → P (m s).1

module _ {ℓ κ} {S A B : Type ℓ} (P : S → Type κ) where
  -- The rest of the program may use that the call returned `a`.
  pub resume_rule :
      (f : A → Exec S B) (g : Error → Exec S B) (r : Result A × S)
      → ((a : A) → r.0 ≡ ok a → P (f a r.1).1)
      → ((e : Error) → P (g e r.1).1)
      → P (resume f g r).1
  resume_rule f g (ok a, s) kf kg = kf a refl
  resume_rule f g (err e, s) kf kg = kg e

  pub Keeps-handle :
      (m : Exec S A) (f : A → Exec S B) (g : Error → Exec S B)
      → Keeps P m
      → ((a : A) → Keeps P (f a))
      → ((e : Error) → Keeps P (g e))
      → Keeps P (handle m f g)
  unfolding handle
  Keeps-handle m f g km kf kg s h =
      resume_rule f g (m s) (λ a _. kf a (m s).1 (km s h)) (λ e. kg e (m s).1 (km s h))

  pub Keeps-bind :
      (m : Exec S A) (f : A → Exec S B) → Keeps P m → ((a : A) → Keeps P (f a)) → Keeps P (m >>= f)
  Keeps-bind m f km kf = Keeps-handle m f raise km kf (λ e s h. h)
