-- ===== src/Base/Exec.antt =====
-- Methods of a Go object that return an error: the state that they leave comes with either outcome.
use go_boxcopy.Base.Errors.{Error, Result, ok, err}

abbrev pub Exec {ℓ} : Type ℓ → Type ℓ → Type ℓ
Exec S A = S → Result A × S

module _ {ℓ} {S A : Type ℓ} where
  abbrev pub pure : A → Exec S A
  pure a s = (ok a, s)

  abbrev pub raise : Error → Exec S A
  raise e s = (err e, s)

  abbrev pub lift : Result A → Exec S A
  lift r s = (r, s)

module _ {ℓ} {S A B : Type ℓ} where
  -- A call, and what the program does with its result on either path.
  abbrev pub resume : (A → Exec S B) → (Error → Exec S B) → Result A × S → Result B × S
  resume f g (ok a, s) = f a s
  resume f g (err e, s) = g e s

  unfoldable pub handle : Exec S A → (A → Exec S B) → (Error → Exec S B) → Exec S B
  handle m f g s = resume f g (m s)

  infixl 5 ◌>>=◌ ◌>>◌
  abbrev pub ◌>>=◌ : Exec S A → (A → Exec S B) → Exec S B
  m >>= f = handle m f raise

  abbrev pub ◌>>◌ : Exec S A → Exec S B → Exec S B
  m >> k = m >>= λ _. k
