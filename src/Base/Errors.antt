-- ===== src/Base/Errors.antt =====
-- Go errors: `fmt.Errorf` keeps its format and arguments, `%w` keeps the wrapped error. An error
-- of a library that the program calls is a text.
use Prim.Native.Nat.{ℕ}
use go_boxcopy.Base.Int.{ℤ}
use Prim.Native.String.{String}
use mathlib.Core.Path.{◌≡◌, refl}
use mathlib.Core.Logic.{◌⊎◌, inl, inr}
use mathlib.Core.Option.{Option, none, some}
use mathlib.Core.List.{List}

pub data Arg : Type 0 where
  str : String → Arg
  num : ℕ → Arg
  int : ℤ → Arg

pub data Error : Type 0 where
  external : String → Error
  errorf : String → List Arg → Error
  wrapf : String → List Arg → Error → Error
  -- the panic of a method call on a nil pointer
  nil_dereference : Error

infixl 5 ◌>>=◌
pub data Result {ℓ} (A : Type ℓ) : Type ℓ where
  err : Error → Result A
  ok : A → Result A

pub Result-cases {ℓ} :
    {A : Type ℓ} (r : Result A) → (((a : A) × (r ≡ ok a)) ⊎ ((e : Error) × (r ≡ err e)))
Result-cases (err e) = inr (e, refl)
Result-cases (ok a) = inl (a, refl)

abbrev pub ◌>>=◌ {ℓ κ} : {A : Type ℓ} {B : Type κ} → Result A → (A → Result B) → Result B
err e >>= next = err e
ok a >>= next = next a

-- `if err != nil { return fmt.Errorf(format, args, err) }`
abbrev pub failing : String → List Arg → Option Error → Result (Unit {0})
failing format args none = ok tt
failing format args (some e) = err (wrapf format args e)

abbrev pub relabel {ℓ} : {A : Type ℓ} → String → List Arg → Result A → Result A
relabel format args (ok a) = ok a
relabel format args (err e) = err (wrapf format args e)
