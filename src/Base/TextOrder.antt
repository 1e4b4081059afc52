-- ===== src/Base/TextOrder.antt =====
-- The order of texts by their characters, which is that of Go's `<` on strings.
use Prim.Native.Nat.{Ordering}
use Prim.Native.Char.{Char, code}
use Prim.Native.String.compare as compare_text
use Prim.Native.String.append
use Prim.Native.String.{String, compare as compare_text, then as then_by, ◌++◌}
use text.Mathlib.Text.{is_lt}
use mathlib.Core.Path.{◌≡◌, refl, ap, ◌∙◌}
use mathlib.Core.Bool.{Bool, true, false, ◌||◌, ◌&&◌}
use native.Mathlib.Omega.{arith}
use go_boxcopy.Base.Tests.{ltb, eqb}

-- s < t
unfoldable pub precedes : String → String → Bool
precedes s t = is_lt (compare_text s t)

precedes-nil : (c : Char) (s : String) → precedes String.[] (String.◌∷◌ c s) ≡ true
unfolding precedes
precedes-nil c s = ap is_lt (compare_text.nil-cons c s)

precedes_nil : (s : String) → precedes s String.[] ≡ false
unfolding precedes
precedes_nil String.[] = ap is_lt compare_text.nil-nil
precedes_nil (String.◌∷◌ c s) = ap is_lt (compare_text.cons-nil c s)

is_lt-then :
    (o p : Ordering)
    → is_lt (then_by o p) ≡ (
        elim o [ Ordering.lt ↦ true | _ ↦ false ]
        || (elim o [ Ordering.eq ↦ true | _ ↦ false ] && is_lt p))
is_lt-then Ordering.lt p = refl
is_lt-then Ordering.eq p = refl
is_lt-then Ordering.gt p = refl

precedes-cons :
    (c d : Char) (s t : String)
    → precedes (String.◌∷◌ c s) (String.◌∷◌ d t)
      ≡ (ltb (code c) (code d) || (eqb (code c) (code d) && precedes s t))
unfolding precedes
precedes-cons c d s t = ap is_lt (compare_text.cons-cons c d s t) ∙ is_lt-then _ (compare_text s t)

pub precedes_asym : (s t : String) → precedes s t ≡ true → precedes t s ≡ false
precedes_asym String.[] t h = precedes_nil t
precedes_asym (String.◌∷◌ c s) String.[] h = ground (arith, precedes_nil (String.◌∷◌ c s))
precedes_asym (String.◌∷◌ c s) (String.◌∷◌ d t) h =
    ground (arith, precedes-cons c d s t, precedes-cons d c t s, precedes_asym s t)

-- s ≥ t and t ≥ u
pub precedes_trans :
    (s t u : String) → precedes s t ≡ false → precedes t u ≡ false → precedes s u ≡ false
precedes_trans s t String.[] h k = precedes_nil s
precedes_trans s String.[] (String.◌∷◌ e u) h k = ground (arith, precedes-nil e u)
precedes_trans String.[] (String.◌∷◌ d t) (String.◌∷◌ e u) h k = ground (arith, precedes-nil d t)
precedes_trans (String.◌∷◌ c s) (String.◌∷◌ d t) (String.◌∷◌ e u) h k = ground (
  arith,
  precedes-cons c d s t,
  precedes-cons d e t u,
  precedes-cons c e s u,
  precedes_trans s t u,
)

-- A text comes before those that go on after it.
pub precedes-append : (s : String) (c : Char) (t : String) → precedes s (s ++ String.◌∷◌ c t) ≡ true
precedes-append String.[] c t = rw (append.nil (String.◌∷◌ c t)) (precedes-nil c t)
precedes-append (String.◌∷◌ d s) c t =
    let rest = s ++ String.◌∷◌ c t in
    rw (append.cons d s (String.◌∷◌ c t))
      (ground (arith, precedes-cons d d s rest, precedes-append s c t))
