-- ===== src/Base/Int.antt =====
-- Go's `int`, as far as the program compares it. The machine's bounds play no part: the configured
-- numbers are read, stored and compared, never computed with.
use go_boxcopy.Base.Tests.{leb}
use Prim.Native.Nat.{ℕ}
use mathlib.Core.Bool.{Bool, true}

-- `negsuc n` is -(n + 1).
pub data ℤ : Type 0 where
  pos : ℕ → ℤ
  negsuc : ℕ → ℤ

-- n < 1
abbrev pub is_less_than_one : ℤ → Bool
is_less_than_one (pos n) = leb n 0
is_less_than_one (negsuc n) = true
