-- ===== src/Prelude/Ints.antt =====
-- Go's signed integers, as whole numbers: the code that reads them only compares them with constants.
use Prim.Native.Nat.{ℕ, zero, suc, ◌≤◌}
use mathlib.Core.Path.{◌≡◌}
use mathlib.Core.Bool.{Bool, true, false, ◌&&◌}
use native.Mathlib.Omega.{arith}
use remote_code.Prelude.Tests.{leb}

-- `negsuc n` is -1 - n.
pub data ℤ : Type 0 where
  pos negsuc : ℕ → ℤ

abbrev pub in_range : ℕ → ℕ → ℤ → Bool
in_range lo hi (pos n) = leb lo n && leb n hi
in_range lo hi (negsuc n) = false

-- A field that is missing from a document reads as 0.
abbrev pub int_or : ℕ → ℤ → ℤ
int_or value (pos zero) = pos value
int_or value (pos (suc n)) = pos (suc n)
int_or value (negsuc n) = negsuc n

abbrev pub to_nat : ℤ → ℕ
to_nat (pos n) = n
to_nat (negsuc n) = 0

pub in_range-to_nat :
    (lo hi : ℕ) (z : ℤ) → in_range lo hi z ≡ true → (lo ≤ to_nat z) × (to_nat z ≤ hi)
in_range-to_nat lo hi (pos n) h = ground (arith, h)
in_range-to_nat lo hi (negsuc n) h = cc
