-- ===== src/Base/Int.antt =====
-- Signed integers, as far as the program uses them: results of type `int`.
use Prim.Native.Nat.{ℕ, ◌-◌, ◌%◌, ◌<◌}
use mathlib.Core.Path.{◌≡◌}
use native.Mathlib.Omega.{arith}
use red_box_db.Base.Tests.{ltb, if◌then◌else◌}

-- `negsuc n` is -(n + 1).
pub data ℤ : Type 0 where
  pos : ℕ → ℤ
  negsuc : ℕ → ℤ

-- The two's complement value of the low 32 bits: `static_cast<int>(x)` of a 64-bit or 32-bit x.
unfoldable pub to_int : ℕ → ℤ
to_int x =
    if ltb (x % 4294967296) 2147483648
    then pos (x % 4294967296)
    else negsuc (4294967295 - x % 4294967296)

pub to_int_small : (x : ℕ) → x < 2147483648 → to_int x ≡ pos x
unfolding to_int
to_int_small x h = ground arith
