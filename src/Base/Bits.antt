-- ===== src/Base/Bits.antt =====
-- Facts about the bit operations on bytes, by evaluation at every value of a small range, and
-- shifts as division and multiplication.
use Prim.Native.Nat.{ℕ, zero, suc, ◌*◌, ◌/◌, ◌%◌, ◌^◌, ◌<◌}
use mathlib.Core.Path.{◌≡◌}
use mathlib.Core.Bool.{Bool, true, ◌&&◌}
use native.Mathlib.Omega.{arith}

-- `x >> k`
abbrev pub shr : ℕ → ℕ → ℕ
shr x k = x / 2 ^ k

-- `x << k` on a byte
abbrev pub shl8 : ℕ → ℕ → ℕ
shl8 x k = (x * 2 ^ k) % 256

-- Every value under the bound passes the test: decided by evaluation.
unfoldable pub test_range : ℕ → (ℕ → Bool) → Bool
test_range zero test = true
test_range (suc bound) test = test_range bound test && test bound

pub in_test_range :
    (bound : ℕ) (test : ℕ → Bool) (v : ℕ) → test_range bound test ≡ true → v < bound → test v ≡ true
unfolding test_range
in_test_range zero test v run small = absurd (omega arith)
in_test_range (suc bound) test v run small = ground (arith, in_test_range bound test v)
