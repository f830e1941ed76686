-- ===== src/Base/Bytes.antt =====
-- `to_le_bytes` and `from_le_bytes` at any width.
use Prim.Native.Nat.{ℕ, zero, suc, ◌+◌, ◌*◌, ◌/◌, ◌%◌, ◌<◌}
use mathlib.Core.Path.{◌≡◌, refl}
use mathlib.Core.List.{List, [], ◌∷◌}
use native.Mathlib.Omega.{arith}
use meshtastenstein_rs.Base.Lists.{length, All}

abbrev pub IsByte : ℕ → Type 0
IsByte b = b < 256

-- the number of values that fit `k` bytes
abbrev pub byte_range : ℕ → ℕ
byte_range zero = 1
byte_range (suc k) = 256 * byte_range k

-- `n.to_le_bytes()` of a `k`-byte integer
abbrev pub to_le : ℕ → ℕ → List ℕ
to_le zero n = []
to_le (suc k) n = (n % 256) ∷ to_le k (n / 256)

-- `from_le_bytes(bs)`
abbrev pub from_le : List ℕ → ℕ
from_le [] = 0
from_le (b ∷ bs) = b + 256 * from_le bs

pub from_le-to_le : (k n : ℕ) → n < byte_range k → from_le (to_le k n) ≡ n
from_le-to_le zero n h = omega arith
from_le-to_le (suc k) n h = omega (arith, from_le-to_le k (n / 256) (omega arith))

pub length-to_le : (k n : ℕ) → length (to_le k n) ≡ k
length-to_le zero n = refl
length-to_le (suc k) n = omega (arith, length-to_le k (n / 256))

pub to_le-IsByte : (k n : ℕ) → All IsByte (to_le k n)
to_le-IsByte zero n = tt
to_le-IsByte (suc k) n = (omega arith, to_le-IsByte k (n / 256))

pub from_le-lt : (bs : List ℕ) → All IsByte bs → from_le bs < byte_range (length bs)
from_le-lt [] h = omega arith
from_le-lt (b ∷ bs) h = let hb : b < 256 = h.0 in omega (arith, hb, from_le-lt bs h.1)
