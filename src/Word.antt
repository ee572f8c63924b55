-- ===== src/Word.antt =====
-- Machine words of `w` bits as numbers below `2 ^ w`, and the bit operations of the kernel's
-- OSkernel/kernel/include/pmm.h on them.
pub mod Digit
pub mod Laws
use Prim.Native.Nat.{bit_and}
use projects_demonstration.Base.{ℕ, zero, suc, ◌+◌, ◌-◌, ◌/◌, ◌%◌, ◌^◌, if◌then◌else◌, ◌==◌}

-- The bit of weight `2 ^ k`.
abbrev pub bit : ℕ → ℕ → ℕ
bit x zero = x % 2
bit x (suc k) = bit (x / 2) k

-- The zero bits below the lowest one bit, of a word that is not zero.
unfoldable pub ctz : ℕ → ℕ → ℕ
ctz zero x = 0
ctz (suc w) x = if x % 2 == 0 then suc (ctz w (x / 2)) else 0

-- `~x` on a word of `w` bits.
abbrev pub complement : ℕ → ℕ → ℕ
complement w x = 2 ^ w - 1 - x

-- `MASK(x)`, that is `x & (~x + 1)`.
unfoldable pub mask : ℕ → ℕ → ℕ
mask w x = bit_and x ((complement w x + 1) % 2 ^ w)
