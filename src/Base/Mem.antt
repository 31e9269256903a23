-- ===== src/Base/Mem.antt =====
-- Byte-addressed memory: what the kernel's pointers read and write. An address is a number, and a
-- cell is a number; the bytes of an `IsBytes` memory are below 256.
use ece391_mp.Base.Tests.{◌==◌, if◌then◌else◌}
use Prim.Native.Nat.{ℕ, ◌+◌, ◌*◌, ◌≤◌, ◌<◌}
use mathlib.Core.Path.{◌≡◌}
use mathlib.Core.Logic.{◌⊎◌}

abbrev pub Mem : Type 0
Mem = ℕ → ℕ

-- `*a = v`
abbrev pub write : Mem → ℕ → ℕ → Mem
write m a v x = if x == a then v else m x

abbrev pub IsBytes : Mem → Type 0
IsBytes m = (a : ℕ) → m a < 256

-- a little-endian `uint32_t`
unfoldable pub load32 : Mem → ℕ → ℕ
load32 m a = m a + 256 * m (a + 1) + 65536 * m (a + 2) + 16777216 * m (a + 3)

-- `m'` is `m` outside the `n` bytes from `a` on
abbrev pub SameOutside : ℕ → ℕ → Mem → Mem → Type 0
SameOutside a n m m' = (x : ℕ) → (x < a) ⊎ (a + n ≤ x) → m' x ≡ m x
