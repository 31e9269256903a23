-- ===== src/Str.antt =====
-- The string functions of student-distrib/lib.c over byte-addressed memory. A pointer is an address.
-- A scan for the terminating NUL has `scan_limit` rounds, the number of bytes that a 32-bit pointer
-- can reach: `none` is a scan that finds no NUL in the address space and so never returns.
pub mod Length
pub mod Compare
pub mod Copy
mod Tests
use ece391_mp.Base.{
  ℕ, zero, suc, ◌+◌, ◌^◌, Bool, true, false, not, ◌||◌, Option, none, some, ◌==◌, if◌then◌else◌,
}
use ece391_mp.Base.Int.{ℤ, pos, ◌-ℤ◌, signed8}
use ece391_mp.Base.Mem.{Mem, write}

unfoldable pub scan_limit : ℕ
scan_limit = 2 ^ 32

unfoldable pub strlen_from : ℕ → Mem → ℕ → ℕ → Option ℕ
strlen_from zero m s len = none
strlen_from (suc k) m s len = elim (m (s + len) == 0) [
  | true ↦ some len
  | false ↦ strlen_from k m s (len + 1)
]

unfoldable pub strlen : Mem → ℕ → Option ℕ
unfolding strlen_from scan_limit
strlen m s = strlen_from scan_limit m s 0

-- The `n - i` rounds that the loop has left, from index `i` on.
unfoldable pub strncmp_from : ℕ → Mem → ℕ → ℕ → ℕ → ℤ
strncmp_from zero m s1 s2 i = pos 0
strncmp_from (suc k) m s1 s2 i = elim (not (m (s1 + i) == m (s2 + i)) || (m (s1 + i) == 0)) [
  | true ↦ signed8 (m (s1 + i)) -ℤ signed8 (m (s2 + i))
  | false ↦ strncmp_from k m s1 s2 (i + 1)
]

unfoldable pub strncmp : Mem → ℕ → ℕ → ℕ → ℤ
unfolding strncmp_from
strncmp m s1 s2 n = strncmp_from n m s1 s2 0

unfoldable pub strcpy_from : ℕ → Mem → ℕ → ℕ → ℕ → Option Mem
strcpy_from zero m dest src i = none
strcpy_from (suc k) m dest src i = elim (m (src + i) == 0) [
  | true ↦ some (write m (dest + i) 0)
  | false ↦ strcpy_from k (write m (dest + i) (m (src + i))) dest src (i + 1)
]

unfoldable pub strcpy : Mem → ℕ → ℕ → Option Mem
unfolding strcpy_from scan_limit
strcpy m dest src = strcpy_from scan_limit m dest src 0

-- The second loop of `strncpy`, with `n - i` rounds left.
strncpy_pad : ℕ → Mem → ℕ → ℕ → Mem
strncpy_pad zero m dest i = m
strncpy_pad (suc k) m dest i = strncpy_pad k (write m (dest + i) 0) dest (i + 1)

-- The first loop, with `n - i` rounds left, and the second after it.
strncpy_from : ℕ → Mem → ℕ → ℕ → ℕ → Mem
strncpy_from zero m dest src i = m
strncpy_from (suc k) m dest src i = elim (m (src + i) == 0) [
  | true ↦ strncpy_pad (suc k) m dest i
  | false ↦ strncpy_from k (write m (dest + i) (m (src + i))) dest src (i + 1)
]

unfoldable pub strncpy : Mem → ℕ → ℕ → ℕ → Mem
unfolding strncpy_from strncpy_pad
strncpy m dest src n = strncpy_from n m dest src 0
