-- ===== src/Support.antt =====
-- The library of the user programs, syscalls/ece391support.c, over the memory of the process. A scan
-- for a NUL has `scan_limit` rounds, as in the kernel's library.
pub mod Same
pub mod Order
use ece391_mp.Base.{
  ℕ, zero, suc, ◌+◌, ◌-◌, ◌/◌, ◌%◌, Bool, true, false, ◌||◌, Option, none, some, List, ltb, leb,
  ◌==◌, get_or, if◌then◌else◌,
}
use ece391_mp.Base.Int.{ℤ, pos, ◌-ℤ◌}
use ece391_mp.Base.Mem.{Mem, write}
use ece391_mp.Str.{scan_limit}
use ece391_mp.Numeral.{lookup}

-- `for (len = 0; '\0' != *s; s++, len++);`
unfoldable pub ece391_strlen_from : ℕ → Mem → ℕ → ℕ → Option ℕ
ece391_strlen_from zero m s len = none
ece391_strlen_from (suc k) m s len = elim (m s == 0) [
  | true ↦ some len
  | false ↦ ece391_strlen_from k m (s + 1) (len + 1)
]

unfoldable pub ece391_strlen : Mem → ℕ → Option ℕ
unfolding ece391_strlen_from scan_limit
ece391_strlen m s = ece391_strlen_from scan_limit m s 0

-- `while ('\0' != (*dst++ = *src++));`
unfoldable pub ece391_strcpy_from : ℕ → Mem → ℕ → ℕ → Option Mem
ece391_strcpy_from zero m dst src = none
ece391_strcpy_from (suc k) m dst src = elim (m src == 0) [
  | true ↦ some (write m dst (m src))
  | false ↦ ece391_strcpy_from k (write m dst (m src)) (dst + 1) (src + 1)
]

unfoldable pub ece391_strcpy : Mem → ℕ → ℕ → Option Mem
unfolding ece391_strcpy_from scan_limit
ece391_strcpy m dst src = ece391_strcpy_from scan_limit m dst src

-- `write` is the system call: file descriptor, buffer and number of bytes.
unfoldable pub ece391_fdputs : {A : Type 0} → (ℕ → ℕ → ℕ → A) → Mem → ℕ → ℕ → Option A
ece391_fdputs write m fd s = elim (ece391_strlen m s) [ none ↦ none | some n ↦ some (write fd s n) ]

-- `while (*s1 == *s2)`, with the subtraction behind it.
unfoldable pub ece391_strcmp_from : ℕ → Mem → ℕ → ℕ → Option ℤ
ece391_strcmp_from zero m s1 s2 = none
ece391_strcmp_from (suc k) m s1 s2 = elim (m s1 == m s2) [
  | true ↦ elim (m s1 == 0) [
    | true ↦ some (pos 0)
    | false ↦ ece391_strcmp_from k m (s1 + 1) (s2 + 1)
  ]
  | false ↦ some (pos (m s1) -ℤ pos (m s2))
]

unfoldable pub ece391_strcmp : Mem → ℕ → ℕ → Option ℤ
unfolding ece391_strcmp_from scan_limit
ece391_strcmp m s1 s2 = ece391_strcmp_from scan_limit m s1 s2

-- The loop, for `n` of at least 1, which is the number of rounds that are left.
unfoldable pub ece391_strncmp_from : ℕ → Mem → ℕ → ℕ → ℤ
ece391_strncmp_from zero m s1 s2 = pos 0
ece391_strncmp_from (suc n) m s1 s2 = elim (m s1 == m s2) [
  | true ↦ elim ((m s1 == 0) || (n == 0)) [
    | true ↦ pos 0
    | false ↦ ece391_strncmp_from n m (s1 + 1) (s2 + 1)
  ]
  | false ↦ pos (m s1) -ℤ pos (m s2)
]

unfoldable pub ece391_strncmp : Mem → ℕ → ℕ → ℕ → ℤ
unfolding ece391_strncmp_from
ece391_strncmp m s1 s2 n = if n == 0 then pos 0 else ece391_strncmp_from n m s1 s2

-- `while (beg < end)`; the rounds are at most the length of the string.
unfoldable pub reverse_loop : ℕ → Mem → ℕ → ℕ → ℕ → Mem
reverse_loop zero m s beg end = m
reverse_loop (suc k) m s beg end = elim (ltb beg end) [
  | true ↦
      reverse_loop k (write (write m (s + end) (m (s + beg))) (s + beg) (m (s + end))) s (beg + 1)
        (end - 1)
  | false ↦ m
]

-- `end` is the length less 1, which is at most 0 for a length of at most 1.
unfoldable pub ece391_strrev : Mem → ℕ → Option Mem
unfolding reverse_loop
ece391_strrev m s = elim (ece391_strlen m s) [
  | none ↦ none
  | some len ↦ some (if leb len 1 then m else reverse_loop len m s 0 (len - 1))
]

-- `while (newval > 0)`: the memory and `newbuf` behind the last digit. An `uint32_t` has at most 32
-- digits in a base of 2 or more; with radix 1 the source does not return.
unfoldable pub digits_loop : ℕ → Mem → ℕ → ℕ → ℕ → Option (Mem × ℕ)
digits_loop zero m newbuf newval radix = if newval == 0 then some (m, newbuf) else none
digits_loop (suc k) m newbuf newval radix = elim (ltb 0 newval) [
  | true ↦
      digits_loop k (write m newbuf (get_or lookup (newval % radix) 0)) (newbuf + 1)
        (newval / radix) radix
  | false ↦ some (m, newbuf)
]

-- For a radix from 1 to 36.
unfoldable pub ece391_itoa : Mem → ℕ → ℕ → ℕ → Option Mem
unfolding digits_loop lookup
ece391_itoa m value buf radix =
    if value == 0
    then some (write (write m buf b'0') (buf + 1) 0)
    else elim (digits_loop 32 m buf value radix) [
      | none ↦ none
      | some (m', newbuf) ↦ ece391_strrev (write m' newbuf 0) buf
    ]
