-- ===== src/Numeral.antt =====
-- `itoa` and `strrev` of student-distrib/lib.c: a number as text.
pub mod Reverse
pub mod Digits
mod Tests
use ece391_mp.Base.{
  ℕ, zero, suc, ◌+◌, ◌-◌, ◌/◌, ◌%◌, true, false, Option, none, some, List, [], ◌∷◌, ◌==◌, ltb,
  get_or, if◌then◌else◌,
}
use ece391_mp.Base.Mem.{Mem, write}
use ece391_mp.Str.{strlen}

-- `tmp = s[end]; s[end] = s[beg]; s[beg] = tmp`, at the addresses of the two bytes.
unfoldable pub swap_bytes : Mem → ℕ → ℕ → Mem
swap_bytes m beg end = write (write m end (m beg)) beg (m end)

-- `while (beg < end)`; the rounds are at most the length of the string.
unfoldable pub strrev_loop : ℕ → Mem → ℕ → ℕ → ℕ → Mem
strrev_loop zero m s beg end = m
strrev_loop (suc k) m s beg end = elim (ltb beg end) [
  | true ↦ strrev_loop k (swap_bytes m (s + beg) (s + end)) s (beg + 1) (end - 1)
  | false ↦ m
]

-- On the empty string `end` is -1 and the loop makes no round.
unfoldable pub strrev : Mem → ℕ → Option Mem
unfolding strrev_loop swap_bytes
strrev m s = elim (strlen m s) [ none ↦ none | some len ↦ some (strrev_loop len m s 0 (len - 1)) ]

-- "0123456789ABCDEFGHIJKLMNOPQRSTUVWXYZ"
unfoldable pub lookup : List ℕ
lookup =
    48 ∷ 49 ∷ 50 ∷ 51 ∷ 52 ∷ 53 ∷ 54 ∷ 55 ∷ 56 ∷ 57 ∷ 65 ∷ 66 ∷ 67 ∷ 68 ∷ 69 ∷ 70 ∷ 71 ∷ 72 ∷ 73
    ∷ 74 ∷ 75 ∷ 76 ∷ 77 ∷ 78 ∷ 79 ∷ 80 ∷ 81 ∷ 82 ∷ 83 ∷ 84 ∷ 85 ∷ 86 ∷ 87 ∷ 88 ∷ 89 ∷ 90 ∷ []

-- `while (newval > 0)`: the memory and `newbuf` behind the last digit. A `uint32_t` has at most 32
-- digits in a base of 2 or more; with radix 0 or 1 the source does not return.
unfoldable pub itoa_loop : ℕ → Mem → ℕ → ℕ → ℕ → Option (Mem × ℕ)
itoa_loop zero m newbuf newval radix = if newval == 0 then some (m, newbuf) else none
itoa_loop (suc k) m newbuf newval radix = elim (ltb 0 newval) [
  | true ↦
      itoa_loop k (write m newbuf (get_or lookup (newval % radix) 0)) (newbuf + 1) (newval / radix)
        radix
  | false ↦ some (m, newbuf)
]

unfoldable pub itoa : Mem → ℕ → ℕ → ℕ → Option Mem
unfolding itoa_loop lookup
itoa m value buf radix =
    if value == 0
    then some (write (write m buf b'0') (buf + 1) 0)
    else elim (itoa_loop 32 m buf value radix) [
      | none ↦ none
      | some (m', newbuf) ↦ strrev (write m' newbuf 0) buf
    ]
