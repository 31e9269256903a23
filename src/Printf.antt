-- ===== src/Printf.antt =====
-- `printf` of student-distrib/lib.c. `format` is the address of the format string, `args` are the
-- 32-bit words that lie behind it on the stack, and `conv_buf` is the address of the local array of
-- that name. A word that is missing, and a string that never ends, give `none`.
pub mod Plain
mod Tests
use ece391_mp.Base.{
  ℕ, zero, suc, ◌+◌, ◌-◌, ◌%◌, ◌^◌, Bool, true, false, Option, none, some, List, [], ◌∷◌, ltb, ◌==◌,
  if◌then◌else◌,
}
use ece391_mp.Base.Mem.{Mem, write}
use ece391_mp.Str.{scan_limit, strlen}
use ece391_mp.Numeral.{itoa}
use ece391_mp.Screen.{Screen, putc, puts}

-- Where the loop stands: before a character of the text, or at the one behind a `%`, with
-- `alternate`.
pub data Mode : Type 0 where
  text : Mode
  conversion : Bool → Mode

abbrev print_at : Screen → Mem → ℕ → Option Screen
print_at s m a = elim (puts m a s.curr_terminal (record s { mem = m })) [
  | none ↦ none
  | some (n, s') ↦ some s'
]

-- `while(i < 8) { conv_buf[i] = '0'; i++; }`
abbrev pad_zeros : ℕ → Mem → ℕ → ℕ → Mem
pad_zeros zero m conv_buf i = m
pad_zeros (suc n) m conv_buf i = pad_zeros n (write m (conv_buf + i) b'0') conv_buf (i + 1)

-- The conversions `x`, `u` and `d`.
unfoldable pub print_hex : ℕ → Bool → ℕ → Screen → Option Screen
print_hex conv_buf false value s = elim (itoa s.mem value conv_buf 16) [
  | none ↦ none
  | some m ↦ print_at s m conv_buf
]
print_hex conv_buf true value s = elim (itoa s.mem value (conv_buf + 8) 16) [
  | none ↦ none
  | some m ↦ elim (strlen m (conv_buf + 8)) [
    | none ↦ none
    | some start ↦ print_at s (pad_zeros (8 - start) m conv_buf start) (conv_buf + start)
  ]
]

unfoldable pub print_unsigned : ℕ → ℕ → Screen → Option Screen
print_unsigned conv_buf value s = elim (itoa s.mem value conv_buf 10) [
  | none ↦ none
  | some m ↦ print_at s m conv_buf
]

unfoldable pub print_signed : ℕ → ℕ → Screen → Option Screen
print_signed conv_buf value s =
    if ltb value (2 ^ 31)
    then print_unsigned conv_buf value s
    else elim (itoa (write s.mem conv_buf b'-') (2 ^ 32 - value) (conv_buf + 1) 10) [
      | none ↦ none
      | some m ↦ print_at s m conv_buf
    ]

-- The next word of the stack, printed.
abbrev with_word : List ℕ → (ℕ → Option Screen) → Option (List ℕ × Screen)
with_word [] print = none
with_word (word ∷ rest) print = elim (print word) [ none ↦ none | some s ↦ some (rest, s) ]

-- One conversion: the characters that take a word print it; any other prints nothing, also the NUL
-- at the end of the format, which the loop then passes.
unfoldable pub convert : ℕ → Bool → ℕ → List ℕ → Screen → Option (List ℕ × Screen)
convert conv_buf alternate c args s =
    let t = s.curr_terminal in
    if c == b'%'
    then some (args, putc b'%' t s)
    else if c == b'x'
    then with_word args (λ w. print_hex conv_buf alternate w s)
    else if c == b'u'
    then with_word args (λ w. print_unsigned conv_buf w s)
    else if c == b'd'
    then with_word args (λ w. print_signed conv_buf w s)
    else if c == b'c'
    then with_word args (λ w. some (putc (w % 256) t s))
    else if c == b's'
    then with_word args (λ w. print_at s s.mem w)
    else some (args, s)

unfoldable pub printf_from : ℕ → ℕ → Mode → ℕ → List ℕ → Screen → Option (ℕ × Screen)
printf_from zero conv_buf mode buf args s = none
printf_from (suc k) conv_buf text buf args s =
    let c = s.mem buf in
    elim (c == 0) [
      | true ↦ some (buf, s)
      | false ↦ elim (c == b'%') [
        | true ↦ printf_from k conv_buf (conversion false) (buf + 1) args s
        | false ↦ printf_from k conv_buf text (buf + 1) args (putc c s.curr_terminal s)
      ]
    ]
printf_from (suc k) conv_buf (conversion alternate) buf args s =
    let c = s.mem buf in
    elim (c == b'#') [
      | true ↦ printf_from k conv_buf (conversion true) (buf + 1) args s
      | false ↦ elim (convert conv_buf alternate c args s) [
        | none ↦ none
        | some (rest, s') ↦ printf_from k conv_buf text (buf + 1) rest s'
      ]
    ]

-- The result is the length of the format.
unfoldable pub printf : ℕ → ℕ → List ℕ → Screen → Option (ℕ × Screen)
unfolding printf_from scan_limit
printf conv_buf format args s = elim (printf_from scan_limit conv_buf text format args s) [
  | none ↦ none
  | some (buf, s') ↦ some (buf - format, s')
]
