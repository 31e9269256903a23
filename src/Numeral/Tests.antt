-- ===== src/Numeral/Tests.antt =====
-- `itoa` and `strrev` on concrete numbers.
use ece391_mp.Base.{ℕ, ◌≡◌, refl, arith, some, none, Option, ◌==◌, if◌then◌else◌}
use ece391_mp.Base.Mem.{Mem}
use ece391_mp.Str.{scan_limit}
use ece391_mp.Str.Length.{IsStr}
use ece391_mp.Numeral.{itoa, strrev}
use ece391_mp.Numeral.Digits.{IsNumeral, itoa_lem}

abbrev empty : Mem
empty a = 0

abbrev text : Mem
text a = if a == 7 then b'a' else if a == 8 then b'b' else if a == 9 then b'c' else 0

-- The byte at `x` after `itoa`.
abbrev after : Option Mem → ℕ → ℕ
after none x = 0
after (some m) x = m x

itoa_hex : after (itoa empty 0x2F 100 16) 100 ≡ b'2'
unfolding itoa strrev ece391_mp.Str.strlen
itoa_hex = refl

itoa_lem_example :
    (m' : Mem) × (n : ℕ) × (itoa empty 391 100 10 ≡ some m') × IsNumeral empty m' 100 n 391 10
itoa_lem_example = itoa_lem empty 391 100 10 (omega arith) (omega arith) (omega arith)

text-IsStr : IsStr text 7 3
unfolding scan_limit
text-IsStr = record { nonzero = λ i lt. ground arith; nul = refl; small = omega arith }
