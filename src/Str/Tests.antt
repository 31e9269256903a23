-- ===== src/Str/Tests.antt =====
-- The string functions on "hi", stored at 0 and at 3.
use ece391_mp.Base.{◌≡◌, ◌↔◌, refl, arith, ◌==◌, if◌then◌else◌, some}
use ece391_mp.Base.Int.{pos}
use ece391_mp.Base.Mem.{Mem}
use ece391_mp.Str.{scan_limit, strlen, strncmp}
use ece391_mp.Str.Length.{IsStr}
use ece391_mp.Str.Compare.{Agree, strncmp_iff}

abbrev text : Mem
text a =
    if a == 0
    then b'h'
    else if a == 1
    then b'i'
    else if a == 3
    then b'h'
    else if a == 4
    then b'i'
    else 0

text-IsStr : IsStr text 0 2
unfolding scan_limit
text-IsStr = record { nonzero = λ i lt. ground arith; nul = refl; small = omega arith }

strlen_runs : strlen text 3 ≡ some 2
unfolding strlen
strlen_runs = refl

strncmp_iff_example : (strncmp text 0 3 8 ≡ pos 0) ↔ Agree text 0 3 8
strncmp_iff_example = strncmp_iff text 0 3 8 (λ a. ground arith)
