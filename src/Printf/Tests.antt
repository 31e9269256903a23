-- ===== src/Printf/Tests.antt =====
-- The four bytes of "\\x7FELF", printed on the first row of the sample kernel's screen.
use ece391_mp.Base.{◌≡◌, refl, arith, some, []}
use ece391_mp.Str.{scan_limit}
use ece391_mp.Str.Length.{IsStr}
use ece391_mp.Screen.{Screen}
use ece391_mp.Screen.Cursor.{Cursor}
use ece391_mp.Screen.Edit.{advance_all}
use ece391_mp.Kernel.Sample.{sample}
use ece391_mp.Printf.{printf}
use ece391_mp.Printf.Plain.{printed_all, printf_plain}

abbrev screen : Screen
screen = sample.keyboard.screen

elf-IsStr : IsStr (screen.mem) 0x430000 4
unfolding scan_limit
elf-IsStr = record { nonzero = λ i lt. ground arith; nul = refl; small = omega arith }

screen-Cursor : Cursor screen 0 0
screen-Cursor = record { column = refl; row = refl; on_page = omega arith }

printf_plain_example :
    (s' : Screen) × (printf 0x440000 0x430000 [] screen ≡ some (4, s'))
    × Cursor s' 0 (advance_all (screen.mem) 0x430000 4 0)
    × (s'.mem ≡ printed_all (screen.mem) 0x430000 4 0 0 (screen.mem))
printf_plain_example =
    printf_plain 0x440000 0x430000 4 [] screen elf-IsStr (λ j lt. ground arith) (omega arith)
      screen-Cursor
