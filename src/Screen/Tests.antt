-- ===== src/Screen/Tests.antt =====
-- The screens at concrete positions.
use ece391_mp.Base.{ℕ, ◌+◌, ◌-◌, ◌<◌, ◌≤◌, ◌≡◌, ◌≢◌, ◌⊎◌, refl, arith, ◌==◌, if◌then◌else◌, []}
use ece391_mp.Base.Int.{pos, negsuc}
use ece391_mp.Base.Mem.{Mem}
use ece391_mp.Str.{scan_limit}
use ece391_mp.Str.Length.{IsStr}
use ece391_mp.Screen.{Screen, vidmem_page, put_cell, putc, backspace_helper}
use ece391_mp.Screen.Cursor.{Cursor, advance, printed, putc_lem}
use ece391_mp.Screen.Edit.{backspace_home}
use ece391_mp.Screen.Terminals.{putc_isolated}

-- Terminal 0 at its first cell, terminal 1 at its last, terminal 2 at the start of row 3.
abbrev screen : Screen
screen = record {
  screen_x = λ t. if t == 1 then pos 79 else pos 0;
  screen_y = λ t. if t == 1 then pos 24 else if t == 2 then pos 3 else pos 0;
  curr_terminal = 0;
  mem = λ a. 0;
  cursor_out = [];
}

last : Cursor screen 1 1999
last = record { column = refl; row = refl; on_page = omega arith }

row_start : Cursor screen 2 240
row_start = record { column = refl; row = refl; on_page = omega arith }

home : Cursor screen 0 0
home = record { column = refl; row = refl; on_page = omega arith }

abbrev text : Mem
text a = if a == 5 then b'o' else if a == 6 then b'k' else 0

text-IsStr : IsStr text 5 2
unfolding scan_limit
text-IsStr = record { nonzero = λ i lt. ground arith; nul = refl; small = omega arith }

putc_lem_example :
    Cursor (putc b'A' 1 screen) 1 (advance b'A' 1999)
    × ((putc b'A' 1 screen).mem ≡ printed b'A' 1 1999 screen.mem)
putc_lem_example = putc_lem b'A' last

backspace_home_example :
    ((backspace_helper 0 screen).screen_y 0 ≡ negsuc 0)
    × ((backspace_helper 0 screen).mem ≡ put_cell screen.mem (vidmem_page 0 - 2) b' ')
unfolding vidmem_page
backspace_home_example = backspace_home home (omega arith)

putc_isolated_example :
    ((u : ℕ)
      → u ≢ 1
      → ((putc b'A' 1 screen).screen_x u ≡ screen.screen_x u)
        × ((putc b'A' 1 screen).screen_y u ≡ screen.screen_y u))
    × ((x : ℕ)
        → (x < vidmem_page 1) ⊎ (vidmem_page 1 + 0x1000 ≤ x)
        → (putc b'A' 1 screen).mem x ≡ screen.mem x)
putc_isolated_example = putc_isolated b'A' last
