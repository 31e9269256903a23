-- ===== src/Keyboard/Tests.antt =====
-- The keyboard on a terminal with the line "hi", and its buffers at 4 MB.
use ece391_mp.Base.{
  ℕ, ◌+◌, ◌<◌, ◌&&◌, leb, ltb, ◌≡◌, [], refl, arith, some, true, ◌==◌, if◌then◌else◌,
}
use ece391_mp.Base.Int.{pos}
use ece391_mp.Base.Mem.{write}
use ece391_mp.Screen.Cursor.{Cursor, advance, printed}
use ece391_mp.Keyboard.{Keyboard, row, kbrd_int}
use ece391_mp.Keyboard.Line.{Line, is_key, typed}
use ece391_mp.Keyboard.Typing.{kbrd_int_key, kbrd_int_enter}
use ece391_mp.Keyboard.Overflow.{kbrd_int_overflow}

abbrev hi : ℕ → ℕ
hi i = if i == 0 then b'h' else b'i'

abbrev none_set : ℕ → ℕ
none_set t = 0

abbrev desk : Keyboard
desk = record {
  read_lock = none_set;
  kbrd_buf_length = λ t. if t == 0 then 2 else 0;
  is_enter = none_set;
  is_shift = none_set;
  is_caps = none_set;
  is_ctrl = none_set;
  is_alt = none_set;
  line_marker = λ t. if t == 0 then 2 else 0;
  current_terminal = 0;
  screen = record {
    screen_x = λ t. pos 2;
    screen_y = λ t. pos 0;
    curr_terminal = 0;
    mem = λ a. if a == 0x400000 then b'h' else if a == 0x400001 then b'i' else 0;
    cursor_out = [];
  };
  ports = record { master_mask = 0xF8; slave_mask = 0xFE; interrupts = true; out = [] };
}

-- A full line, with a process that waits for it.
abbrev full : Keyboard
full = record desk {
  read_lock = λ t. 1;
  kbrd_buf_length = λ t. 127;
  line_marker = λ t. 127;
  screen = record (desk.screen) { mem = λ a. if leb 0x400000 a && ltb a 0x40007F then b'a' else 0 };
}

full-Line : Line 0x400000 full 127 (λ i. b'a')
full-Line = record { marker = refl; count = refl; fits = omega arith; bytes = λ i lt. ground arith }

desk-Line : Line 0x400000 desk 2 hi
desk-Line = record { marker = refl; count = refl; fits = omega arith; bytes = λ i lt. ground arith }

desk-Cursor : Cursor (desk.screen) 0 2
desk-Cursor = record { column = refl; row = refl; on_page = omega arith }

kbrd_int_key_example :
    (k' : Keyboard) × (kbrd_int 0x400000 1 0x1E desk ≡ some k')
    × Line 0x400000 k' (2 + 1) (write hi 2 (typed desk 0x1E))
    × Cursor (k'.screen) (desk.current_terminal) (advance (typed desk 0x1E) 2)
    × ((x : ℕ) → x < 0x400000 → k'.screen.mem x ≡ printed (typed desk 0x1E) 0 2 (desk.screen.mem) x)
unfolding is_key
kbrd_int_key_example = kbrd_int_key desk-Line desk-Cursor (omega arith) 0x1E refl refl (omega arith)

kbrd_int_overflow_example :
    (k1 : Keyboard) × (k2 : Keyboard) × (k3 : Keyboard) × (kbrd_int 0x400000 1 0x1C full ≡ some k1)
    × (kbrd_int 0x400000 1 0x1E k1 ≡ some k2)
    × (kbrd_int 0x400000 1 0x1F k2 ≡ some k3)
    × (k3.screen.mem (row 0x400000 1) ≡ typed full 0x1F)
unfolding is_key
kbrd_int_overflow_example =
    kbrd_int_overflow 0x400000 0x1E 0x1F full full-Line (omega arith) (omega arith) refl refl refl

kbrd_int_enter_example :
    (k' : Keyboard) × (kbrd_int 0x400000 1 0x1C desk ≡ some k')
    × Line 0x400000 k' 0 hi
    × (k'.is_enter 0 ≡ 1)
    × Cursor (k'.screen) 0 (advance 10 2)
kbrd_int_enter_example = kbrd_int_enter desk-Line desk-Cursor (omega arith) refl
