-- ===== src/Terminal/Tests.antt =====
-- The terminal driver on a terminal with the line "hi", and the keyboard's buffers at 4 MB.
use ece391_mp.Base.{
  ℕ, ◌+◌, ◌-◌, ◌<◌, ◌≡◌, ◌∷◌, [], inr, refl, arith, some, true, ltb, ◌==◌, if◌then◌else◌,
}
use ece391_mp.Base.Int.{pos}
use ece391_mp.Screen.Cursor.{Cursor}
use ece391_mp.Keyboard.{Keyboard, enter_press}
use ece391_mp.Terminal.{terminal_read}
use ece391_mp.Keyboard.Line.{Line}
use ece391_mp.Terminal.Reading.{Pending}
use ece391_mp.Terminal.Delivery.{terminal_read_delivers}

abbrev hi : ℕ → ℕ
hi i = if i == 0 then b'h' else b'i'

abbrev none_set : ℕ → ℕ
none_set t = 0

abbrev desk : Keyboard
desk = record {
  read_lock = none_set;
  kbrd_buf_length = λ t. if t == 0 then 2 else 0;
  is_enter = none_set;
  is_shift = none_set;
  is_caps = none_set;
  is_ctrl = none_set;
  is_alt = none_set;
  line_marker = λ t. if t == 0 then 2 else 0;
  current_terminal = 0;
  screen = record {
    screen_x = λ t. pos 2;
    screen_y = λ t. pos 0;
    curr_terminal = 0;
    mem = λ a. if a == 0x400000 then b'h' else if a == 0x400001 then b'i' else 0;
    cursor_out = [];
  };
  ports = record { master_mask = 0xF8; slave_mask = 0xFE; interrupts = true; out = [] };
}

abbrev behind : Keyboard
behind = record desk { line_marker = λ t. 130 }

desk-Line : Line 0x400000 desk 2 hi
desk-Line = record { marker = refl; count = refl; fits = omega arith; bytes = λ i lt. ground arith }

desk-Pending : Pending 0x400000 desk 2 hi
desk-Pending = record { marker = refl; fits = omega arith; bytes = λ i lt. ground arith }

desk-Cursor : Cursor (desk.screen) 0 2
desk-Cursor = record { column = refl; row = refl; on_page = omega arith }

terminal_read_delivers_example :
    (k' : Keyboard) × (terminal_read 0x400000 0x401000
        (desk.current_terminal)
        0x8000000
        4
        ((1, enter_press) ∷ [])
        desk
      ≡ some ((pos 4, k'), []))
    × ((i : ℕ) → i < 4 - 1 → k'.screen.mem (0x8000000 + i) ≡ (if ltb i 2 then hi i else 0))
    × (k'.screen.mem (0x8000000 + (4 - 1)) ≡ 10)
    × Pending 0x400000 k' (2 + 1 - 4) (λ i. hi (4 - 1 + i))
terminal_read_delivers_example =
    terminal_read_delivers [] desk-Line desk-Cursor (omega arith) (omega arith) (omega arith)
      (omega arith) (inr (omega arith)) (inr (omega arith)) (inr (omega arith))
