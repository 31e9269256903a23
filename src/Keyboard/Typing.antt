-- ===== src/Keyboard/Typing.antt =====
-- The line that the keyboard's interrupt edits: one key appends to it, backspace takes the last
-- character back, and Enter empties it when nobody reads.
use ece391_mp.Base.{ℕ, ◌+◌, ◌-◌, ◌<◌, ◌≤◌, ◌≡◌, true, some, arith}
use ece391_mp.Base.Mem.{write}
use ece391_mp.Screen.Cursor.{Cursor, advance, printed}
use ece391_mp.Keyboard.{
  Keyboard, kbrd_int, type_key, press_enter, press_backspace, enter_press, backspace_press,
}
use ece391_mp.Screen.Terminals.{pages_end}
use ece391_mp.Keyboard.Line.{
  Line, is_key, typed, dispatch-key, dispatch-backspace, dispatch-enter, acknowledged,
  Line-acknowledged, kbrd_int-dispatch, type_key-Line, press_backspace-Line, press_enter-Line,
  type_key-Cursor, type_key-printed, press_backspace-Cursor, press_enter-Cursor,
}

module _ {kbrd_buf : ℕ} {k : Keyboard} {n p : ℕ} {text : ℕ → ℕ} (line : Line kbrd_buf k n text)
    (at : Cursor k.screen k.current_terminal p) (above : pages_end ≤ kbrd_buf) where
  -- A key, without control and with room in the line, where the cursor is on its page and the
  -- buffers lie above the pages: its character, by shift and caps lock, is appended to the line of the
  -- displayed terminal; below the buffers the memory is what printing that character at the cursor
  -- makes of it, and the cursor is behind it.
  pub kbrd_int_key :
      (scancode : ℕ)
      → is_key scancode ≡ true
      → k.is_ctrl k.current_terminal ≡ 0
      → n < 127
      → (k' : Keyboard) × (kbrd_int kbrd_buf 1 scancode k ≡ some k')
        × Line kbrd_buf k' (n + 1) (write text n (typed k scancode))
        × Cursor k'.screen k.current_terminal (advance (typed k scancode) p)
        × ((x : ℕ)
            → x < kbrd_buf
            → k'.screen.mem x ≡ printed (typed k scancode) k.current_terminal p k.screen.mem x)
  kbrd_int_key scancode key ctrl room =
      let e = dispatch-key kbrd_buf scancode k key ctrl (omega (arith, line.count)) in
      (
        acknowledged (type_key kbrd_buf (typed k scancode) k),
        kbrd_int-dispatch kbrd_buf scancode k e,
        Line-acknowledged (type_key-Line line at above (typed k scancode) room),
        type_key-Cursor line at above (typed k scancode),
        type_key-printed line at above (typed k scancode),
      )

  -- Backspace on a line that is not empty, where the cursor is on its page but not on the first
  -- cell and the buffers lie above the pages, takes the last character of the line back, and the
  -- cursor one cell back.
  pub kbrd_int_backspace :
      0 < n
      → 0 < p
      → (k' : Keyboard) × (kbrd_int kbrd_buf 1 backspace_press k ≡ some k')
        × Line kbrd_buf k' (n - 1) text
        × Cursor k'.screen k.current_terminal (p - 1)
  kbrd_int_backspace some_key some_cell = (
    acknowledged (press_backspace kbrd_buf k),
    kbrd_int-dispatch kbrd_buf backspace_press k (dispatch-backspace kbrd_buf k),
    Line-acknowledged (press_backspace-Line line at above some_key some_cell),
    press_backspace-Cursor line at above some_key some_cell,
  )

  -- Enter, while no process reads the terminal, the cursor is on its page and the buffers lie above
  -- the pages, empties the line, raises the flag that readers wait for, and goes to the next row.
  pub kbrd_int_enter :
      k.read_lock k.current_terminal ≡ 0
      → (k' : Keyboard) × (kbrd_int kbrd_buf 1 enter_press k ≡ some k')
        × Line kbrd_buf k' 0 text
        × (k'.is_enter k.current_terminal ≡ 1)
        × Cursor k'.screen k.current_terminal (advance 10 p)
  unfolding press_enter
  kbrd_int_enter unlocked = (
    acknowledged (press_enter kbrd_buf 10 k),
    kbrd_int-dispatch kbrd_buf enter_press k (dispatch-enter kbrd_buf k),
    Line-acknowledged (press_enter-Line line at above unlocked),
    ground (arith, unlocked),
    press_enter-Cursor line at above,
  )
