-- ===== src/Keyboard/Overflow.antt =====
-- Typing behind a line that a process has not read yet.
use ece391_mp.Base.{ℕ, ◌+◌, ◌<◌, ◌≡◌, true, some, arith}
use ece391_mp.Keyboard.{Keyboard, row, kbrd_int, press_enter, type_key, enter_press}
use ece391_mp.Keyboard.Line.{
  Line, dispatch-enter, is_key, typed, acknowledged, dispatch-key, kbrd_int-dispatch,
}

-- How the marker gets there: Enter, while a process reads the terminal, resets the count and leaves
-- the marker.
press_enter_locked :
    (kbrd_buf : ℕ) (k : Keyboard)
    → 0 < k.read_lock k.current_terminal
    → ((press_enter kbrd_buf 10 k).kbrd_buf_length k.current_terminal ≡ 0)
      × ((press_enter kbrd_buf 10 k).line_marker k.current_terminal
          ≡ k.line_marker k.current_terminal)
unfolding press_enter
press_enter_locked kbrd_buf k locked = (ground (arith, locked), ground (arith, locked))

-- On terminal 0 or 1, with 127 characters in the line and while a process reads the terminal: Enter
-- resets the count of the keys but not the marker, so that two more keys are accepted before the
-- process runs, and the second of them is stored in the first byte of the row of the next terminal.
pub kbrd_int_overflow :
    (kbrd_buf a b : ℕ) (k : Keyboard) {text : ℕ → ℕ}
    → Line kbrd_buf k 127 text
    → k.current_terminal < 2
    → 0 < k.read_lock k.current_terminal
    → k.is_ctrl k.current_terminal ≡ 0
    → is_key a ≡ true
    → is_key b ≡ true
    → (k1 : Keyboard) × (k2 : Keyboard) × (k3 : Keyboard) × (kbrd_int kbrd_buf 1 enter_press k
        ≡ some k1)
      × (kbrd_int kbrd_buf 1 a k1 ≡ some k2)
      × (kbrd_int kbrd_buf 1 b k2 ≡ some k3)
      × (k3.screen.mem (row kbrd_buf (k.current_terminal + 1)) ≡ typed k b)
unfolding type_key press_enter
kbrd_int_overflow kbrd_buf a b k line two locked ctrl key_a key_b =
    let k1 = acknowledged (press_enter kbrd_buf 10 k) in
    let k2 = acknowledged (type_key kbrd_buf (typed k1 a) k1) in
    let k3 = acknowledged (type_key kbrd_buf (typed k2 b) k2) in
    let (count, marker) = press_enter_locked kbrd_buf k locked in
    let t1 : k1.current_terminal ≡ k.current_terminal = ground (arith, locked) in
    let ctrl1 : k1.is_ctrl k1.current_terminal ≡ 0 = ground (arith, locked, ctrl) in
    let room1 : k1.kbrd_buf_length k1.current_terminal < 127 = ground (arith, locked) in
    let room2 : k2.kbrd_buf_length k2.current_terminal < 127 = ground (arith, locked) in
    (
      k1,
      k2,
      k3,
      kbrd_int-dispatch kbrd_buf enter_press k (dispatch-enter kbrd_buf k),
      kbrd_int-dispatch kbrd_buf a k1 (dispatch-key kbrd_buf a k1 key_a ctrl1 room1),
      kbrd_int-dispatch kbrd_buf b k2 (dispatch-key kbrd_buf b k2 key_b ctrl1 room2),
      ground (arith, line.marker, locked),
    )
