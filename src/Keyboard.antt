-- ===== src/Keyboard.antt =====
-- student-distrib/keyboard.c: the keyboard's interrupt with its modifiers and line buffers. `kbrd_buf`
-- is the address of the static array of that name; the array is bytes of the memory that the screen
-- is in too.
mod Codes
pub mod Line
pub mod Typing
pub mod Layout
pub mod Overflow
mod Tests
use ece391_mp.Base.{
  ℕ, zero, suc, ◌+◌, ◌-◌, ◌*◌, ◌/◌, ◌%◌, Bool, true, false, not, ◌&&◌, ◌||◌, Option, none, some,
  List, [], ◌∷◌, ltb, leb, ◌==◌, get_or, if◌then◌else◌,
}
use ece391_mp.Base.Int.{ℤ, pos, negsuc}
use ece391_mp.Base.Mem.{Mem, write}
use ece391_mp.Block.{memcpy, memmove, memset}
use ece391_mp.Pic.{Ports, cli, sti, enable_irq, send_eoi}
use ece391_mp.Screen.{Screen, putc, puts, reset, backspace_helper, update_curr_term, update_vidmem}
use ece391_mp.Keyboard.Codes.{
  kbrdscancode, capskbrdscancode, shiftkbrdscancode, capsshiftkbrdscancode,
}

abbrev pub kbrd_buf_length_max : ℕ
kbrd_buf_length_max = 128

abbrev pub kbrd_irq : ℕ
kbrd_irq = 1

abbrev pub enter_press : ℕ
enter_press = 0x1C

abbrev pub backspace_press : ℕ
backspace_press = 0x0E

abbrev pub scancode_length : ℕ
scancode_length = 0x80

-- The static variables: arrays over the terminals, the displayed terminal, and what the functions
-- that are called work on.
pub record Keyboard : Type 0 where
  pub read_lock : ℕ → ℕ
  pub kbrd_buf_length : ℕ → ℕ
  pub is_enter : ℕ → ℕ
  pub is_shift : ℕ → ℕ
  pub is_caps : ℕ → ℕ
  pub is_ctrl : ℕ → ℕ
  pub is_alt : ℕ → ℕ
  pub line_marker : ℕ → ℕ
  pub current_terminal : ℕ
  pub screen : Screen
  pub ports : Ports

abbrev pub set_mem : Mem → Keyboard → Keyboard
set_mem m k = record k { screen = record (k.screen) { mem = m } }

-- `kbrd_buf[t]`
abbrev pub row : ℕ → ℕ → ℕ
row kbrd_buf t = kbrd_buf + kbrd_buf_length_max * t

unfoldable pub kbrd_init : ℕ → Keyboard → Keyboard
kbrd_init kbrd_buf k =
    let t = k.current_terminal in
    let cleared = memset k.screen.mem (row kbrd_buf t) 0 kbrd_buf_length_max in
    let shown = update_curr_term 0 (record (k.screen) { mem = cleared }) in
    record k {
      is_shift = write k.is_shift t 0;
      is_caps = write k.is_caps t 0;
      is_ctrl = write k.is_ctrl t 0;
      is_alt = write k.is_alt t 0;
      current_terminal = 0;
      screen = shown;
      ports = enable_irq kbrd_irq k.ports;
    }

-- Alt with a function key.
unfoldable pub switch_terminal : ℕ → Keyboard → Keyboard
switch_terminal t k =
    if k.current_terminal == t
    then k
    else record k { current_terminal = t; screen = update_vidmem t (update_curr_term t k.screen) }

unfoldable pub press_enter : ℕ → ℕ → Keyboard → Keyboard
press_enter kbrd_buf key k =
    let t = k.current_terminal in
    let k1 = record k {
      screen = putc key t k.screen;
      is_enter = write k.is_enter t 1;
      kbrd_buf_length = write k.kbrd_buf_length t 0;
    } in
    if k.read_lock t == 0
    then record (set_mem (memset k1.screen.mem (row kbrd_buf t) 0 kbrd_buf_length_max) k1) {
      line_marker = write k.line_marker t 0;
    }
    else k1

-- `line_marker` is a `uint8_t`.
unfoldable pub press_backspace : ℕ → Keyboard → Keyboard
press_backspace kbrd_buf k =
    let t = k.current_terminal in
    if ltb 0 (k.kbrd_buf_length t)
    then (let s = backspace_helper t k.screen in
        record k {
          screen = record s { mem = write s.mem (row kbrd_buf t + k.line_marker t - 1) 0 };
          kbrd_buf_length = write k.kbrd_buf_length t (k.kbrd_buf_length t - 1);
          line_marker = write k.line_marker t ((k.line_marker t + 255) % 256);
        })
    else k

-- The character of a key, by the state of shift and caps lock.
unfoldable pub select_key : ℕ → ℕ → ℕ → ℕ → ℕ
select_key shift caps scancode key =
    if (shift == 1) && (caps == 0)
    then get_or shiftkbrdscancode scancode 0
    else if (shift == 1) && (caps == 1)
    then get_or capsshiftkbrdscancode scancode 0
    else if (shift == 0) && (caps == 1)
    then get_or capskbrdscancode scancode 0
    else key

unfoldable pub type_key : ℕ → ℕ → Keyboard → Keyboard
type_key kbrd_buf key k =
    let t = k.current_terminal in
    let s = putc key t k.screen in
    record k {
      screen = record s { mem = write s.mem (row kbrd_buf t + k.line_marker t) key };
      line_marker = write k.line_marker t ((k.line_marker t + 1) % 256);
      kbrd_buf_length = write k.kbrd_buf_length t (k.kbrd_buf_length t + 1);
    }

-- Ctrl-L: `none` where the buffer holds no NUL and `puts` does not return.
unfoldable pub redraw : ℕ → Keyboard → Option Keyboard
redraw kbrd_buf k =
    let t = k.current_terminal in
    let s = reset k.screen in
    elim (puts s.mem (row kbrd_buf t) t s) [
      | none ↦ none
      | some (n, s') ↦ some (record k { screen = s' })
    ]

-- The last branch of `kbrd_int`.
unfoldable pub press_other : ℕ → ℕ → ℕ → Keyboard → Option Keyboard
press_other kbrd_buf scancode key k =
    let t = k.current_terminal in
    let redrawn = redraw kbrd_buf k in
    if ltb (k.kbrd_buf_length t) (kbrd_buf_length_max - 1) && ltb scancode scancode_length
    then (if (k.is_ctrl t == 1) && (key == b'l')
        then redrawn
        else some (type_key kbrd_buf (select_key (k.is_shift t) (k.is_caps t) scancode key) k))
    else some k

-- What `kbrd_int` does with a scan code. `kbrdscancode[scancode]` of a code from 128 on is behind
-- the table; no branch that such a code takes uses it.
unfoldable pub dispatch : ℕ → ℕ → Keyboard → Option Keyboard
dispatch kbrd_buf scancode k =
    let t = k.current_terminal in
    let key = get_or kbrdscancode scancode 0 in
    if scancode == 0x1D
    then some (record k { is_ctrl = write k.is_ctrl t 1 })
    else if scancode == 0x9D
    then some (record k { is_ctrl = write k.is_ctrl t 0 })
    else if (scancode == 0x2A) || (scancode == 0x36)
    then some (record k { is_shift = write k.is_shift t 1 })
    else if (scancode == 0xAA) || (scancode == 0xB6)
    then some (record k { is_shift = write k.is_shift t 0 })
    else if scancode == 0x38
    then some (record k { is_alt = write k.is_alt t 1 })
    else if scancode == 0xB8
    then some (record k { is_alt = write k.is_alt t 0 })
    else if scancode == 0x3A
    then some (record k { is_caps = write k.is_caps t (if k.is_caps t == 1 then 0 else 1) })
    else if (scancode == 0x3B) && (k.is_alt t == 1)
    then some (switch_terminal 0 k)
    else if (scancode == 0x3C) && (k.is_alt t == 1)
    then some (switch_terminal 1 k)
    else if (scancode == 0x3D) && (k.is_alt t == 1)
    then some (switch_terminal 2 k)
    else if scancode == enter_press
    then some (press_enter kbrd_buf key k)
    else if scancode == backspace_press
    then some (press_backspace kbrd_buf k)
    else press_other kbrd_buf scancode key k

-- `status` and `scancode` are what the two `inb` return.
unfoldable pub kbrd_int : ℕ → ℕ → ℕ → Keyboard → Option Keyboard
kbrd_int kbrd_buf status scancode k =
    let handled = if status % 2 == 1 then dispatch kbrd_buf scancode k else some k in
    elim handled [ none ↦ none | some k' ↦ some (record k' { ports = send_eoi kbrd_irq k'.ports }) ]
