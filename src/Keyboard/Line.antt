-- ===== src/Keyboard/Line.antt =====
-- The line buffer of the displayed terminal, and what one step of the handler does to it.
use ece391_mp.Base.{
  ℕ, ◌+◌, ◌-◌, ◌<◌, ◌≤◌, ◌≡◌, Bool, true, not, ◌&&◌, inr, some, arith, refl, ltb, ap, ◌∙◌, ◌==◌,
  get_or, if◌then◌else◌, if_false, false,
}
use ece391_mp.Base.Mem.{write}
use ece391_mp.Pic.{send_eoi}
use ece391_mp.Block.Laws.{memset_lem}
use ece391_mp.Screen.{Screen, putc, backspace_helper}
use ece391_mp.Screen.Cursor.{Cursor, advance, printed, vidmem_page_small, putc_lem}
use ece391_mp.Screen.Edit.{backspace_lem}
use ece391_mp.Screen.Terminals.{pages_end, putc_above, put_cell_outside}
use ece391_mp.Keyboard.{
  Keyboard, row, kbrd_buf_length_max, dispatch, kbrd_int, type_key, select_key, press_other,
  kbrd_irq, press_enter, press_backspace, enter_press, backspace_press, scancode_length,
}
use ece391_mp.Keyboard.Codes.{kbrdscancode}

-- The line of the displayed terminal is the `n` characters of `text`, and the rest of its buffer is
-- cleared.
pub record Line (kbrd_buf : ℕ) (k : Keyboard) (n : ℕ) (text : ℕ → ℕ) : Type 0 where
  pub marker : k.line_marker k.current_terminal ≡ n
  pub count : k.kbrd_buf_length k.current_terminal ≡ n
  pub fits : n < kbrd_buf_length_max
  pub bytes :
      (i : ℕ)
      → i < kbrd_buf_length_max
      → k.screen.mem (row kbrd_buf k.current_terminal + i) ≡ (if ltb i n then text i else 0)

-- A scan code that is no modifier, no function key of a terminal, not Enter and not backspace.
unfoldable pub is_key : ℕ → Bool
is_key scancode =
    ltb scancode scancode_length
    && not (scancode == 0x1D)
    && not (scancode == 0x2A)
    && not (scancode == 0x36)
    && not (scancode == 0x38)
    && not (scancode == 0x3A)
    && not (scancode == 0x3B)
    && not (scancode == 0x3C)
    && not (scancode == 0x3D)
    && not (scancode == enter_press)
    && not (scancode == backspace_press)

-- The character that a key gives.
abbrev pub typed : Keyboard → ℕ → ℕ
typed k scancode =
    let t = k.current_terminal in
    select_key (k.is_shift t) (k.is_caps t) scancode (get_or kbrdscancode scancode 0)

press_other-key :
    (kbrd_buf scancode key : ℕ) (k : Keyboard)
    → scancode < scancode_length
    → k.is_ctrl k.current_terminal ≡ 0
    → k.kbrd_buf_length k.current_terminal < 127
    → press_other kbrd_buf scancode key k
      ≡ some (
          type_key kbrd_buf
            (select_key (k.is_shift k.current_terminal) (k.is_caps k.current_terminal) scancode key)
            k)
unfolding press_other
press_other-key kbrd_buf scancode key k code ctrl room = ground arith

pub dispatch-key :
    (kbrd_buf scancode : ℕ) (k : Keyboard)
    → is_key scancode ≡ true
    → k.is_ctrl k.current_terminal ≡ 0
    → k.kbrd_buf_length k.current_terminal < 127
    → dispatch kbrd_buf scancode k ≡ some (type_key kbrd_buf (typed k scancode) k)
unfolding dispatch is_key
dispatch-key kbrd_buf scancode k key ctrl room = ground (
  arith,
  press_other-key kbrd_buf scancode (get_or kbrdscancode scancode 0) k (ground arith) ctrl room,
)

backspace_above :
    {s : Screen} {t p : ℕ} (x : ℕ)
    → Cursor s t p
    → 0 < p
    → pages_end ≤ x
    → (backspace_helper t s).mem x ≡ s.mem x
backspace_above {s} {t} {p} x at some_cell above =
    ap (λ m. m x) (backspace_lem at some_cell).1
    ∙ put_cell_outside s.mem t (p - 1) b' ' x (omega (arith, at.on_page))
        (inr (omega (arith, vidmem_page_small t)))

module _ {kbrd_buf : ℕ} {k : Keyboard} {n p : ℕ} {text : ℕ → ℕ} (line : Line kbrd_buf k n text)
    (at : Cursor k.screen k.current_terminal p) (above : pages_end ≤ kbrd_buf) where
  pub type_key-Line :
      (key : ℕ) → n < 127 → Line kbrd_buf (type_key kbrd_buf key k) (n + 1) (write text n key)
  unfolding type_key
  type_key-Line key room = record {
    marker = ground (arith, line.marker);
    count = ground (arith, line.count);
    fits = omega arith;
    bytes = λ i lt. ground (
      arith,
      line.marker,
      line.bytes i lt,
      putc_above key (row kbrd_buf k.current_terminal + i) at (omega (arith, above)),
    );
  }

  pub press_backspace-Line : 0 < n → 0 < p → Line kbrd_buf (press_backspace kbrd_buf k) (n - 1) text
  unfolding press_backspace
  press_backspace-Line some_key some_cell = record {
    marker = ground (arith, line.marker, line.count, line.fits);
    count = ground (arith, line.count);
    fits = omega (arith, line.fits);
    bytes = λ i lt. ground (
      arith,
      line.marker,
      line.count,
      line.bytes i lt,
      backspace_above (row kbrd_buf k.current_terminal + i) at some_cell (omega (arith, above)),
    );
  }

  pub press_enter-Line :
      k.read_lock k.current_terminal ≡ 0 → Line kbrd_buf (press_enter kbrd_buf 10 k) 0 text
  unfolding press_enter
  press_enter-Line unlocked = record {
    marker = ground (arith, unlocked);
    count = ground (arith, unlocked);
    fits = omega arith;
    bytes = λ i lt. ground (
      arith,
      unlocked,
      memset_lem (putc 10 k.current_terminal k.screen).mem (row kbrd_buf k.current_terminal) 0 128
          (row kbrd_buf k.current_terminal + i),
    );
  }

  pub type_key-Cursor :
      (key : ℕ) → Cursor (type_key kbrd_buf key k).screen k.current_terminal (advance key p)
  unfolding type_key
  type_key-Cursor key =
      let c = (putc_lem key at).0 in record { column = c.column; row = c.row; on_page = c.on_page }

  pub type_key-printed :
      (key x : ℕ)
      → x < kbrd_buf
      → (type_key kbrd_buf key k).screen.mem x ≡ printed key k.current_terminal p k.screen.mem x
  unfolding type_key
  type_key-printed key x below =
      let beside : (x == row kbrd_buf k.current_terminal + k.line_marker k.current_terminal)
          ≡ false =
        ground (arith, below) in
      if_false _ _ beside ∙ ap (λ m. m x) (putc_lem key at).1

  pub press_backspace-Cursor :
      0 < n → 0 < p → Cursor (press_backspace kbrd_buf k).screen k.current_terminal (p - 1)
  unfolding press_backspace
  press_backspace-Cursor some_key some_cell =
      let c = (backspace_lem at some_cell).0 in
      record {
        column = ground (arith, line.count, c.column);
        row = ground (arith, line.count, c.row);
        on_page = c.on_page;
      }

  pub press_enter-Cursor :
      Cursor (press_enter kbrd_buf 10 k).screen k.current_terminal (advance 10 p)
  unfolding press_enter
  press_enter-Cursor =
      let c = (putc_lem 10 at).0 in
      record { column = ground (arith, c.column); row = ground (arith, c.row); on_page = c.on_page }

pub dispatch-backspace :
    (kbrd_buf : ℕ) (k : Keyboard)
    → dispatch kbrd_buf backspace_press k ≡ some (press_backspace kbrd_buf k)
unfolding dispatch
dispatch-backspace kbrd_buf k = refl

pub dispatch-enter :
    (kbrd_buf : ℕ) (k : Keyboard)
    → dispatch kbrd_buf enter_press k ≡ some (press_enter kbrd_buf 10 k)
unfolding dispatch kbrdscancode
dispatch-enter kbrd_buf k = refl

-- The handler's end.
abbrev pub acknowledged : Keyboard → Keyboard
acknowledged k = record k { ports = send_eoi kbrd_irq k.ports }

pub Line-acknowledged :
    {kbrd_buf : ℕ} {k : Keyboard} {n : ℕ} {text : ℕ → ℕ}
    → Line kbrd_buf k n text
    → Line kbrd_buf (acknowledged k) n text
Line-acknowledged line = record {
  marker = line.marker;
  count = line.count;
  fits = line.fits;
  bytes = line.bytes;
}

pub kbrd_int-dispatch :
    (kbrd_buf scancode : ℕ) (k : Keyboard) {k' : Keyboard}
    → dispatch kbrd_buf scancode k ≡ some k'
    → kbrd_int kbrd_buf 1 scancode k ≡ some (acknowledged k')
unfolding kbrd_int
kbrd_int-dispatch kbrd_buf scancode k e = rw (e, kbrd_int) refl
