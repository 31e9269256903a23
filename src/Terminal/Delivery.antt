-- ===== src/Terminal/Delivery.antt =====
-- From the line that was typed to the bytes that a process gets: `terminal_read` with its wait.
use ece391_mp.Base.{
  ℕ, ◌+◌, ◌-◌, ◌<◌, ◌≤◌, ◌≡◌, ◌≢◌, List, [], ◌∷◌, some, refl, arith, ltb, ◌∙◌, ap, sym,
  if◌then◌else◌,
}
use mathlib.Core.Path.{subst}
use ece391_mp.Base.Int.{pos}
use ece391_mp.Base.Mem.{write}
use ece391_mp.Str.Copy.{Apart}
use ece391_mp.Screen.Cursor.{Cursor}
use ece391_mp.Keyboard.{Keyboard, row, kbrd_int, press_enter, enter_press}
use ece391_mp.Terminal.{terminal_wait, terminal_read, finish_read}
use ece391_mp.Screen.Terminals.{putc_above, pages_end}
use ece391_mp.Keyboard.Line.{Line, acknowledged, dispatch-enter, kbrd_int-dispatch}
use ece391_mp.Terminal.Reading.{Pending, finish_read_lem}

terminal_wait-up :
    (kbrd_buf t : ℕ) (events : List (ℕ × ℕ)) (k : Keyboard)
    → k.is_enter t ≡ 1
    → terminal_wait kbrd_buf t events k ≡ some (k, events)
unfolding terminal_wait
terminal_wait-up kbrd_buf t [] k up = ground (arith, up)
terminal_wait-up kbrd_buf t ((status, scancode) ∷ events) k up = ground (arith, up)

terminal_wait-down :
    (kbrd_buf t status scancode : ℕ) (events : List (ℕ × ℕ)) (k : Keyboard) {k' : Keyboard}
    → k.is_enter t ≡ 0
    → kbrd_int kbrd_buf status scancode k ≡ some k'
    → terminal_wait kbrd_buf t ((status, scancode) ∷ events) k ≡ terminal_wait kbrd_buf t events k'
unfolding terminal_wait
terminal_wait-down kbrd_buf t status scancode events k down e =
    rw (down, terminal_wait) (rw (e, terminal_wait) refl)

-- The state in which `terminal_read` waits.
abbrev pub waiting : Keyboard → Keyboard
waiting k = record k {
  read_lock = write k.read_lock k.current_terminal 1;
  is_enter = write k.is_enter k.current_terminal 0;
}

-- The state behind the Enter that ends the wait.
abbrev pub entered : ℕ → Keyboard → Keyboard
entered kbrd_buf k = acknowledged (press_enter kbrd_buf 10 (waiting k))

entered-up : (kbrd_buf : ℕ) (k : Keyboard) → (entered kbrd_buf k).is_enter k.current_terminal ≡ 1
unfolding press_enter
entered-up kbrd_buf k = ground arith

waiting-down : (k : Keyboard) → (waiting k).is_enter k.current_terminal ≡ 0
waiting-down k = ground arith

entered-Pending :
    {kbrd_buf n p : ℕ} {text : ℕ → ℕ} {k : Keyboard}
    → Line kbrd_buf k n text
    → Cursor k.screen k.current_terminal p
    → pages_end ≤ kbrd_buf
    → Pending kbrd_buf (entered kbrd_buf k) n text
unfolding press_enter
entered-Pending {kbrd_buf} {n} {p} {text} {k} line at above = record {
  marker = ground (arith, line.marker);
  fits = line.fits;
  bytes = λ i lt. ground (
    arith,
    line.bytes i lt,
    putc_above 10 (row kbrd_buf k.current_terminal + i) at (omega (arith, above)),
  );
}

entered-terminal :
    (kbrd_buf : ℕ) (k : Keyboard) → (entered kbrd_buf k).current_terminal ≡ k.current_terminal
unfolding press_enter
entered-terminal kbrd_buf k = ground arith

terminal_wait-enter :
    (kbrd_buf : ℕ) (events : List (ℕ × ℕ)) (k : Keyboard)
    → terminal_wait kbrd_buf k.current_terminal ((1, enter_press) ∷ events) (waiting k)
      ≡ some (entered kbrd_buf k, events)
terminal_wait-enter kbrd_buf events k =
    terminal_wait-down kbrd_buf k.current_terminal 1 enter_press events (waiting k) (waiting-down k)
      (kbrd_int-dispatch kbrd_buf enter_press (waiting k) (dispatch-enter kbrd_buf (waiting k)))
    ∙ terminal_wait-up kbrd_buf k.current_terminal events (entered kbrd_buf k)
        (entered-up kbrd_buf k)

terminal_read-wait :
    (kbrd_buf kbrd_read_buf buf nbytes : ℕ) (events : List (ℕ × ℕ)) (k : Keyboard) {k' : Keyboard}
    {rest : List (ℕ × ℕ)}
    → buf ≢ 0
    → terminal_wait kbrd_buf k.current_terminal events (waiting k) ≡ some (k', rest)
    → terminal_read kbrd_buf kbrd_read_buf k.current_terminal buf nbytes events k
      ≡ some (finish_read kbrd_buf kbrd_read_buf buf nbytes k', rest)
unfolding terminal_read
terminal_read-wait kbrd_buf kbrd_read_buf buf nbytes events k there e = ground (arith, e)

-- A process on the displayed terminal calls `terminal_read` for 1 to 128 bytes into a buffer that
-- lies apart from the two of the keyboard, and Enter is the next key: the call returns `nbytes`,
-- with the first `nbytes - 1` characters of the line that was typed before, NULs where the line is
-- shorter, and a newline as the last byte. What of the line is not read stays pending.
pub terminal_read_delivers :
    {kbrd_buf kbrd_read_buf buf nbytes n p : ℕ} {text : ℕ → ℕ} {k : Keyboard} (later : List (ℕ × ℕ))
    → Line kbrd_buf k n text
    → Cursor k.screen k.current_terminal p
    → pages_end ≤ kbrd_buf
    → buf ≢ 0
    → 0 < nbytes
    → nbytes ≤ 128
    → Apart kbrd_read_buf 128 (row kbrd_buf k.current_terminal) 128
    → Apart buf nbytes kbrd_read_buf 128
    → Apart buf nbytes (row kbrd_buf k.current_terminal) 128
    → (k' : Keyboard) × (terminal_read kbrd_buf kbrd_read_buf k.current_terminal buf nbytes
          ((1, enter_press) ∷ later)
          k
        ≡ some ((pos nbytes, k'), later))
      × ((i : ℕ) → i < nbytes - 1 → k'.screen.mem (buf + i) ≡ (if ltb i n then text i else 0))
      × (k'.screen.mem (buf + (nbytes - 1)) ≡ 10)
      × Pending kbrd_buf k' (n + 1 - nbytes) (λ i. text (nbytes - 1 + i))
terminal_read_delivers {kbrd_buf} {kbrd_read_buf} {buf} {nbytes} {n} {p} {text} {k} later line at
      above there some_bytes most apart1 apart2 apart3 =
    let k1 = entered kbrd_buf k in
    let same = sym (entered-terminal kbrd_buf k) in
    let read =
      finish_read_lem (entered-Pending line at above) some_bytes most
        (subst (λ t. Apart kbrd_read_buf 128 (row kbrd_buf t) 128) same apart1) apart2
        (subst (λ t. Apart buf nbytes (row kbrd_buf t) 128) same apart3) in
    let (count, bytes, newline, left) = read in
    let k' = (finish_read kbrd_buf kbrd_read_buf buf nbytes k1).1 in
    (
      k',
      terminal_read-wait kbrd_buf kbrd_read_buf buf nbytes ((1, enter_press) ∷ later) k there
            (terminal_wait-enter kbrd_buf later k)
          ∙ ap (λ c. some ((c, k'), later)) count,
      bytes,
      newline,
      left,
    )
