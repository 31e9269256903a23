-- ===== src/Terminal/Reading.antt =====
-- What a process gets from a line, and what of the line is left.
use ece391_mp.Base.{
  ℕ, ◌+◌, ◌-◌, ◌%◌, ◌<◌, ◌≤◌, ◌≡◌, inl, inr, refl, ap, ◌∙◌, arith, leb, ltb, ◌&&◌, if◌then◌else◌,
}
use ece391_mp.Base.Int.{pos}
use ece391_mp.Str.Copy.{Apart}
use ece391_mp.Terminal.Transfer.{lt-cases, ended, given, left, left-buf, left-row}
use ece391_mp.Keyboard.{Keyboard, row, kbrd_buf_length_max}
use ece391_mp.Terminal.{take_line, finish_read}

-- The displayed terminal's buffer holds `n` characters that wait for a reader, and is cleared behind
-- them.
pub record Pending (kbrd_buf : ℕ) (k : Keyboard) (n : ℕ) (text : ℕ → ℕ) : Type 0 where
  pub marker : k.line_marker k.current_terminal ≡ n
  pub fits : n < kbrd_buf_length_max
  pub bytes :
      (i : ℕ)
      → i < kbrd_buf_length_max
      → k.screen.mem (row kbrd_buf k.current_terminal + i) ≡ (if ltb i n then text i else 0)

if_below : (a i k : ℕ) → i < k → (if ltb i k then a else 10) ≡ a
if_below a i k lt = ground arith

if_above : (a k : ℕ) → (if ltb k k then a else 10) ≡ 10
if_above a k = ground arith

shifted_line :
    {kbrd_buf n nbytes i : ℕ} {text : ℕ → ℕ} {k : Keyboard}
    → Pending kbrd_buf k n text
    → 0 < nbytes
    → i < 128
    → let m = k.screen.mem in
      let r = row kbrd_buf k.current_terminal in
      let kept = n + 1 - nbytes in
      (if leb kept i && ltb i (kept + nbytes)
        then 0
        else if ltb i kept
        then m (r + (nbytes - 1 + i))
        else m (r + i))
      ≡ (if ltb i kept then text (nbytes - 1 + i) else 0)
shifted_line {kbrd_buf} {n} {nbytes} {i} {text} {k} line some_bytes lt =
    elim (lt-cases i (n + 1 - nbytes)) [
      | inl below ↦ ground (arith, line.bytes (nbytes - 1 + i) (omega (arith, line.fits)))
      | inr above ↦ ground (arith, line.bytes i lt)
    ]

finish_read-mem :
    (kbrd_buf kbrd_read_buf buf nbytes : ℕ) {n : ℕ} (k : Keyboard)
    → k.line_marker k.current_terminal ≡ n
    → nbytes ≤ 128
    → (finish_read kbrd_buf kbrd_read_buf buf nbytes k).1.screen.mem
      ≡ left k.screen.mem
          (row kbrd_buf k.current_terminal)
          kbrd_read_buf
          buf
          nbytes
          (n + 1 - nbytes)
unfolding finish_read take_line left given ended
finish_read-mem kbrd_buf kbrd_read_buf buf nbytes {n} k marker most =
    let e : (if ltb nbytes 128 then nbytes else 128) ≡ nbytes = ground arith in
    let e' : (if ltb (k.line_marker k.current_terminal) nbytes
          then 0
          else k.line_marker k.current_terminal + 1 - nbytes)
        ≡ n + 1 - nbytes =
      ground (arith, marker) in
    let r = row kbrd_buf k.current_terminal in
    let stored = left k.screen.mem r kbrd_read_buf buf in
    let marker_kept =
      if ltb (k.line_marker k.current_terminal) nbytes
      then 0
      else k.line_marker k.current_terminal + 1 - nbytes in
    ap (λ a. stored a marker_kept) e ∙ ap (λ b. stored nbytes b) e'

finish_read-count :
    (kbrd_buf kbrd_read_buf buf nbytes : ℕ) (k : Keyboard)
    → nbytes ≤ 128
    → (finish_read kbrd_buf kbrd_read_buf buf nbytes k).0 ≡ pos nbytes
unfolding finish_read
finish_read-count kbrd_buf kbrd_read_buf buf nbytes k most = ground arith

finish_read-marker :
    (kbrd_buf kbrd_read_buf buf nbytes : ℕ) {n : ℕ} (k : Keyboard)
    → k.line_marker k.current_terminal ≡ n
    → n < 128
    → (finish_read kbrd_buf kbrd_read_buf buf nbytes k).1.line_marker k.current_terminal
      ≡ (n + 1 - nbytes) % 256
unfolding finish_read take_line
finish_read-marker kbrd_buf kbrd_read_buf buf nbytes k marker fits = ground (arith, marker)

finish_read-terminal :
    (kbrd_buf kbrd_read_buf buf nbytes : ℕ) (k : Keyboard)
    → (finish_read kbrd_buf kbrd_read_buf buf nbytes k).1.current_terminal ≡ k.current_terminal
unfolding finish_read take_line
finish_read-terminal kbrd_buf kbrd_read_buf buf nbytes k = refl

-- What `terminal_read` does behind its wait, for 1 to 128 bytes and buffers that lie apart. It
-- returns `nbytes`, whatever the length of the line: `nbytes - 1` characters of the line, NULs where
-- the line is shorter, and a newline as the last byte. The characters behind those stay in the
-- buffer, moved to its start.
pub finish_read_lem :
    {kbrd_buf kbrd_read_buf buf nbytes n : ℕ} {text : ℕ → ℕ} {k : Keyboard}
    → Pending kbrd_buf k n text
    → 0 < nbytes
    → nbytes ≤ 128
    → Apart kbrd_read_buf 128 (row kbrd_buf k.current_terminal) 128
    → Apart buf nbytes kbrd_read_buf 128
    → Apart buf nbytes (row kbrd_buf k.current_terminal) 128
    → let (count, k') = finish_read kbrd_buf kbrd_read_buf buf nbytes k in
      (count ≡ pos nbytes)
      × ((i : ℕ) → i < nbytes - 1 → k'.screen.mem (buf + i) ≡ (if ltb i n then text i else 0))
      × (k'.screen.mem (buf + (nbytes - 1)) ≡ 10)
      × Pending kbrd_buf k' (n + 1 - nbytes) (λ i. text (nbytes - 1 + i))
unfolding finish_read take_line
finish_read_lem {kbrd_buf} {kbrd_read_buf} {buf} {nbytes} {n} {text} {k} line some_bytes most apart1
      apart2 apart3 =
    let m = k.screen.mem in
    let r = row kbrd_buf k.current_terminal in
    let kept = n + 1 - nbytes in
    let e = finish_read-mem kbrd_buf kbrd_read_buf buf nbytes k line.marker most in
    (
      finish_read-count kbrd_buf kbrd_read_buf buf nbytes k most,
      λ i lt.
          ap (λ v. v (buf + i)) e
          ∙ left-buf m r kbrd_read_buf buf nbytes kept i some_bytes most (omega (arith, line.fits))
              (omega arith) apart1 apart2 apart3
          ∙ if_below (m (r + i)) i (nbytes - 1) lt
          ∙ line.bytes i (omega arith),
      ap (λ v. v (buf + (nbytes - 1))) e
          ∙ left-buf m r kbrd_read_buf buf nbytes kept (nbytes - 1) some_bytes most
              (omega (arith, line.fits)) (omega arith) apart1 apart2 apart3
          ∙ if_above (m (r + (nbytes - 1))) (nbytes - 1),
      record {
        marker =
            finish_read-marker kbrd_buf kbrd_read_buf buf nbytes k line.marker line.fits
            ∙ omega (arith, line.fits);
        fits = omega (arith, line.fits);
        bytes = λ i lt.
            ap (λ v. v (r + i)) e
            ∙ left-row m r kbrd_read_buf buf nbytes kept i some_bytes (omega (arith, line.fits)) lt
                apart1 apart2 apart3
            ∙ shifted_line line some_bytes lt;
      },
    )
