-- ===== src/Terminal/Writing.antt =====
-- What `terminal_write` prints.
use ece391_mp.Base.{ℕ, zero, suc, ◌+◌, ◌≤◌, ◌≡◌, ◌≢◌, refl, arith, ◌∙◌}
use mathlib.Core.Path.{subst}
use ece391_mp.Base.Int.{pos}
use ece391_mp.Base.Mem.{Mem}
use ece391_mp.Screen.{Screen, putc}
use ece391_mp.Screen.Cursor.{Cursor, advance, putc_lem}
use ece391_mp.Screen.Edit.{advance_all}
use ece391_mp.Keyboard.{Keyboard}
use ece391_mp.Terminal.{write_loop, terminal_write}
use ece391_mp.Screen.Terminals.{pages_end, putc_above}

-- The buffer is not on a page of the screen, so `str`, what it holds at the start, is what the loop
-- reads.
write_loop-Cursor :
    (n buf i : ℕ) {s : Screen} {t p : ℕ} (str : Mem)
    → Cursor s t p
    → pages_end ≤ buf
    → ((x : ℕ) → pages_end ≤ x → s.mem x ≡ str x)
    → Cursor (write_loop n t buf i s) t (advance_all str (buf + i) n p)
unfolding write_loop advance_all
write_loop-Cursor zero buf i str at above same = at
write_loop-Cursor (suc n) buf i {s} {t} {p} str at above same =
    let c = s.mem (buf + i) in
    let same' : (x : ℕ) → pages_end ≤ x → (putc c t s).mem x ≡ str x =
      λ x high. putc_above c x at high ∙ same x high in
    let rest = write_loop-Cursor n buf (i + 1) str (putc_lem c at).0 above same' in
    let e : c ≡ str (buf + i) = same (buf + i) (omega arith) in
    let moved =
      subst
        (λ a.
          Cursor (write_loop n t buf (i + 1) (putc c t s)) t (advance_all str a n (advance c p)))
        (omega arith) rest in
    subst
      (λ v.
        Cursor (write_loop n t buf (i + 1) (putc c t s)) t
          (advance_all str (buf + i + 1) n (advance v p)))
      e moved

-- `terminal_write` of a buffer that is not on a page of the screen returns `nbytes`, and leaves the
-- cursor of the process's terminal on its page, where printing the bytes one after the other takes it.
pub terminal_write_lem :
    (buf nbytes : ℕ) (k : Keyboard) {t p : ℕ}
    → Cursor k.screen t p
    → buf ≢ 0
    → pages_end ≤ buf
    → ((terminal_write t buf nbytes k).0 ≡ pos nbytes)
      × Cursor (terminal_write t buf nbytes k).1.screen t (advance_all k.screen.mem buf nbytes p)
unfolding terminal_write
terminal_write_lem buf nbytes k {t} {p} at there above =
    let done = write_loop-Cursor nbytes buf 0 k.screen.mem at above (λ x high. refl) in
    let done' : Cursor (write_loop nbytes t buf 0 k.screen) t
        (advance_all k.screen.mem buf nbytes p) =
      subst
        (λ a. Cursor (write_loop nbytes t buf 0 k.screen) t (advance_all k.screen.mem a nbytes p))
        (omega arith) done in
    (
      ground (arith, there),
      record {
        column = ground (arith, there, done'.column);
        row = ground (arith, there, done'.row);
        on_page = done'.on_page;
      },
    )
