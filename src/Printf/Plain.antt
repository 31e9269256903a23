-- ===== src/Printf/Plain.antt =====
-- `printf` of a text without conversions.
use ece391_mp.Base.{
  ℕ, zero, suc, ◌+◌, ◌<◌, ◌≤◌, ◌≡◌, ◌≢◌, refl, arith, some, List, ◌==◌, true, false, ap, sym, ◌∙◌,
}
use mathlib.Core.Path.{subst}
use ece391_mp.Base.Mem.{Mem}
use ece391_mp.Str.{scan_limit}
use ece391_mp.Str.Length.{IsStr}
use ece391_mp.Screen.{Screen, putc}
use ece391_mp.Screen.Cursor.{Cursor, advance, printed, putc_lem}
use ece391_mp.Screen.Edit.{advance_all}
use ece391_mp.Screen.Terminals.{pages_end, putc_above, curr_terminal-putc}
use ece391_mp.Printf.{text, printf_from, printf}

-- The memory when the `n` characters at `a` are printed at cell `p` of terminal `t`, one after the
-- other.
unfoldable pub printed_all : Mem → ℕ → ℕ → ℕ → ℕ → Mem → Mem
printed_all str a zero t p m = m
printed_all str a (suc n) t p m =
    printed_all str (a + 1) n t (advance (str a) p) (printed (str a) t p m)

-- From character `i` of `n + i` on, with the text as it was in `str`.
printf_from-plain :
    (k n : ℕ) (conv_buf format i : ℕ) (args : List ℕ) (str : Mem) (s : Screen) {p : ℕ}
    → n < k
    → IsStr str format (i + n)
    → ((j : ℕ) → j < i + n → str (format + j) ≢ b'%')
    → pages_end ≤ format
    → ((x : ℕ) → pages_end ≤ x → s.mem x ≡ str x)
    → Cursor s s.curr_terminal p
    → (s' : Screen) × (printf_from k conv_buf text (format + i) args s ≡ some (format + i + n, s'))
      × (s'.curr_terminal ≡ s.curr_terminal)
      × Cursor s' s.curr_terminal (advance_all str (format + i) n p)
      × (s'.mem ≡ printed_all str (format + i) n s.curr_terminal p s.mem)
unfolding printf_from advance_all printed_all
printf_from-plain zero n conv_buf format i args str s lt is plain above same at =
    absurd (omega arith)
printf_from-plain (suc k) zero conv_buf format i args str s lt is plain above same at =
    let end : (s.mem (format + i) == 0) ≡ true =
      ground (arith, is.nul, same (format + i) (omega arith)) in
    (s, rw (end, printf_from) (ap (λ x. some (x, s)) (omega arith)), refl, at, refl)
printf_from-plain (suc k) (suc n) conv_buf format i args str s {p} lt is plain above same at =
    let c = s.mem (format + i) in
    let t = s.curr_terminal in
    let e : c ≡ str (format + i) = same (format + i) (omega arith) in
    let more : (c == 0) ≡ false = ground (arith, is.nonzero i, e) in
    let letter : (c == b'%') ≡ false = ground (arith, plain i (omega arith), e) in
    let s1 = putc c t s in
    let same1 : (x : ℕ) → pages_end ≤ x → s1.mem x ≡ str x =
      λ x high. putc_above c x at high ∙ same x high in
    let stays : s1.curr_terminal ≡ t = curr_terminal-putc c t s in
    let at1 : Cursor s1 s1.curr_terminal (advance c p) =
      subst (λ u. Cursor s1 u (advance c p)) (sym stays) (putc_lem c at).0 in
    let is1 : IsStr str format (i + 1 + n) = subst (IsStr str format) (omega arith) is in
    let (s', run, shown, done, written) =
      printf_from-plain k n conv_buf format (i + 1) args str s1 (omega arith) is1
        (λ j lt'. plain j (omega arith)) above same1 at1 in
    (
      s',
      rw (more, printf_from)
          (rw (letter, printf_from)
            (subst (λ b. printf_from k conv_buf text b args s1 ≡ some (b + n, s')) (omega arith) run
              ∙ ap (λ x. some (x, s')) (omega arith))),
      shown ∙ stays,
      subst (λ u. Cursor s' u (advance_all str (format + i + 1) n (advance (str (format + i)) p)))
          stays
          (subst
            (λ b. Cursor s' s1.curr_terminal (advance_all str b n (advance (str (format + i)) p)))
            (omega arith)
            (subst
              (λ v. Cursor s' s1.curr_terminal (advance_all str (format + (i + 1)) n (advance v p)))
              e done)),
      written
          ∙ (λ j.
              printed_all str (format + (i + 1)) n (stays j) (advance c p) ((putc_lem c at).1 j))
          ∙ ap (λ v. printed_all str (format + (i + 1)) n t (advance v p) (printed v t p s.mem)) e
          ∙ ap
              (λ b.
                printed_all str b n t (advance (str (format + i)) p)
                  (printed (str (format + i)) t p s.mem))
              (omega arith),
    )

-- `printf` of a text without `%`, above the pages of the screen, while the cursor of the displayed
-- terminal is on its page: it returns the length of the text, the memory is what printing the characters
-- one after the other from the cursor on makes of it, and the cursor is behind them.
pub printf_plain :
    (conv_buf format n : ℕ) (args : List ℕ) (s : Screen) {p : ℕ}
    → IsStr s.mem format n
    → ((j : ℕ) → j < n → s.mem (format + j) ≢ b'%')
    → pages_end ≤ format
    → Cursor s s.curr_terminal p
    → (s' : Screen) × (printf conv_buf format args s ≡ some (n, s'))
      × Cursor s' s.curr_terminal (advance_all s.mem format n p)
      × (s'.mem ≡ printed_all s.mem format n s.curr_terminal p s.mem)
unfolding printf
printf_plain conv_buf format n args s {p} is plain above at =
    let (s', run, shown, done, written) =
      printf_from-plain scan_limit n conv_buf format 0 args s.mem s is.small
        (subst (IsStr s.mem format) (omega arith) is) (λ j lt. plain j (omega arith)) above
        (λ x high. refl) at in
    let run' : printf_from scan_limit conv_buf text format args s ≡ some (format + n, s') =
      subst (λ b. printf_from scan_limit conv_buf text b args s ≡ some (b + n, s')) (omega arith)
        run in
    (
      s',
      rw (run', printf) (ap (λ x. some (x, s')) (omega arith)),
      subst (λ b. Cursor s' s.curr_terminal (advance_all s.mem b n p)) (omega arith) done,
      written ∙ ap (λ b. printed_all s.mem b n s.curr_terminal p s.mem) (omega arith),
    )
