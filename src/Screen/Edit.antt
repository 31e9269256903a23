-- ===== src/Screen/Edit.antt =====
-- Backspace, and strings.
use ece391_mp.Base.{
  ℕ, zero, suc, ◌+◌, ◌-◌, ◌*◌, ◌%◌, ◌<◌, ◌≤◌, ◌≡◌, ◌≢◌, refl, arith, ◌==◌, ◌∙◌, true, false, some,
  ap,
}
use mathlib.Core.Path.{subst}
use native.Mathlib.Decide.{ℕ_discrete}
use ece391_mp.Base.Int.{pos, negsuc, ◌-ℤ◌, eqb_ℤ}
use ece391_mp.Base.Mem.{Mem}
use ece391_mp.Str.{scan_limit}
use ece391_mp.Str.Length.{IsStr}
use ece391_mp.Screen.{
  Screen, store, num_rows, num_cols, cell_address, vidmem_page, put_cell, putc, put_noscroll,
  putcforcenoscroll, backspace_helper, update_cursor, puts, puts_from,
}
use ece391_mp.Screen.Cursor.{
  Cursor, advance, printed, putc_lem, vidmem_page_small, mem-put_noscroll,
}

module _ {s : Screen} {t p : ℕ} (at : Cursor s t p) where
  -- At column 0.
  up : Screen
  up = record s {
    screen_x = store s.screen_x t (pos (num_cols - 1));
    screen_y = store s.screen_y t (s.screen_y t -ℤ pos 1);
  }

  back : Screen
  back = record s { screen_x = store s.screen_x t (s.screen_x t -ℤ pos 1) }

  back-Cursor : p % num_cols ≢ 0 → Cursor back t (p - 1)
  unfolding back
  back-Cursor inside = record {
    column = ground (arith, at.column);
    row = ground (arith, at.row);
    on_page = omega (arith, at.on_page);
  }

  up-Cursor : 0 < p → p % num_cols ≡ 0 → Cursor up t (p - 1)
  unfolding up
  up-Cursor some_cell edge = record {
    column = ground (arith, at.column);
    row = ground (arith, at.row);
    on_page = omega (arith, at.on_page);
  }

advance_space : (p : ℕ) → 0 < p → p < num_rows * num_cols → advance b' ' (p - 1) ≡ p
unfolding advance
advance_space p some_cell lt = ground arith

printed_space :
    (t p : ℕ) (m : Mem)
    → 0 < p
    → p < num_rows * num_cols
    → printed b' ' t (p - 1) m ≡ put_cell m (vidmem_page t + 2 * (p - 1)) b' '
unfolding printed
printed_space t p m some_cell lt = ground arith

Cursor-left :
    {s s' : Screen} {t p : ℕ}
    → s'.screen_x t ≡ s.screen_x t -ℤ pos 1
    → s'.screen_y t ≡ s.screen_y t
    → p % num_cols ≢ 0
    → Cursor s t p
    → Cursor s' t (p - 1)
Cursor-left {s} {s'} {t} {p} ex ey inside at = record {
  column = ex ∙ rw at.column (ground arith);
  row = ey ∙ at.row ∙ ap pos (omega arith);
  on_page = omega (arith, at.on_page);
}

backspace_inside :
    {s : Screen} {t p : ℕ}
    → Cursor s t p
    → p % num_cols ≢ 0
    → Cursor (backspace_helper t s) t (p - 1)
      × ((backspace_helper t s).mem ≡ put_cell s.mem (vidmem_page t + 2 * (p - 1)) b' ')
unfolding backspace_helper update_cursor back
backspace_inside {s} {t} {p} at inside =
    let (moved, page) = putc_lem b' ' (back-Cursor at inside) in
    let some_cell : 0 < p = omega arith in
    let not_edge : eqb_ℤ (s.screen_x t) (pos 0) ≡ false = rw at.column (ground arith) in
    let moved' : Cursor (putc b' ' t (back at)) t p =
      rw (advance_space p some_cell at.on_page) at moved in
    rw not_edge (
      Cursor-left {s = putc b' ' t (back at)} (ground arith) refl inside moved',
      page ∙ printed_space t p s.mem some_cell at.on_page,
    )

backspace_edge :
    {s : Screen} {t p : ℕ}
    → Cursor s t p
    → 0 < p
    → p % num_cols ≡ 0
    → Cursor (backspace_helper t s) t (p - 1)
      × ((backspace_helper t s).mem ≡ put_cell s.mem (vidmem_page t + 2 * (p - 1)) b' ')
unfolding backspace_helper update_cursor putcforcenoscroll put_noscroll up
backspace_edge {s} {t} {p} at some_cell edge =
    let above = up-Cursor at some_cell edge in
    let at_edge : eqb_ℤ (s.screen_x t) (pos 0) ≡ true = rw at.column (ground arith) in
    rw at_edge (
      record { column = ground arith; row = ground (arith, above.row); on_page = above.on_page },
      mem-put_noscroll above b' ',
    )

-- Backspace behind the first cell of the page puts the cursor one cell back, across the start of a
-- row too, and blanks that cell; nothing scrolls and nothing else is written.
pub backspace_lem :
    {s : Screen} {t p : ℕ}
    → Cursor s t p
    → 0 < p
    → Cursor (backspace_helper t s) t (p - 1)
      × ((backspace_helper t s).mem ≡ put_cell s.mem (vidmem_page t + 2 * (p - 1)) b' ')
backspace_lem {s} {t} {p} at some_cell = elim (ℕ_discrete (p % num_cols) 0) [
  | yes edge ↦ backspace_edge at some_cell edge
  | no inside ↦ backspace_inside at inside
]

home_address : (t : ℕ) → 2 ≤ vidmem_page t → cell_address t (negsuc 0) (pos 79) ≡ vidmem_page t - 2
home_address t low = ground (arith, vidmem_page_small t)

-- Backspace at the first cell of a terminal's page leaves the page: the row becomes -1, and the two
-- bytes below the page are overwritten.
pub backspace_home :
    {s : Screen} {t : ℕ}
    → Cursor s t 0
    → 2 ≤ vidmem_page t
    → ((backspace_helper t s).screen_y t ≡ negsuc 0)
      × ((backspace_helper t s).mem ≡ put_cell s.mem (vidmem_page t - 2) b' ')
unfolding backspace_helper update_cursor putcforcenoscroll put_noscroll up
backspace_home {s} {t} at low =
    let at_edge : eqb_ℤ (s.screen_x t) (pos 0) ≡ true = rw at.column (ground arith) in
    rw at_edge (
      rw at.row (ground arith),
      ap (λ a. put_cell s.mem a b' ') (ground (arith, home_address t low, at.row)),
    )

-- The cells that a string takes, printed from `p` on.
unfoldable pub advance_all : Mem → ℕ → ℕ → ℕ → ℕ
advance_all str a zero p = p
advance_all str a (suc n) p = advance_all str (a + 1) n (advance (str a) p)

puts_from-Cursor :
    (k n : ℕ) (str : Mem) (a i t p : ℕ) (s : Screen)
    → IsStr str a (i + n)
    → n < k
    → Cursor s t p
    → (s' : Screen) × (puts_from k str a i t s ≡ some (i + n, s'))
      × Cursor s' t (advance_all str (a + i) n p)
unfolding puts_from advance_all
puts_from-Cursor zero n str a i t p s text lt at = absurd (omega arith)
puts_from-Cursor (suc k) zero str a i t p s text lt at =
    let end : (str (a + i) == 0) ≡ true = ground (arith, text.nul) in
    (s, rw (end, puts_from) (ap (λ x. some (x, s)) (omega arith)), at)
puts_from-Cursor (suc k) (suc n) str a i t p s text lt at =
    let more : (str (a + i) == 0) ≡ false = ground (arith, text.nonzero i) in
    let (moved, page) = putc_lem (str (a + i)) at in
    let text' : IsStr str a (i + 1 + n) = subst (IsStr str a) (omega arith) text in
    let (s', run, done) =
      puts_from-Cursor k n str a (i + 1) t (advance (str (a + i)) p) (putc (str (a + i)) t s) text'
        (omega arith) moved in
    (
      s',
      rw (more, puts_from) (run ∙ ap (λ x. some (x, s')) (omega arith)),
      subst (λ x. Cursor s' t (advance_all str x n (advance (str (a + i)) p))) (omega arith) done,
    )

-- `puts` of a string, on a terminal whose cursor is on its page, returns its length, and leaves the
-- cursor on the page, where printing the characters one after the other takes it.
pub puts_lem :
    (n : ℕ) (str : Mem) (a t p : ℕ) (s : Screen)
    → IsStr str a n
    → Cursor s t p
    → (s' : Screen) × (puts str a t s ≡ some (n, s')) × Cursor s' t (advance_all str a n p)
unfolding puts
puts_lem n str a t p s text at =
    let text' : IsStr str a (0 + n) = subst (IsStr str a) (omega arith) text in
    let (s', run, done) = puts_from-Cursor scan_limit n str a 0 t p s text' text.small at in
    (
      s',
      run ∙ ap (λ x. some (x, s')) (omega arith),
      subst (λ x. Cursor s' t (advance_all str x n p)) (omega arith) done,
    )
