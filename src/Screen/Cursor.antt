-- ===== src/Screen/Cursor.antt =====
-- The cursor of a terminal as a position on its page, and the functions that move it.
use ece391_mp.Base.{
  ℕ, ◌+◌, ◌-◌, ◌*◌, ◌/◌, ◌%◌, ◌<◌, ◌≤◌, ◌≡◌, inl, inr, refl, arith, ltb, ◌||◌, ◌==◌, if◌then◌else◌,
  Bool-cases, ◌∙◌, true, false,
}
use mathlib.Core.Path.{subst}
use ece391_mp.Base.Int.{pos}
use ece391_mp.Base.Mem.{Mem}
use ece391_mp.Screen.{
  Screen, num_rows, num_cols, cell_address, vidmem_page, put_cell, new_line, put_visible, putc,
  put_noscroll, update_cursor, vert_scroll,
}

-- The cursor of terminal `t` stands at cell `p` of the 2000 cells, counted row by row.
pub record Cursor (s : Screen) (t p : ℕ) : Type 0 where
  pub column : s.screen_x t ≡ pos (p % num_cols)
  pub row : s.screen_y t ≡ pos (p / num_cols)
  pub on_page : p < num_rows * num_cols

-- Where the cursor goes when the character `c` is printed at `p`.
unfoldable pub advance : ℕ → ℕ → ℕ
advance c p =
    if (c == 10) || (c == 13)
    then (if ltb (p / num_cols + 1) num_rows
        then (p / num_cols + 1) * num_cols
        else (num_rows - 1) * num_cols)
    else if c == 0
    then p
    else if ltb (p + 1) (num_rows * num_cols)
    then p + 1
    else (num_rows - 1) * num_cols

-- What the page becomes.
unfoldable pub printed : ℕ → ℕ → ℕ → Mem → Mem
printed c t p m =
    if (c == 10) || (c == 13)
    then (if ltb (p / num_cols + 1) num_rows then m else vert_scroll t m)
    else if c == 0
    then m
    else (let m' = put_cell m (vidmem_page t + 2 * p) c in
        if ltb (p + 1) (num_rows * num_cols) then m' else vert_scroll t m')

pub vidmem_page_small : (t : ℕ) → vidmem_page t ≤ 0xBB000
unfolding vidmem_page
vidmem_page_small t = ground arith

pub cell_address_lem :
    (t p : ℕ)
    → p < num_rows * num_cols
    → cell_address t (pos (p / num_cols)) (pos (p % num_cols)) ≡ vidmem_page t + 2 * p
cell_address_lem t p lt = ground (arith, vidmem_page_small t)

module _ {s : Screen} {t p : ℕ} (at : Cursor s t p) where
  new_line-Cursor :
      (c : ℕ) → ((c == 10) || (c == 13)) ≡ true → Cursor (new_line t s) t (advance c p)
  unfolding new_line advance
  new_line-Cursor c line = record {
    column = ground (arith, at.column, at.row);
    row = ground (arith, at.column, at.row);
    on_page = ground (arith, at.on_page);
  }

  mem-new_line :
      (c : ℕ) → ((c == 10) || (c == 13)) ≡ true → (new_line t s).mem ≡ printed c t p s.mem
  unfolding new_line printed
  mem-new_line c line = ground (arith, at.column, at.row)

  -- The cell that is written, and the row that the cursor is in after it.
  here : cell_address t (s.screen_y t) (s.screen_x t) ≡ vidmem_page t + 2 * p
  here = rw (at.row, at.column) (cell_address_lem t p at.on_page)

  put_visible-Cursor :
      (c : ℕ)
      → ((c == 10) || (c == 13)) ≡ false
      → (c == 0) ≡ false
      → Cursor (put_visible c t s) t (advance c p)
  unfolding put_visible advance
  put_visible-Cursor c a b = record {
    column = ground (arith, at.column, at.row, at.on_page);
    row = ground (arith, at.column, at.row, at.on_page);
    on_page = ground (arith, at.on_page);
  }

  mem-put_visible :
      (c : ℕ)
      → ((c == 10) || (c == 13)) ≡ false
      → (c == 0) ≡ false
      → (put_visible c t s).mem ≡ printed c t p s.mem
  unfolding put_visible printed
  mem-put_visible c a b = ground (arith, at.column, at.row, at.on_page, here)

  pub mem-put_noscroll :
      (c : ℕ) → (put_noscroll c t s).mem ≡ put_cell s.mem (vidmem_page t + 2 * p) c
  unfolding put_noscroll
  mem-put_noscroll c = rw here

pub Cursor-same :
    {s s' : Screen} {t p : ℕ}
    → s'.screen_x t ≡ s.screen_x t
    → s'.screen_y t ≡ s.screen_y t
    → Cursor s t p
    → Cursor s' t p
Cursor-same ex ey at = record { column = ex ∙ at.column; row = ey ∙ at.row; on_page = at.on_page }

advance_nul : (p : ℕ) (c : ℕ) → ((c == 10) || (c == 13)) ≡ false → (c == 0) ≡ true → p ≡ advance c p
unfolding advance
advance_nul p c other nul = ground arith

printed_nul :
    (t p c : ℕ) (m : Mem) → ((c == 10) || (c == 13)) ≡ false → (c == 0) ≡ true → m ≡ printed c t p m
unfolding printed
printed_nul t p c m other nul = ground arith

-- `putc` on a terminal whose cursor is on its page: the cursor stays on the page and goes to the
-- next cell, the start of the next row, or, where that is behind the last row, to the last row of
-- the page scrolled up; a visible character is written at the old position, a NUL changes nothing,
-- and no other byte is written but by the scroll.
pub putc_lem :
    {s : Screen} {t p : ℕ} (c : ℕ)
    → Cursor s t p
    → Cursor (putc c t s) t (advance c p) × ((putc c t s).mem ≡ printed c t p s.mem)
unfolding putc update_cursor
putc_lem {s} {t} {p} c at = elim (Bool-cases ((c == 10) || (c == 13))) [
  | inl line ↦
      rw line (
        Cursor-same {s = new_line t s} refl refl (new_line-Cursor at c line),
        mem-new_line at c line,
      )
  | inr other ↦ rw other (elim (Bool-cases (c == 0)) [
    | inl nul ↦ rw nul (
      Cursor-same {s = s} refl refl (subst (Cursor s t) (advance_nul p c other nul) at),
      printed_nul t p c s.mem other nul,
    )
    | inr visible ↦ rw visible (
      Cursor-same {s = put_visible c t s} refl refl (put_visible-Cursor at c other visible),
      mem-put_visible at c other visible,
    )
  ])
]
