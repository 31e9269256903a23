-- ===== src/Screen/Scroll.antt =====
-- Blanking and scrolling a page, cell by cell.
use ece391_mp.Base.{
  ℕ, zero, suc, ◌+◌, ◌-◌, ◌*◌, ◌%◌, ◌≡◌, arith, leb, ltb, ◌&&◌, ◌==◌, if◌then◌else◌,
}
use ece391_mp.Base.Mem.{Mem}
use ece391_mp.Screen.{
  put_cell, blank_cells, scroll_cells, vert_scroll, vidmem_page, num_rows, num_cols, attrib,
}

-- The byte at offset `o` of a blank page.
abbrev pub blank_byte : ℕ → ℕ
blank_byte o = if o % 2 == 0 then b' ' else attrib

put_cell_lem :
    (m : Mem) (a c x : ℕ)
    → put_cell m a c x ≡ (if x == a then c else if x == a + 1 then attrib else m x)
unfolding put_cell
put_cell_lem m a c x = ground arith

pub blank_cells_lem :
    (k page i x : ℕ) (m : Mem)
    → blank_cells k page m i x
      ≡ (if leb (page + 2 * i) x && ltb x (page + 2 * (i + k)) then blank_byte (x - page) else m x)
unfolding blank_cells
blank_cells_lem zero page i x m = ground arith
blank_cells_lem (suc k) page i x m =
    let a = page + 2 * i in
    ground (arith, blank_cells_lem k page (i + 1) x (put_cell m a b' '), put_cell_lem m a b' ' x)

-- The byte at offset `o` of a page that scrolls up by a row: the character from the row below.
abbrev pub scrolled_byte : Mem → ℕ → ℕ → ℕ
scrolled_byte m page o = if o % 2 == 0 then m (page + o + 2 * num_cols) else attrib

scroll_cells_lem :
    (k page i x : ℕ) (m : Mem)
    → scroll_cells k page m i x ≡ (
        if leb (page + 2 * i) x && ltb x (page + 2 * (i + k))
        then scrolled_byte m page (x - page)
        else m x)
unfolding scroll_cells
scroll_cells_lem zero page i x m = ground arith
scroll_cells_lem (suc k) page i x m =
    let a = page + 2 * i in
    let c = m (page + 2 * (i + num_cols)) in
    let m' = put_cell m a c in
    ground (
      arith,
      scroll_cells_lem k page (i + 1) x m',
      put_cell_lem m a c x,
      put_cell_lem m a c (page + (x - page) + 2 * num_cols),
    )

-- `vert_scroll` moves each row of the terminal's page up by one, with the attributes set, blanks the
-- last row, and writes nothing outside the 4000 bytes of the page.
pub vert_scroll_lem :
    (t x : ℕ) (m : Mem)
    → let page = vidmem_page t in
      vert_scroll t m x ≡ (
        if leb page x && ltb x (page + 2 * (num_rows - 1) * num_cols)
        then scrolled_byte m page (x - page)
        else if leb page x && ltb x (page + 2 * num_rows * num_cols)
        then blank_byte (x - page)
        else m x)
unfolding vert_scroll
vert_scroll_lem t x m =
    let page = vidmem_page t in
    let rows = (num_rows - 1) * num_cols in
    ground (
      arith,
      blank_cells_lem num_cols page rows x (scroll_cells rows page m 0),
      scroll_cells_lem rows page 0 x m,
    )
