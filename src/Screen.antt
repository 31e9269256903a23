-- ===== src/Screen.antt =====
-- The text screens of student-distrib/lib.c: one cursor and one page of video memory for each of the
-- three terminals, and the page that is displayed. Coordinates are `int`s, of either sign.
pub mod Scroll
pub mod Cursor
pub mod Edit
pub mod Terminals
mod Tests
use ece391_mp.Base.{
  ℕ, zero, suc, ◌+◌, ◌-◌, ◌*◌, ◌/◌, ◌%◌, ◌^◌, Bool, true, false, ◌||◌, Option, none, some, List, [],
  ◌∷◌, ◌++◌, ltb, leb, ◌==◌, get_or, if◌then◌else◌,
}
use ece391_mp.Base.Int.{ℤ, pos, negsuc, ◌+ℤ◌, ◌-ℤ◌, ◌*ℤ◌, quot, rem, ltb_ℤ, eqb_ℤ, pattern32}
use ece391_mp.Base.Mem.{Mem, write}
use ece391_mp.Block.{memcpy}
use ece391_mp.Str.{scan_limit}

abbrev pub num_cols : ℕ
num_cols = 80

abbrev pub num_rows : ℕ
num_rows = 25

abbrev pub attrib : ℕ
attrib = 0x7

abbrev pub video : ℕ
video = 0xB8000

abbrev pub cursor_port : ℕ
cursor_port = 0x3D4

-- `vidmem_pages`; there are three.
unfoldable pub vidmem_page : ℕ → ℕ
vidmem_page t = get_or (0xB9000 ∷ 0xBA000 ∷ 0xBB000 ∷ []) t 0

-- `cursor_out` is what `outb` sends, (value, port), the first one first.
pub record Screen : Type 0 where
  pub screen_x : ℕ → ℤ
  pub screen_y : ℕ → ℤ
  pub curr_terminal : ℕ
  pub mem : Mem
  pub cursor_out : List (ℕ × ℕ)

-- `a[t] = v`
abbrev pub store : (ℕ → ℤ) → ℕ → ℤ → ℕ → ℤ
store a t v u = if u == t then v else a u

unfoldable pub update_cursor : Screen → Screen
update_cursor s =
    let at = pattern32 (s.screen_y s.curr_terminal *ℤ num_cols +ℤ s.screen_x s.curr_terminal) in
    record s {
      cursor_out =
          s.cursor_out
          ++ ((0x0F, cursor_port)
              ∷ (at % 256, cursor_port + 1)
              ∷ (0x0E, cursor_port)
              ∷ (at / 256 % 256, cursor_port + 1)
              ∷ []);
    }

-- One cell of a page: the character and its attribute.
unfoldable pub put_cell : Mem → ℕ → ℕ → Mem
put_cell m a c = write (write m a c) (a + 1) attrib

-- The loops that blank cells, from cell `i` of the page on, with the cells left.
unfoldable pub blank_cells : ℕ → ℕ → Mem → ℕ → Mem
blank_cells zero page m i = m
blank_cells (suc k) page m i = blank_cells k page (put_cell m (page + 2 * i) b' ') (i + 1)

unfoldable pub clear : Screen → Screen
clear s = record s {
  mem =
      blank_cells (num_rows * num_cols) (vidmem_page s.curr_terminal)
        (blank_cells (num_rows * num_cols) video s.mem 0) 0;
}

unfoldable pub reset : Screen → Screen
unfolding clear update_cursor
reset s =
    let cleared = clear s in
    update_cursor (record cleared {
      screen_x = store s.screen_x s.curr_terminal (pos 0);
      screen_y = store s.screen_y s.curr_terminal (pos 0);
    })

unfoldable pub update_curr_term : ℕ → Screen → Screen
update_curr_term new_term s = if leb new_term 2 then record s { curr_terminal = new_term } else s

unfoldable pub update_vidmem : ℕ → Screen → Screen
unfolding update_cursor
update_vidmem next_term s =
    update_cursor (record s { mem = memcpy s.mem video (vidmem_page next_term) 0x1000 })

-- The first loop of `vert_scroll`, from cell `i` on, with the cells left.
unfoldable pub scroll_cells : ℕ → ℕ → Mem → ℕ → Mem
scroll_cells zero page m i = m
scroll_cells (suc k) page m i =
    scroll_cells k page (put_cell m (page + 2 * i) (m (page + 2 * (i + num_cols)))) (i + 1)

unfoldable pub vert_scroll : ℕ → Mem → Mem
vert_scroll pcb_term m =
    let page = vidmem_page pcb_term in
    blank_cells num_cols page (scroll_cells ((num_rows - 1) * num_cols) page m 0)
      ((num_rows - 1) * num_cols)

-- `vidmem_pages[pcb_term] + ((NUM_COLS * screen_y + screen_x) << 1)`
abbrev pub cell_address : ℕ → ℤ → ℤ → ℕ
cell_address t y x = pattern32 (pos (vidmem_page t) +ℤ (y *ℤ num_cols +ℤ x) *ℤ 2)

-- The branch of `putc` for '\n' and '\r'.
unfoldable pub new_line : ℕ → Screen → Screen
new_line t s =
    let y = s.screen_y t +ℤ pos 1 in
    let x' = store s.screen_x t (pos 0) in
    if ltb_ℤ (pos (num_rows - 1)) y
    then record s {
      screen_x = x';
      screen_y = store s.screen_y t (pos (num_rows - 1));
      mem = vert_scroll t s.mem;
    }
    else record s { screen_x = x'; screen_y = store s.screen_y t y }

-- The branch of `putc` for a visible character.
unfoldable pub put_visible : ℕ → ℕ → Screen → Screen
put_visible c t s =
    let y = s.screen_y t in
    let m = put_cell s.mem (cell_address t y (s.screen_x t)) c in
    let x = s.screen_x t +ℤ pos 1 in
    let x' = store s.screen_x t (rem x num_cols) in
    if eqb_ℤ (y +ℤ quot x num_cols) (pos num_rows)
    then record s {
      screen_x = x';
      screen_y = store s.screen_y t (pos (num_rows - 1));
      mem = vert_scroll t m;
    }
    else record s {
      screen_x = x';
      screen_y = store s.screen_y t (rem (y +ℤ quot x num_cols) num_rows);
      mem = m;
    }

unfoldable pub putc : ℕ → ℕ → Screen → Screen
putc c t s =
    update_cursor
      (if (c == 10) || (c == 13) then new_line t s else if c == 0 then s else put_visible c t s)

-- The branch of `putcforcenoscroll` for a visible character; the row is computed from the column
-- that is already reduced.
unfoldable pub put_noscroll : ℕ → ℕ → Screen → Screen
put_noscroll c t s =
    let y = s.screen_y t in
    let x = rem (s.screen_x t +ℤ pos 1) num_cols in
    record s {
      screen_x = store s.screen_x t x;
      screen_y = store s.screen_y t (rem (y +ℤ quot x num_cols) num_rows);
      mem = put_cell s.mem (cell_address t y (s.screen_x t)) c;
    }

unfoldable pub putcforcenoscroll : ℕ → ℕ → Screen → Screen
putcforcenoscroll c t s = update_cursor (
    if (c == 10) || (c == 13)
    then record s {
      screen_x = store s.screen_x t (pos 0);
      screen_y = store s.screen_y t (s.screen_y t +ℤ pos 1);
    }
    else put_noscroll c t s)

-- At column 0 it goes to the end of the row above, blanks it, and puts the cursor back there.
unfoldable pub backspace_helper : ℕ → Screen → Screen
backspace_helper t s =
    if eqb_ℤ (s.screen_x t) (pos 0)
    then (let tempy = s.screen_y t -ℤ pos 1 in
        let up = record s {
          screen_x = store s.screen_x t (pos (num_cols - 1));
          screen_y = store s.screen_y t tempy;
        } in
        let blank = putcforcenoscroll b' ' t up in
        update_cursor (record blank {
          screen_x = store blank.screen_x t (pos (num_cols - 1));
          screen_y = store blank.screen_y t tempy;
        }))
    else (let back = record s { screen_x = store s.screen_x t (s.screen_x t -ℤ pos 1) } in
        let blank = putc b' ' t back in
        update_cursor
          (record blank { screen_x = store blank.screen_x t (blank.screen_x t -ℤ pos 1) }))

-- `str` is the memory that holds the string at `s`; `none` is a string without end.
puts_from : ℕ → Mem → ℕ → ℕ → ℕ → Screen → Option (ℕ × Screen)
puts_from zero str s index t screen = none
puts_from (suc k) str s index t screen = elim (str (s + index) == 0) [
  | true ↦ some (index, screen)
  | false ↦ puts_from k str s (index + 1) t (putc (str (s + index)) t screen)
]

unfoldable pub puts : Mem → ℕ → ℕ → Screen → Option (ℕ × Screen)
unfolding puts_from scan_limit
puts str s t screen = puts_from scan_limit str s 0 t screen
