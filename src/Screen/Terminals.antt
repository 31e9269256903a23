-- ===== src/Screen/Terminals.antt =====
-- What printing on one terminal leaves alone on the others.
use ece391_mp.Base.{ℕ, ◌+◌, ◌*◌, ◌<◌, ◌≤◌, ◌≡◌, ◌≢◌, ◌⊎◌, inr, arith, ap, ◌∙◌}
use ece391_mp.Base.Mem.{Mem}
use ece391_mp.Screen.{
  Screen, num_rows, num_cols, vidmem_page, put_cell, putc, new_line, put_visible, update_cursor,
  vert_scroll,
}
use ece391_mp.Screen.Cursor.{Cursor, printed, putc_lem, vidmem_page_small}
use ece391_mp.Screen.Scroll.{vert_scroll_lem}

pub put_cell_outside :
    (m : Mem) (t p c x : ℕ)
    → p < num_rows * num_cols
    → (x < vidmem_page t) ⊎ (vidmem_page t + 0x1000 ≤ x)
    → put_cell m (vidmem_page t + 2 * p) c x ≡ m x
unfolding put_cell
put_cell_outside m t p c x lt out = ground arith

vert_scroll_outside :
    (m : Mem) (t x : ℕ)
    → (x < vidmem_page t) ⊎ (vidmem_page t + 0x1000 ≤ x)
    → vert_scroll t m x ≡ m x
vert_scroll_outside m t x out = ground (arith, vert_scroll_lem t x m)

printed_outside :
    (c t p x : ℕ) (m : Mem)
    → p < num_rows * num_cols
    → (x < vidmem_page t) ⊎ (vidmem_page t + 0x1000 ≤ x)
    → printed c t p m x ≡ m x
unfolding printed
printed_outside c t p x m lt out = ground (
  arith,
  put_cell_outside m t p c x lt out,
  vert_scroll_outside m t x out,
  vert_scroll_outside (put_cell m (vidmem_page t + 2 * p) c) t x out,
)

putc_other :
    (c t : ℕ) (s : Screen) (u : ℕ)
    → u ≢ t
    → ((putc c t s).screen_x u ≡ s.screen_x u) × ((putc c t s).screen_y u ≡ s.screen_y u)
unfolding putc update_cursor new_line put_visible
putc_other c t s u other = (ground arith, ground arith)

-- While the cursor of terminal `t` is on its page, `putc` on `t` changes no cursor but that of `t`, and
-- no byte outside the page of `t`: the other terminals keep what they show.
pub putc_isolated :
    {s : Screen} {t p : ℕ} (c : ℕ)
    → Cursor s t p
    → ((u : ℕ)
        → u ≢ t
        → ((putc c t s).screen_x u ≡ s.screen_x u) × ((putc c t s).screen_y u ≡ s.screen_y u))
      × ((x : ℕ)
          → (x < vidmem_page t) ⊎ (vidmem_page t + 0x1000 ≤ x)
          → (putc c t s).mem x ≡ s.mem x)
putc_isolated {s} {t} {p} c at = (
  λ u other. putc_other c t s u other,
  λ x out. ap (λ m. m x) (putc_lem c at).1 ∙ printed_outside c t p x s.mem at.on_page out,
)

-- The pages of the screen lie below the buffers.
abbrev pub pages_end : ℕ
pages_end = 0xBC000

pub putc_above :
    {s : Screen} {t p : ℕ} (c x : ℕ) → Cursor s t p → pages_end ≤ x → (putc c t s).mem x ≡ s.mem x
putc_above {s} {t} c x at above =
    (putc_isolated c at).1 x (inr (omega (arith, vidmem_page_small t)))

pub curr_terminal-putc : (c t : ℕ) (s : Screen) → (putc c t s).curr_terminal ≡ s.curr_terminal
unfolding putc update_cursor new_line put_visible
curr_terminal-putc c t s = ground arith
