-- ===== src/Rtc/Display.antt =====
-- What the clock's interrupt puts on the display.
use ece391_mp.Base.{ℕ, ◌+◌, ◌<◌, ◌≡◌, inl, arith, true, refl}
use ece391_mp.Block.Laws.{filled, memcpy_lem}
use ece391_mp.Screen.{Screen, video, vidmem_page}
use ece391_mp.Rtc.{Rtc, rtc_int, refresh_vidmem}

refresh_vidmem_cell :
    (s : Screen) (x : ℕ)
    → s.curr_terminal < 3
    → (refresh_vidmem s).mem x
      ≡ filled s.mem video 0x1000 (λ j. s.mem (vidmem_page s.curr_terminal + j)) x
unfolding refresh_vidmem vidmem_page
refresh_vidmem_cell s x lt = ground (
  arith,
  memcpy_lem s.mem video 0xB9000 0x1000 x (inl (omega arith)),
  memcpy_lem s.mem video 0xBA000 0x1000 x (inl (omega arith)),
  memcpy_lem s.mem video 0xBB000 0x1000 x (inl (omega arith)),
)

-- An interrupt of the clock raises the flag, and leaves the 4096 bytes of the video memory equal to
-- the page of the displayed terminal, one of three; no other byte changes.
pub rtc_int_lem :
    (s : Rtc) (x : ℕ)
    → s.screen.curr_terminal < 3
    → ((rtc_int s).read_flag ≡ true)
      × ((rtc_int s).screen.mem x
          ≡ filled s.screen.mem video 0x1000
              (λ j. s.screen.mem (vidmem_page s.screen.curr_terminal + j))
              x)
unfolding rtc_int
rtc_int_lem s x lt = (refl, refresh_vidmem_cell s.screen x lt)
