-- ===== src/Rtc/Wait.antt =====
-- How long `rtc_read` waits.
use ece391_mp.Base.{
  ℕ, zero, suc, ◌≡◌, refl, arith, true, false, Bool, some, List, [], ◌∷◌, ◌++◌, replicate, ◌∙◌,
  if◌then◌else◌,
}
use ece391_mp.Base.Int.{pos}
use ece391_mp.Rtc.{Rtc, rtc_read, rtc_int}

-- An interrupt from before the call is enough: with the flag up, `rtc_read` does not wait at all.
rtc_read_stale :
    (events : List Bool) (s : Rtc)
    → s.read_flag ≡ true
    → rtc_read events s ≡ some (pos 0, record s { read_flag = false }, events)
unfolding rtc_read
rtc_read_stale [] s up = ground arith
rtc_read_stale (e ∷ events) s up = ground arith

rtc_int_sets : (s : Rtc) → (rtc_int s).read_flag ≡ true
unfolding rtc_int
rtc_int_sets s = refl

rtc_read_down :
    (event : Bool) (events : List Bool) (s : Rtc)
    → s.read_flag ≡ false
    → rtc_read (event ∷ events) s ≡ rtc_read events (if event then rtc_int s else s)
unfolding rtc_read
rtc_read_down event events s down = ground arith

-- With the flag down, `rtc_read` returns 0 at the first interrupt of the clock, with the flag down
-- again and what happens later left to come.
pub rtc_read_waits :
    (n : ℕ) (later : List Bool) (s : Rtc)
    → s.read_flag ≡ false
    → rtc_read (replicate n false ++ (true ∷ later)) s
      ≡ some (pos 0, record (rtc_int s) { read_flag = false }, later)
rtc_read_waits zero later s down =
    rtc_read_down true (later) s down ∙ rtc_read_stale later (rtc_int s) (rtc_int_sets s)
rtc_read_waits (suc n) later s down =
    rtc_read_down false (replicate n false ++ (true ∷ later)) s down ∙ rtc_read_waits n later s down
