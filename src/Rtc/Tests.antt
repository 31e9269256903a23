-- ===== src/Rtc/Tests.antt =====
-- The clock on concrete requests.
use ece391_mp.Base.{
  ◌-◌, ◌%◌, ◌≡◌, refl, arith, true, false, [], ◌∷◌, ◌++◌, ◌==◌, if◌then◌else◌, some, replicate,
}
use ece391_mp.Base.Int.{pos, negsuc}
use ece391_mp.Base.Mem.{Mem, load32}
use ece391_mp.Rtc.{Rtc, rtc_read, rtc_int, rtc_write}
use ece391_mp.Rtc.Rate.{exponent, programmed, rtc_write_lem, rtc_write_high}
use ece391_mp.Rtc.Wait.{rtc_read_waits}

abbrev clock : Rtc
clock = record {
  read_flag = false;
  ports = record { master_mask = 0xFB; slave_mask = 0xFE; interrupts = true; out = [] };
  screen = record {
    screen_x = λ t. pos 0;
    screen_y = λ t. pos 0;
    curr_terminal = 1;
    mem = λ a. a % 256;
    cursor_out = [];
  };
}

-- The number 32 at address 100, and 1024 at address 200.
abbrev requests : Mem
requests a = if a == 100 then 32 else if a == 201 then 4 else 0

rtc_write_lem_example : rtc_write requests 100 0x26 clock ≡ (
    if exponent (requests 100) == 0
    then some (negsuc 0, clock)
    else some (pos 0, programmed (16 - exponent (requests 100)) 0x26 clock))
rtc_write_lem_example = rtc_write_lem requests 100 0x26 clock (λ a. ground arith) (omega arith)

rtc_write_high_example : rtc_write requests 200 0x26 clock ≡ some (negsuc 0, clock)
unfolding load32
rtc_write_high_example =
    rtc_write_high requests 200 0x26 10 clock (λ a. ground arith) (omega arith) (omega arith) refl

rtc_read_waits_example :
    rtc_read (replicate 2 false ++ (true ∷ false ∷ [])) clock
    ≡ some (pos 0, record (rtc_int clock) { read_flag = false }, false ∷ [])
rtc_read_waits_example = rtc_read_waits 2 (false ∷ []) clock refl
