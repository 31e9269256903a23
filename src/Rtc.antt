-- ===== src/Rtc.antt =====
-- student-distrib/rtc.c: the real-time clock. `in_a`, `in_b` are the bytes that the chip returns for
-- its registers; the flag that `rtc_int` sets and `rtc_read` waits for is one for all processes.
pub mod Rate
pub mod Wait
pub mod Display
mod Tests
use Prim.Native.Nat.{bit_and, bit_or}
use ece391_mp.Base.{
  ℕ, zero, suc, ◌+◌, ◌-◌, ◌/◌, ◌%◌, ◌^◌, Bool, true, false, not, ◌||◌, Option, none, some, List, [],
  ◌∷◌, ltb, ◌==◌, if◌then◌else◌,
}
use ece391_mp.Base.Int.{ℤ, pos, negsuc}
use ece391_mp.Base.Mem.{Mem}
use ece391_mp.Block.{memcpy}
use ece391_mp.Screen.{Screen, video}
use ece391_mp.Pic.{Ports, outb, cli, sti, enable_irq, disable_irq, send_eoi}

-- The clock's flag, with the ports and the screen that its functions work on.
pub record Rtc : Type 0 where
  pub read_flag : Bool
  pub ports : Ports
  pub screen : Screen

abbrev pub rtc_irq : ℕ
rtc_irq = 8

abbrev pub rtc_port : ℕ
rtc_port = 0x70

abbrev pub rtc_data : ℕ
rtc_data = rtc_port + 1

abbrev pub default_freq : ℕ
default_freq = 2

abbrev pub freq_upper_bound : ℕ
freq_upper_bound = 1024

-- `while (rate != 1) { rateCounter++; rate = rate >> 1; }` with its rounds; from 0 it does not end.
rate_loop : ℕ → ℕ → ℕ → Option ℕ
rate_loop zero rate counter = if rate == 1 then some counter else none
rate_loop (suc k) rate counter = elim (rate == 1) [
  | true ↦ some counter
  | false ↦ rate_loop k (rate / 2) (counter + 1)
]

-- The register value `16 - log2(rate)` as a `uint32_t`; a `uint32_t` is halved at most 31 times.
unfoldable pub rate_select : ℕ → Option ℕ
unfolding rate_loop
rate_select rate = elim (rate_loop 32 rate 0) [
  | none ↦ none
  | some counter ↦ some ((2 ^ 32 + 16 - counter) % 2 ^ 32)
]

unfoldable pub change_rate : ℕ → ℕ → Rtc → Option Rtc
change_rate rate in_a s =
    if ltb rate default_freq || ltb freq_upper_bound rate then some s else elim (rate_select rate) [
      | none ↦ none
      | some selected ↦
          let selecting =
            outb 0x8A rtc_port (outb 0x8A rtc_port (cli (disable_irq rtc_irq s.ports))) in
          let written = outb (bit_or (bit_and in_a 0xF0) selected) rtc_data selecting in
          some (record s { ports = enable_irq rtc_irq (sti written) })
    ]

unfoldable pub initialize_rtc : ℕ → ℕ → Rtc → Option Rtc
initialize_rtc in_a in_b s =
    let selecting = outb 0x8B rtc_port (outb 0x8B rtc_port (disable_irq rtc_irq s.ports)) in
    let written = outb (bit_or in_b 0x40) rtc_data selecting in
    elim (change_rate 32 in_a (record s { ports = written })) [
      | none ↦ none
      | some s' ↦ some (record s' { ports = enable_irq rtc_irq s'.ports })
    ]

-- The page of the displayed terminal is copied to the video memory.
unfoldable pub refresh_vidmem : Screen → Screen
refresh_vidmem s =
    let ct = s.curr_terminal in
    if ct == 0
    then record s { mem = memcpy s.mem video 0xB9000 0x1000 }
    else if ct == 1
    then record s { mem = memcpy s.mem video 0xBA000 0x1000 }
    else if ct == 2
    then record s { mem = memcpy s.mem video 0xBB000 0x1000 }
    else s

unfoldable pub rtc_int : Rtc → Rtc
rtc_int s = record {
  read_flag = true;
  ports = sti (send_eoi rtc_irq (outb 0x0C rtc_port (cli s.ports)));
  screen = refresh_vidmem s.screen;
}

unfoldable pub rtc_open : ℕ → ℤ
rtc_open filename = pos 0

unfoldable pub rtc_close : ℕ → ℤ
rtc_close fd = pos 0

-- `while(!readFlag){}` and the reset behind it. The list says what happens before each poll of the
-- flag: an interrupt of the clock, or nothing. `none` is a process that still waits at its end.
unfoldable pub rtc_read : List Bool → Rtc → Option (ℤ × Rtc × List Bool)
rtc_read [] s = if s.read_flag then some (pos 0, record s { read_flag = false }, []) else none
rtc_read (event ∷ events) s = elim (s.read_flag) [
  | true ↦ some (pos 0, record s { read_flag = false }, event ∷ events)
  | false ↦ rtc_read events (if event then rtc_int s else s)
]

-- `rate = *buf` reads one byte.
unfoldable pub rtc_write : Mem → ℕ → ℕ → Rtc → Option (ℤ × Rtc)
rtc_write m buf in_a s =
    let rate = m buf in
    if buf == 0
    then some (negsuc 0, s)
    else if ltb freq_upper_bound rate || ltb rate default_freq
    then some (negsuc 0, s)
    else if not (bit_and rate (rate - 1) == 0)
    then some (negsuc 0, s)
    else elim (change_rate rate in_a s) [ none ↦ none | some s' ↦ some (pos 0, s') ]
