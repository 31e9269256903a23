-- ===== src/Rtc/Rate.antt =====
-- Which frequencies the clock accepts, and what it is set to.
use Prim.Native.Nat.{bit_and, bit_or}
use ece391_mp.Base.{
  ℕ, zero, suc, ◌+◌, ◌-◌, ◌/◌, ◌%◌, ◌^◌, ◌<◌, ◌≤◌, ◌≡◌, ◌≢◌, inl, inr, refl, arith, true, false,
  Bool, ◌||◌, ◌&&◌, not, ◌==◌, ltb, if◌then◌else◌, all_below, all_below_sound, ==_iff, some,
  Bool-cases, ap, ◌∙◌, ltb→lt,
}
use mathlib.Core.Path.{subst}
use native.Mathlib.Nat.{pow-suc}
use ece391_mp.Base.Int.{pos, negsuc}
use ece391_mp.Base.Mem.{Mem, IsBytes, load32}
use ece391_mp.Pic.{outb, cli, sti, enable_irq, disable_irq}
use ece391_mp.Rtc.{
  Rtc, rate_loop, rate_select, change_rate, rtc_write, default_freq, freq_upper_bound, rtc_irq,
  rtc_port, rtc_data,
}

power_low : (e : ℕ) → 1 ≤ e → 2 ≤ 2 ^ e
power_low zero le = absurd (omega arith)
power_low (suc zero) le = omega arith
power_low (suc (suc e)) le = omega (arith, pow-suc 2 (suc e), power_low (suc e) (omega arith))

power_table : all_below 11 (λ e. ltb (2 ^ e) 1025) ≡ true
unfolding all_below
power_table = refl

power_high : (e : ℕ) → e ≤ 10 → 2 ^ e ≤ 1024
power_high e le =
    omega
      (arith, ltb→lt _ _ (all_below_sound 11 (λ e. ltb (2 ^ e) 1025) e power_table (omega arith)))

-- The loop finds the exponent of a power of two.
rate_loop_power : (k e counter : ℕ) → e ≤ k → rate_loop k (2 ^ e) counter ≡ some (counter + e)
unfolding rate_loop
rate_loop_power zero zero counter le = ap some (omega arith)
rate_loop_power zero (suc e) counter le = absurd (omega arith)
rate_loop_power (suc k) zero counter le = ap some (omega arith)
rate_loop_power (suc k) (suc e) counter le =
    let p = pow-suc 2 e in
    let more : (2 ^ suc e == 1) ≡ false = ground arith in
    let half : 2 ^ suc e / 2 ≡ 2 ^ e = omega arith in
    let rest = rate_loop_power k e (counter + 1) (omega arith) in
    rw (more, rate_loop) (rw half (rest ∙ ap some (omega arith)))

rate_select_power : (e : ℕ) → e ≤ 16 → rate_select (2 ^ e) ≡ some (16 - e)
unfolding rate_select
rate_select_power e le =
    rw (rate_loop_power 32 e 0 (omega arith), rate_select) (ap some (omega arith))

-- The clock set to the rate value `selected`, with its interrupt line masked meanwhile.
abbrev pub programmed : ℕ → ℕ → Rtc → Rtc
programmed selected in_a s =
    let quiet = outb 0x8A rtc_port (outb 0x8A rtc_port (cli (disable_irq rtc_irq s.ports))) in
    record s {
      ports = enable_irq rtc_irq (sti (outb (bit_or (bit_and in_a 0xF0) selected) rtc_data quiet));
    }

-- `change_rate` to 2^e Hz, from 2 to 1024, writes 16 - e into the low half of register A.
pub change_rate_power :
    (e in_a : ℕ) (s : Rtc)
    → 1 ≤ e
    → e ≤ 10
    → change_rate (2 ^ e) in_a s ≡ some (programmed (16 - e) in_a s)
unfolding change_rate
change_rate_power e in_a s lo hi =
    let low = power_low e lo in
    let high = power_high e hi in
    let inside : (ltb (2 ^ e) default_freq || ltb freq_upper_bound (2 ^ e)) ≡ false =
      ground arith in
    rw (inside, change_rate) (rw (rate_select_power e (omega arith)))

-- The exponent of the power of two that a byte is, from 1 to 7; 0 for any other byte.
unfoldable pub exponent : ℕ → ℕ
exponent b =
    if b == 2
    then 1
    else if b == 4
    then 2
    else if b == 8
    then 3
    else if b == 16
    then 4
    else if b == 32
    then 5
    else if b == 64
    then 6
    else if b == 128
    then 7
    else 0

accepted : ℕ → Bool
accepted b = not (ltb freq_upper_bound b || ltb b default_freq) && (bit_and b (b - 1) == 0)

exponent_table :
    all_below 256
      (λ b. (if accepted b then ltb 0 (exponent b) && (2 ^ exponent b == b) else exponent b == 0))
    ≡ true
unfolding all_below accepted exponent
exponent_table = refl

exponent_lem :
    (b : ℕ)
    → b < 256
    → (if accepted b then ltb 0 (exponent b) && (2 ^ exponent b == b) else exponent b == 0) ≡ true
exponent_lem b lt = all_below_sound 256 _ b exponent_table lt

accepted-exponent : (b : ℕ) → b < 256 → accepted b ≡ true → (0 < exponent b) × (2 ^ exponent b ≡ b)
accepted-exponent b lt ok = ground (arith, exponent_lem b lt)

rejected_exponent : (b : ℕ) → b < 256 → accepted b ≡ false → exponent b ≡ 0
rejected_exponent b lt bad = ground (arith, exponent_lem b lt)

exponent-le : (b : ℕ) → exponent b ≤ 7
unfolding exponent
exponent-le b = ground arith

rtc_write-accepted :
    (m : Mem) (buf in_a : ℕ) (s : Rtc) {s' : Rtc}
    → buf ≢ 0
    → accepted (m buf) ≡ true
    → change_rate (m buf) in_a s ≡ some s'
    → rtc_write m buf in_a s ≡ some (pos 0, s')
unfolding rtc_write accepted
rtc_write-accepted m buf in_a s nonnull ok run = ground arith

rtc_write_rejected :
    (m : Mem) (buf in_a : ℕ) (s : Rtc)
    → accepted (m buf) ≡ false
    → rtc_write m buf in_a s ≡ some (negsuc 0, s)
unfolding rtc_write accepted
rtc_write_rejected m buf in_a s bad = ground arith

high_table : all_below 3 (λ e. 2 ^ (e + 8) % 256 == 0) ≡ true
unfolding all_below
high_table = refl

high_low_byte : (e : ℕ) → 8 ≤ e → e ≤ 10 → 2 ^ e % 256 ≡ 0
high_low_byte e lo hi =
    let checked =
      (==_iff _ _).0
        (all_below_sound 3 (λ e. 2 ^ (e + 8) % 256 == 0) (e - 8) high_table (omega arith)) in
    let back : e - 8 + 8 ≡ e = omega arith in rw back at checked

-- `rtc_write` with a buffer that is not NULL looks at one byte: where it is a power of two from 2
-- to 128 the clock is set to that frequency and the result is 0, and for every other byte the
-- result is -1 and nothing changes.
pub rtc_write_lem :
    (m : Mem) (buf in_a : ℕ) (s : Rtc)
    → IsBytes m
    → buf ≢ 0
    → rtc_write m buf in_a s ≡ (
        if exponent (m buf) == 0
        then some (negsuc 0, s)
        else some (pos 0, programmed (16 - exponent (m buf)) in_a s))
rtc_write_lem m buf in_a s bytes nonnull =
    let b = m buf in
    elim (Bool-cases (accepted b)) [
      | inl ok ↦
          let (some_bits, power) = accepted-exponent b (bytes buf) ok in
          let zero_test : (exponent b == 0) ≡ false = ground arith in
          let run : change_rate b in_a s ≡ some (programmed (16 - exponent b) in_a s) =
            subst (λ t. change_rate t in_a s ≡ some (programmed (16 - exponent b) in_a s)) power
              (change_rate_power (exponent b) in_a s some_bits (omega (arith, exponent-le b))) in
          rw zero_test (rtc_write-accepted m buf in_a s nonnull ok run)
      | inr bad ↦ rw (rejected_exponent b (bytes buf) bad) (rtc_write_rejected m buf in_a s bad)
    ]

-- The frequencies 256, 512 and 1024, stored as 32-bit numbers the way programs pass them, are refused.
pub rtc_write_high :
    (m : Mem) (buf in_a e : ℕ) (s : Rtc)
    → IsBytes m
    → 8 ≤ e
    → e ≤ 10
    → load32 m buf ≡ 2 ^ e
    → rtc_write m buf in_a s ≡ some (negsuc 0, s)
unfolding accepted load32
rtc_write_high m buf in_a e s bytes lo hi stored =
    let low : m buf ≡ 0 = omega (arith, high_low_byte e lo hi, bytes buf) in
    rtc_write_rejected m buf in_a s (rw low)
