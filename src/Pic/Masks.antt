-- ===== src/Pic/Masks.antt =====
-- Which interrupt lines `enable_irq` and `disable_irq` change.
use ece391_mp.Base.{
  ℕ, ◌-◌, ◌<◌, ◌≤◌, ◌≡◌, refl, arith, true, ◌==◌, ltb, if◌then◌else◌, all_below, all_below_sound,
  ==_iff,
}
use ece391_mp.Base.Bits.{bit}
use ece391_mp.Pic.{Ports, unmask, mask_out, enable_irq, disable_irq, max_irq_num, master_irq}

unmask_table :
    all_below 256 (λ m.
      all_below 8 (λ n. all_below 8 (λ k. bit (unmask m n) k == (if k == n then 0 else bit m k))))
    ≡ true
unfolding all_below unmask
unmask_table = refl

mask_out_table :
    all_below 256 (λ m.
      all_below 8 (λ n. all_below 8 (λ k. bit (mask_out m n) k == (if k == n then 1 else bit m k))))
    ≡ true
unfolding all_below mask_out
mask_out_table = refl

bit-unmask :
    (m n k : ℕ) → m < 256 → n < 8 → k < 8 → bit (unmask m n) k ≡ (if k == n then 0 else bit m k)
bit-unmask m n k hm hn hk =
    let at_m = all_below_sound 256 _ m unmask_table hm in
    let at_n = all_below_sound 8 _ n at_m hn in (==_iff _ _).0 (all_below_sound 8 _ k at_n hk)

bit-mask_out :
    (m n k : ℕ) → m < 256 → n < 8 → k < 8 → bit (mask_out m n) k ≡ (if k == n then 1 else bit m k)
bit-mask_out m n k hm hn hk =
    let at_m = all_below_sound 256 _ m mask_out_table hm in
    let at_n = all_below_sound 8 _ n at_m hn in (==_iff _ _).0 (all_below_sound 8 _ k at_n hk)

-- The masks are bytes.
pub record IsMasked (s : Ports) : Type 0 where
  pub master_byte : s.master_mask < 256
  pub slave_byte : s.slave_mask < 256

-- Whether line `k` is masked (1) or open (0), from the two masks.
abbrev pub line : Ports → ℕ → ℕ
line s k = if ltb master_irq k then bit s.slave_mask (k - 8) else bit s.master_mask k

pub enable_irq-IsMasked : (irq_num : ℕ) (s : Ports) → IsMasked s → IsMasked (enable_irq irq_num s)
unfolding enable_irq unmask
enable_irq-IsMasked irq_num s h = ground arith

pub disable_irq-IsMasked : (irq_num : ℕ) (s : Ports) → IsMasked s → IsMasked (disable_irq irq_num s)
unfolding disable_irq mask_out
disable_irq-IsMasked irq_num s h = ground arith

-- With masks that are bytes, `enable_irq` opens its own line and leaves the other fifteen as they
-- are; a number above 15 changes no line.
pub line-enable_irq :
    (irq_num k : ℕ) (s : Ports)
    → IsMasked s
    → k ≤ max_irq_num
    → line (enable_irq irq_num s) k ≡ (if k == irq_num then 0 else line s k)
unfolding enable_irq
line-enable_irq irq_num k s h le =
    ground
      (arith, bit-unmask s.master_mask irq_num k, bit-unmask s.slave_mask (irq_num - 8) (k - 8))

-- With masks that are bytes, `disable_irq` masks its own line and leaves the other fifteen as they
-- are; a number above 15 changes no line.
pub line-disable_irq :
    (irq_num k : ℕ) (s : Ports)
    → IsMasked s
    → k ≤ max_irq_num
    → line (disable_irq irq_num s) k ≡ (if k == irq_num then 1 else line s k)
unfolding disable_irq
line-disable_irq irq_num k s h le =
    ground
      (arith, bit-mask_out s.master_mask irq_num k, bit-mask_out s.slave_mask (irq_num - 8) (k - 8))
