-- ===== src/Base/Bits.antt =====
-- Bits of a word, and `|` of a field with the bits below it.
use Prim.Native.Nat.{
  ℕ, zero, suc, ◌+◌, ◌*◌, ◌/◌, ◌%◌, ◌^◌, ◌<◌, ◌≤◌, max, bit_or, digits, bit_or-bitwise,
}
use mathlib.Core.Path.{◌≡◌, refl, sym, ap, ◌∙◌}
use native.Mathlib.Omega.{arith}
use native.Mathlib.Nat.{pow-suc}

-- Bit `k` of `a`.
abbrev pub bit : ℕ → ℕ → ℕ
bit a k = a / 2 ^ k % 2

-- `bit_or` as the library defines it, on fuel.
abbrev join_bits : ℕ → ℕ → ℕ → ℕ
join_bits fuel x y = digits (λ rest. rest) max fuel x y

join_bits_stable : (x y k l : ℕ) → x ≤ k → x ≤ l → join_bits k x y ≡ join_bits l x y
join_bits_stable zero y zero zero below_k below_l = refl
join_bits_stable zero y zero (suc l) below_k below_l = refl
join_bits_stable zero y (suc k) zero below_k below_l = refl
join_bits_stable zero y (suc k) (suc l) below_k below_l = refl
join_bits_stable (suc x) y zero l below_k below_l = absurd (omega arith)
join_bits_stable (suc x) y (suc k) zero below_k below_l = absurd (omega arith)
join_bits_stable (suc x) y (suc k) (suc l) below_k below_l =
    let smaller = join_bits_stable (suc x / 2) (y / 2) k l (omega arith) (omega arith) in
    omega (arith, smaller)

-- The lowest digit of `|`, and the digits above it.
bit_or-halves : (x y : ℕ) → bit_or x y ≡ bit_or (x / 2) (y / 2) * 2 + max (x % 2) (y % 2)
bit_or-halves zero y = omega (arith, bit_or-bitwise 0 y, bit_or-bitwise 0 (y / 2))
bit_or-halves (suc x) y =
    let half = suc x / 2 in
    let fuel = join_bits_stable half (y / 2) x half (omega arith) (omega arith) in
    omega (arith, fuel, bit_or-bitwise half (y / 2), bit_or-bitwise (suc x) y)

bit_or-zero_below : (bound x : ℕ) → x ≤ bound → bit_or x 0 ≡ x
bit_or-zero_below zero zero small = refl
bit_or-zero_below zero (suc x) small = absurd (omega arith)
bit_or-zero_below (suc bound) zero small = refl
bit_or-zero_below (suc bound) (suc x) small =
    let above = bit_or-zero_below bound (suc x / 2) (omega arith) in
    omega (arith, above, bit_or-halves (suc x) 0)

-- `|` of a field above bit `k` with a value below it leaves the field.
pub bit_or-field : (k a b c : ℕ) → c < 2 ^ k → bit_or (a * 2 ^ k + b) c ≡ a * 2 ^ k + bit_or b c
bit_or-field zero a b c h =
    let e : c ≡ 0 = omega arith in
    let x = a * 1 + b in
    rw e (
      bit_or-zero_below x x (omega arith)
      ∙ ap (λ t. a * 1 + t) (sym (bit_or-zero_below b b (omega arith))))
bit_or-field (suc k) a b c h =
    let p = pow-suc 2 k in
    let x = a * 2 ^ k in
    let e : a * 2 ^ suc k ≡ x * 2 = omega (arith, ap (λ t. a * t) p) in
    let half : (x * 2 + b) / 2 ≡ x + b / 2 = omega arith in
    let step : bit_or (x * 2 + b) c
        ≡ bit_or (x + b / 2) (c / 2) * 2 + max ((x * 2 + b) % 2) (c % 2) =
      rw half at (bit_or-halves (x * 2 + b) c) in
    rw e
      (omega (arith, step, bit_or-halves b c, bit_or-field k a (b / 2) (c / 2) (omega (arith, p))))
