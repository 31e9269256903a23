-- ===== src/Numeral/Digits.antt =====
-- `itoa` writes the digits of the number.
use mathlib.Core.Path.{subst}
use native.Mathlib.Nat.{div-add-mod, pow-suc, mul_comm}
use ece391_mp.Base.{
  ℕ, zero, suc, ◌+◌, ◌-◌, ◌*◌, ◌/◌, ◌%◌, ◌^◌, ◌<◌, ◌≤◌, ◌≡◌, refl, ◌⊎◌, true, arith, ◌==◌, inl, inr,
  some, Bool-cases, ap, sym, ◌∙◌, leb, ltb, ◌&&◌, if◌then◌else◌, get_or, all_below, all_below_sound,
}
use ece391_mp.Base.Mem.{Mem, write}
use ece391_mp.Str.Length.{IsStr}
use ece391_mp.Str.{scan_limit}
use ece391_mp.Numeral.{itoa, itoa_loop, lookup}
use ece391_mp.Numeral.Reverse.{strrev_lem}

-- The value of a digit of the table.
abbrev pub digit : ℕ → ℕ
digit c = if ltb c 58 then c - 48 else c - 55

digit_table :
    all_below 36 (λ i. (digit (get_or lookup i 0) == i) && ltb 47 (get_or lookup i 0)) ≡ true
unfolding all_below lookup
digit_table = refl

digit-lookup : (i : ℕ) → i < 36 → (digit (get_or lookup i 0) ≡ i) × (47 < get_or lookup i 0)
digit-lookup i h = ground (
  arith,
  all_below_sound 36 (λ i. (digit (get_or lookup i 0) == i) && ltb 47 (get_or lookup i 0)) i
      digit_table h,
)

-- The `n` bytes from `s` on read as a numeral, the most significant digit first.
unfoldable pub numeral : (ℕ → ℕ) → ℕ → ℕ → ℕ
numeral d zero radix = 0
numeral d (suc n) radix = numeral d n radix * radix + d n

-- The same with the least significant digit first.
unfoldable pub numeral_rev : (ℕ → ℕ) → ℕ → ℕ → ℕ
numeral_rev d zero radix = 0
numeral_rev d (suc n) radix = d 0 + radix * numeral_rev (λ i. d (i + 1)) n radix

div-halves : (v b r : ℕ) → v < b * 2 → 2 ≤ r → v / r < b
div-halves v b r h hr = grind (arith, div-add-mod v r)

numeral-reverse :
    (n radix : ℕ) (f g : ℕ → ℕ)
    → ((j : ℕ) → j < n → f j ≡ g (n - 1 - j))
    → numeral f n radix ≡ numeral_rev g n radix
unfolding numeral numeral_rev
numeral-reverse zero radix f g h = refl
numeral-reverse (suc n) radix f g h =
    let rest : numeral f n radix ≡ numeral_rev (λ i. g (i + 1)) n radix =
      numeral-reverse n radix f (λ i. g (i + 1)) (λ j lt. h j (omega arith) ∙ ap g (omega arith)) in
    ground (arith, rest, h n, mul_comm radix (numeral f n radix))

numeral_rev-eq :
    (n radix : ℕ) (f g : ℕ → ℕ)
    → ((j : ℕ) → j < n → f j ≡ g j)
    → numeral_rev f n radix ≡ numeral_rev g n radix
unfolding numeral_rev
numeral_rev-eq zero radix f g h = refl
numeral_rev-eq (suc n) radix f g h =
    let rest =
      numeral_rev-eq n radix (λ i. f (i + 1)) (λ i. g (i + 1)) (λ j lt. h (j + 1) (omega arith)) in
    rw (h 0 (omega arith)) (rw rest)

-- The digits of `v`, the least significant first, stand in the `n` bytes from `p` on; the rest of the
-- memory is that of `m`.
record Written (m m' : Mem) (p n v radix : ℕ) : Type 0 where
  value : numeral_rev (λ i. digit (m' (p + i))) n radix ≡ v
  digits : (i : ℕ) → i < n → 47 < m' (p + i)
  before : (x : ℕ) → x < p → m' x ≡ m x
  after : (x : ℕ) → p + n ≤ x → m' x ≡ m x

module _ (radix : ℕ) (binary : 2 ≤ radix) (table : radix ≤ 36) where
  Written-head :
      (m m' : Mem) (p n v : ℕ)
      → Written (write m p (get_or lookup (v % radix) 0)) m' (p + 1) n (v / radix) radix
      → (digit (m' p) ≡ v % radix) × (47 < m' p)
  Written-head m m' p n v w = ground (arith, w.before p, digit-lookup (v % radix) (omega arith))

  Written-value :
      (m m' : Mem) (p n v : ℕ)
      → Written (write m p (get_or lookup (v % radix) 0)) m' (p + 1) n (v / radix) radix
      → numeral_rev (λ i. digit (m' (p + i))) (suc n) radix ≡ v
  unfolding numeral_rev
  Written-value m m' p n v w =
      let shift =
        numeral_rev-eq n radix (λ i. digit (m' (p + (i + 1)))) (λ i. digit (m' (p + 1 + i)))
          (λ j lt. ap (λ x. digit (m' x)) (omega arith)) in
      let head : digit (m' (p + 0)) ≡ v % radix =
        ap (λ x. digit (m' x)) (omega arith) ∙ (Written-head m m' p n v w).0 in
      rw (shift, w.value, head) (omega (arith, div-add-mod v radix))

  Written-digits :
      (m m' : Mem) (p n v : ℕ)
      → Written (write m p (get_or lookup (v % radix) 0)) m' (p + 1) n (v / radix) radix
      → (i : ℕ) → i < suc n
      → 47 < m' (p + i)
  Written-digits m m' p n v w zero lt =
      subst (λ x. 47 < m' x) (omega arith) (Written-head m m' p n v w).1
  Written-digits m m' p n v w (suc i) lt =
      subst (λ x. 47 < m' x) (omega arith) (w.digits i (omega arith))

  Written-cons :
      (m m' : Mem) (p n v : ℕ)
      → Written (write m p (get_or lookup (v % radix) 0)) m' (p + 1) n (v / radix) radix
      → Written m m' p (suc n) v radix
  Written-cons m m' p n v w = record {
    value = Written-value m m' p n v w;
    digits = λ i lt. Written-digits m m' p n v w i lt;
    before = λ x lt. ground (arith, w.before x);
    after = λ x le. ground (arith, w.after x);
  }

  Written-nil : (m : Mem) (p v : ℕ) → v ≡ 0 → Written m m p 0 v radix
  unfolding numeral_rev
  Written-nil m p v e = record {
    value = sym e;
    digits = λ i lt. absurd (omega arith);
    before = λ x lt. refl;
    after = λ x le. refl;
  }

  itoa_loop-Written :
      (k : ℕ) (m : Mem) (p v : ℕ)
      → v < 2 ^ k
      → (m' : Mem) × (n : ℕ) × (itoa_loop k m p v radix ≡ some (m', p + n))
        × Written m m' p n v radix
        × (n ≤ k)
        × (0 < v → 0 < n)
  unfolding itoa_loop numeral_rev
  itoa_loop-Written zero m p v lt =
      let e : v ≡ 0 = omega arith in
      (m, 0, ground arith, Written-nil m p v e, omega arith, λ h. absurd (omega arith))
  itoa_loop-Written (suc k) m p v lt = elim (Bool-cases (ltb 0 v)) [
    | inl more ↦
        let m1 = write m p (get_or lookup (v % radix) 0) in
        let lt' : v < 2 ^ k * 2 = omega (arith, pow-suc 2 k) in
        let (m', n, e, w, fits, pos_n) =
          itoa_loop-Written k m1 (p + 1) (v / radix) (div-halves v (2 ^ k) radix lt' binary) in
        let e' : p + 1 + n ≡ p + suc n = omega arith in
        (
          m',
          suc n,
          rw (more, itoa_loop) (e ∙ ap (λ x. some (m', x)) e'),
          Written-cons m m' p n v w,
          omega arith,
          λ h. omega arith,
        )
    | inr done ↦
        let e : v ≡ 0 = ground arith in
        (
          m,
          0,
          rw (done, itoa_loop) (ap (λ x. some (m, x)) (omega arith)),
          Written-nil m p v e,
          omega arith,
          λ h. absurd (omega arith),
        )
  ]

-- What `itoa` leaves: a string of `n` digits at `buf` that reads as `value`, the rest unchanged.
pub record IsNumeral (m m' : Mem) (buf n value radix : ℕ) : Type 0 where
  pub text : IsStr m' buf n
  pub reads : numeral (λ i. digit (m' (buf + i))) n radix ≡ value
  pub some_digit : 0 < n
  pub fits : n ≤ 32
  pub frame : (x : ℕ) → (x < buf) ⊎ (buf + n < x) → m' x ≡ m x

itoa_zero :
    (m : Mem) (buf radix : ℕ) → IsNumeral m (write (write m buf b'0') (buf + 1) 0) buf 1 0 radix
unfolding numeral scan_limit
itoa_zero m buf radix = record {
  text = record { nonzero = λ i lt. ground arith; nul = ground arith; small = omega arith };
  reads = ground arith;
  some_digit = omega arith;
  fits = omega arith;
  frame = λ x out. ground arith;
}

-- The loop's digits and the NUL behind them are a string.
loop_text :
    {m m1 : Mem} {buf n value radix : ℕ}
    → Written m m1 buf n value radix
    → n ≤ 32
    → IsStr (write m1 (buf + n) 0) buf n
unfolding scan_limit
loop_text {m1} {buf} {n} w fits = record {
  nonzero = λ i lt. ground (arith, w.digits i);
  nul = ground arith;
  small = omega arith;
}

-- The reversed digits, from the memory `m1` that the loop leaves.
module _ {m m1 m' : Mem} {buf n value radix : ℕ} (w : Written m m1 buf n value radix)
    (reversed : (x : ℕ)
      → m' x ≡ (
          if leb buf x && ltb x (buf + n)
          then write m1 (buf + n) 0 (buf + (n - 1 - (x - buf)))
          else write m1 (buf + n) 0 x)) where
  reversed_digit : (i : ℕ) → i < n → m' (buf + i) ≡ m1 (buf + (n - 1 - i))
  reversed_digit i lt = ground (arith, reversed (buf + i))

  itoa_reversed : 0 < n → n ≤ 32 → IsNumeral m m' buf n value radix
  unfolding scan_limit
  itoa_reversed some_digit fits = record {
    text = record {
      nonzero = λ i lt. omega (arith, reversed_digit i lt, w.digits (n - 1 - i) (omega arith));
      nul = ground (arith, reversed (buf + n));
      small = omega arith;
    };
    reads = numeral-reverse n radix _ _ (λ j lt. ap digit (reversed_digit j lt)) ∙ w.value;
    some_digit = some_digit;
    fits = fits;
    frame = λ x out. ground (arith, reversed x, w.before x, w.after x);
  }

-- `itoa` of a 32-bit value in a base from 2 to 36 returns, and it leaves at `buf` a NUL-terminated
-- string of at least one and at most 32 digits that reads as the value; it writes nothing else.
pub itoa_lem :
    (m : Mem) (value buf radix : ℕ)
    → 2 ≤ radix
    → radix ≤ 36
    → value < 2 ^ 32
    → (m' : Mem) × (n : ℕ) × (itoa m value buf radix ≡ some m') × IsNumeral m m' buf n value radix
unfolding itoa
itoa_lem m value buf radix binary table small = elim (Bool-cases (value == 0)) [
  | inl zero_value ↦
      let e : value ≡ 0 = ground arith in
      (write (write m buf b'0') (buf + 1) 0, 1, rw (zero_value, itoa), rw e (itoa_zero m buf radix))
  | inr more ↦
      let (m1, n, e, w, fits, pos_n) = itoa_loop-Written radix binary table 32 m buf value small in
      let some_digit : 0 < n = pos_n (ground arith) in
      let text = loop_text w fits in
      let (m', e', reversed) = strrev_lem (write m1 (buf + n) 0) buf n text in
      (m', n, rw (more, itoa) (rw (e, itoa) e'), itoa_reversed w reversed some_digit fits)
]
