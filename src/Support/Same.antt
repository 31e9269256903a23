-- ===== src/Support/Same.antt =====
-- The library of the user programs against the kernel's: the same results from another code.
use ece391_mp.Base.{
  ℕ, zero, suc, ◌+◌, ◌-◌, ◌/◌, ◌≡◌, inl, inr, refl, arith, ap, sym, ◌∙◌, Bool-cases, true, false,
  some, Option-cases, ◌==◌, ltb, leb,
}
use mathlib.Core.Path.{subst}
use ece391_mp.Base.Mem.{Mem, write}
use ece391_mp.Str.{scan_limit, strlen_from, strlen, strcpy_from, strcpy}
use ece391_mp.Numeral.{swap_bytes, strrev_loop, strrev, itoa_loop, itoa}
use ece391_mp.Support.{
  ece391_strlen_from, ece391_strlen, ece391_strcpy_from, ece391_strcpy, reverse_loop, ece391_strrev,
  digits_loop, ece391_itoa,
}

strlen_from-same :
    (k : ℕ) (m : Mem) (s i : ℕ) → ece391_strlen_from k m (s + i) i ≡ strlen_from k m s i
unfolding ece391_strlen_from strlen_from
strlen_from-same zero m s i = refl
strlen_from-same (suc k) m s i = elim (Bool-cases (m (s + i) == 0)) [
  | inl end ↦ rw (end, ece391_strlen_from, strlen_from) refl
  | inr more ↦
      rw (more, ece391_strlen_from, strlen_from)
        (ap (λ a. ece391_strlen_from k m a (i + 1)) (omega arith) ∙ strlen_from-same k m s (i + 1))
]

-- `ece391_strlen` and the kernel's `strlen` return the same, on every memory.
pub ece391_strlen-strlen : (m : Mem) (s : ℕ) → ece391_strlen m s ≡ strlen m s
unfolding ece391_strlen strlen
ece391_strlen-strlen m s =
    subst (λ a. ece391_strlen_from scan_limit m a 0 ≡ strlen_from scan_limit m s 0) (omega arith)
      (strlen_from-same scan_limit m s 0)

strcpy_from-same :
    (k : ℕ) (m : Mem) (dst src i : ℕ)
    → ece391_strcpy_from k m (dst + i) (src + i) ≡ strcpy_from k m dst src i
unfolding ece391_strcpy_from strcpy_from
strcpy_from-same zero m dst src i = refl
strcpy_from-same (suc k) m dst src i = elim (Bool-cases (m (src + i) == 0)) [
  | inl end ↦
      let nul : m (src + i) ≡ 0 = ground (arith, end) in
      rw (end, ece391_strcpy_from, strcpy_from) (ap (λ v. some (write m (dst + i) v)) nul)
  | inr more ↦
      let m' = write m (dst + i) (m (src + i)) in
      let next : ece391_strcpy_from k m' (dst + i + 1) (src + i + 1)
          ≡ ece391_strcpy_from k m' (dst + (i + 1)) (src + (i + 1)) =
        ap (λ j. ece391_strcpy_from k m' j (src + i + 1)) (omega arith)
        ∙ ap (ece391_strcpy_from k m' (dst + (i + 1))) (omega arith) in
      rw (more, ece391_strcpy_from, strcpy_from) (next ∙ strcpy_from-same k m' dst src (i + 1))
]

-- `ece391_strcpy` and the kernel's `strcpy` leave the same memory, also when the strings overlap.
pub ece391_strcpy-strcpy : (m : Mem) (dst src : ℕ) → ece391_strcpy m dst src ≡ strcpy m dst src
unfolding ece391_strcpy strcpy
ece391_strcpy-strcpy m dst src =
    let start : ece391_strcpy_from scan_limit m dst src
        ≡ ece391_strcpy_from scan_limit m (dst + 0) (src + 0) =
      ap (λ a. ece391_strcpy_from scan_limit m a src) (omega arith)
      ∙ ap (ece391_strcpy_from scan_limit m (dst + 0)) (omega arith) in
    start ∙ strcpy_from-same scan_limit m dst src 0

reverse_loop-same :
    (k : ℕ) (m : Mem) (s beg end : ℕ) → reverse_loop k m s beg end ≡ strrev_loop k m s beg end
unfolding reverse_loop strrev_loop swap_bytes
reverse_loop-same zero m s beg end = refl
reverse_loop-same (suc k) m s beg end = elim (Bool-cases (ltb beg end)) [
  | inl more ↦ rw (more, reverse_loop, strrev_loop) (reverse_loop-same k _ s (beg + 1) (end - 1))
  | inr done ↦ rw (done, reverse_loop, strrev_loop) refl
]

-- A string of at most one character is its own reverse.
strrev_loop-short :
    (k : ℕ) (m : Mem) (s len : ℕ) → leb len 1 ≡ true → strrev_loop k m s 0 (len - 1) ≡ m
unfolding strrev_loop
strrev_loop-short zero m s len short = refl
strrev_loop-short (suc k) m s len short =
    let done : ltb 0 (len - 1) ≡ false = ground (arith, short) in rw (done, strrev_loop) refl

-- `ece391_strrev` and the kernel's `strrev` leave the same memory.
pub ece391_strrev-strrev : (m : Mem) (s : ℕ) → ece391_strrev m s ≡ strrev m s
unfolding ece391_strrev strrev
ece391_strrev-strrev m s = elim (Option-cases (strlen m s)) [
  | inl endless ↦ rw (ece391_strlen-strlen m s ∙ endless, ece391_strrev) (rw (endless, strrev) refl)
  | inr (len, e) ↦
      rw (ece391_strlen-strlen m s ∙ e, ece391_strrev)
        (rw (e, strrev)
          (elim (Bool-cases (leb len 1)) [
            | inl short ↦ rw short (ap some (sym (strrev_loop-short len m s len short)))
            | inr long ↦ rw long (ap some (reverse_loop-same len m s 0 (len - 1)))
          ]))
]

digits_loop-same :
    (k : ℕ) (m : Mem) (newbuf newval radix : ℕ)
    → digits_loop k m newbuf newval radix ≡ itoa_loop k m newbuf newval radix
unfolding digits_loop itoa_loop
digits_loop-same zero m newbuf newval radix = refl
digits_loop-same (suc k) m newbuf newval radix = elim (Bool-cases (ltb 0 newval)) [
  | inl more ↦
      rw (more, digits_loop, itoa_loop) (digits_loop-same k _ (newbuf + 1) (newval / radix) radix)
  | inr done ↦ rw (done, digits_loop, itoa_loop) refl
]

-- `ece391_itoa` and the kernel's `itoa` leave the same memory, for every number and radix.
pub ece391_itoa-itoa :
    (m : Mem) (value buf radix : ℕ) → ece391_itoa m value buf radix ≡ itoa m value buf radix
unfolding ece391_itoa itoa
ece391_itoa-itoa m value buf radix = elim (Bool-cases (value == 0)) [
  | inl zero_value ↦ rw zero_value refl
  | inr more ↦
      let digits = digits_loop-same 32 m buf value radix in
      elim (Option-cases (itoa_loop 32 m buf value radix)) [
        | inl endless ↦ rw (more, digits ∙ endless) refl
        | inr ((m', newbuf), e) ↦
            rw (more, digits ∙ e) (ece391_strrev-strrev (write m' newbuf 0) buf)
      ]
]
