-- ===== src/Str/Length.antt =====
-- `strlen`, and what a C string is.
use ece391_mp.Base.{
  ℕ, zero, suc, ◌+◌, ◌<◌, ◌≤◌, ◌≡◌, ◌≢◌, ◌⊎◌, some, arith, ◌==◌, inl, inr, Bool-cases, ◌↔◌,
}
use ece391_mp.Base.Mem.{Mem, write}
use ece391_mp.Str.{scan_limit, strlen, strlen_from}

-- `n` bytes other than NUL stand from `s` on, and a NUL behind them.
pub record IsStr (m : Mem) (s n : ℕ) : Type 0 where
  pub nonzero : (i : ℕ) → i < n → m (s + i) ≢ 0
  pub nul : m (s + n) ≡ 0
  pub small : n < scan_limit

pub IsStr_unique : {m : Mem} {s a b : ℕ} → IsStr m s a → IsStr m s b → a ≡ b
IsStr_unique {m} {s} {a} {b} ha hb = ground (arith, ha.nonzero b, hb.nonzero a, ha.nul, hb.nul)

strlen_from-IsStr :
    (k : ℕ) (m : Mem) (s n i : ℕ) → IsStr m s n → i ≤ n → n < i + k → strlen_from k m s i ≡ some n
unfolding strlen_from
strlen_from-IsStr zero m s n i h le lt = absurd (omega arith)
strlen_from-IsStr (suc k) m s n i h le lt =
    ground (arith, h.nonzero i, h.nul, strlen_from-IsStr k m s n (i + 1) h)

-- `strlen` returns the number of bytes before the first NUL.
pub strlen-IsStr : {m : Mem} {s n : ℕ} → IsStr m s n → strlen m s ≡ some n
unfolding strlen
strlen-IsStr {m} {s} {n} h =
    strlen_from-IsStr scan_limit m s n 0 h (omega arith) (omega (arith, h.small))

-- A write beside a string keeps it.
pub IsStr-write :
    {m : Mem} {s n : ℕ} (a v : ℕ) → IsStr m s n → (a < s) ⊎ (s + n < a) → IsStr (write m a v) s n
IsStr-write {m} {s} {n} a v h apart = record {
  nonzero = λ i lt. ground (arith, h.nonzero i);
  nul = ground (arith, h.nul);
  small = h.small;
}

pub IsStr-same :
    {m : Mem} {s n : ℕ} (m' : Mem)
    → IsStr m s n
    → ((x : ℕ) → s ≤ x → x ≤ s + n → m' x ≡ m x)
    → IsStr m' s n
IsStr-same {m} {s} {n} m' h same = record {
  nonzero = λ i lt. ground (arith, h.nonzero i, same (s + i));
  nul = ground (arith, h.nul, same (s + n));
  small = h.small;
}

abbrev pub NonzeroBelow : Mem → ℕ → ℕ → Type 0
NonzeroBelow m s i = (j : ℕ) → j < i → m (s + j) ≢ 0

pub NonzeroBelow-suc :
    (m : Mem) (s i : ℕ) → NonzeroBelow m s i → m (s + i) ≢ 0 → NonzeroBelow m s (i + 1)
NonzeroBelow-suc m s i before here j lt = ground (arith, before j)

strlen_from-some :
    (k : ℕ) (m : Mem) (s i n : ℕ)
    → NonzeroBelow m s i
    → strlen_from k m s i ≡ some n
    → NonzeroBelow m s n × (m (s + n) ≡ 0) × (n < i + k)
unfolding strlen_from
strlen_from-some zero m s i n before e = absurd (cc)
strlen_from-some (suc k) m s i n before e = elim (Bool-cases (m (s + i) == 0)) [
  | inl end ↦ (λ j lt. ground (arith, before j), ground arith, ground arith)
  | inr more ↦
      let (a, b, c) =
        strlen_from-some k m s (i + 1) n (NonzeroBelow-suc m s i before (ground arith))
          (rw (more, strlen_from) at e) in
      (a, b, omega arith)
]

-- `strlen` returns `n` exactly when the bytes from `s` on are a string of length `n`.
pub strlen_iff : (m : Mem) (s n : ℕ) → (strlen m s ≡ some n) ↔ IsStr m s n
unfolding strlen
strlen_iff m s n = (λ e. build e, strlen-IsStr)
  where
    build : strlen_from scan_limit m s 0 ≡ some n → IsStr m s n
    build e =
        let (a, b, c) = strlen_from-some scan_limit m s 0 n (λ j lt. absurd (omega arith)) e in
        record { nonzero = a; nul = b; small = omega arith }
