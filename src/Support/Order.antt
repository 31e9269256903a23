-- ===== src/Support/Order.antt =====
-- The comparison of strings: the two functions against each other.
use ece391_mp.Base.{
  ℕ, zero, suc, ◌+◌, ◌<◌, ◌≡◌, ◌≢◌, inl, inr, refl, arith, Bool-cases, true, false, some, ◌==◌,
}
use mathlib.Core.Path.{subst}
use ece391_mp.Base.Mem.{Mem}
use ece391_mp.Str.{scan_limit}
use ece391_mp.Str.Length.{IsStr}
use ece391_mp.Support.{ece391_strcmp_from, ece391_strcmp, ece391_strncmp_from, ece391_strncmp}

suc-zero : (n : ℕ) → (suc n == 0) ≡ false
suc-zero n = ground arith

strcmp_from-strncmp_from :
    (k n : ℕ) (m : Mem) (s1 s2 : ℕ)
    → n < k
    → ((i : ℕ) → i < n → m (s1 + i) ≢ 0)
    → m (s1 + n) ≡ 0
    → ece391_strcmp_from k m s1 s2 ≡ some (ece391_strncmp_from (suc n) m s1 s2)
unfolding ece391_strcmp_from ece391_strncmp_from
strcmp_from-strncmp_from zero n m s1 s2 lt nz nul = absurd (omega arith)
strcmp_from-strncmp_from (suc k) zero m s1 s2 lt nz nul =
    let end : m s1 ≡ 0 = subst (λ a. m a ≡ 0) (omega arith) nul in
    elim (Bool-cases (m s1 == m s2)) [
      | inr differ ↦ rw (differ, ece391_strcmp_from, ece391_strncmp_from) refl
      | inl same ↦
          let stop : (m s1 == 0) ≡ true = ground (arith, end) in
          rw (same, ece391_strcmp_from, ece391_strncmp_from)
            (rw (stop, ece391_strcmp_from, ece391_strncmp_from) refl)
    ]
strcmp_from-strncmp_from (suc k) (suc n) m s1 s2 lt nz nul = elim (Bool-cases (m s1 == m s2)) [
  | inr differ ↦ rw (differ, ece391_strcmp_from, ece391_strncmp_from) refl
  | inl same ↦
      let at : s1 + 0 ≡ s1 = omega arith in
      let first : m s1 ≢ 0 = subst (λ a. m a ≢ 0) at (nz 0 (omega arith)) in
      let more : (m s1 == 0) ≡ false = ground (arith, first) in
      rw (same, ece391_strcmp_from, ece391_strncmp_from)
        (rw (more, suc-zero n, ece391_strcmp_from, ece391_strncmp_from)
          (strcmp_from-strncmp_from k n m (s1 + 1) (s2 + 1) (omega arith)
            (λ i lt'. subst (λ a. m a ≢ 0) (omega arith) (nz (i + 1) (omega arith)))
            (subst (λ a. m a ≡ 0) (omega arith) nul)))
]

-- `ece391_strcmp` of a string of `n` characters and any bytes returns, and what it returns is what
-- `ece391_strncmp` returns for `n + 1` characters.
pub ece391_strcmp-ece391_strncmp :
    (m : Mem) (s1 s2 n : ℕ)
    → IsStr m s1 n
    → ece391_strcmp m s1 s2 ≡ some (ece391_strncmp m s1 s2 (suc n))
unfolding ece391_strcmp ece391_strncmp
ece391_strcmp-ece391_strncmp m s1 s2 n is =
    rw (suc-zero n, ece391_strncmp)
      (strcmp_from-strncmp_from scan_limit n m s1 s2 is.small is.nonzero is.nul)
