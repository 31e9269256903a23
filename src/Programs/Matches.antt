-- ===== src/Programs/Matches.antt =====
-- What `grep` finds in a line.
use ece391_mp.Base.{
  ℕ, zero, suc, ◌+◌, ◌<◌, ◌≤◌, ◌≡◌, ◌≢◌, ◌↔◌, Bool, inl, inr, refl, arith, ap, sym, ◌∙◌, Bool-cases,
  true, false, ◌==◌, ◌&&◌, ◌||◌,
}
use mathlib.Core.Path.{subst}
use ece391_mp.Base.Int.{pos, eqb_ℤ, eqb_ℤ→eq, eq→eqb_ℤ}
use ece391_mp.Base.Mem.{Mem}
use ece391_mp.Str.Length.{IsStr}
use ece391_mp.Support.{ece391_strncmp_from, ece391_strncmp}
use ece391_mp.Programs.Search.{has_match}

-- The `n` bytes at `a` are those at `s`.
abbrev pub Same : Mem → ℕ → ℕ → ℕ → Type 0
Same m a s n = (j : ℕ) → j < n → m (a + j) ≡ m (s + j)

strncmp_from_step :
    (n : ℕ) (m : Mem) (a s : ℕ)
    → m s ≢ 0
    → ece391_strncmp_from (suc n) m a s ≡ pos 0
    → (m a ≡ m s) × (n ≢ 0 → ece391_strncmp_from n m (a + 1) (s + 1) ≡ pos 0)
unfolding ece391_strncmp_from
strncmp_from_step n m a s nz e = elim (Bool-cases (m a == m s)) [
  | inr differ ↦ absurd (ground (arith, differ, rw (differ, ece391_strncmp_from) at e))
  | inl same ↦
      let e1 = rw (same, ece391_strncmp_from) at e in
      let here : m a ≡ m s = ground (arith, same) in
      (
        here,
        λ more.
            let on : ((m a == 0) || (n == 0)) ≡ false = ground (arith, here, nz, more) in
            rw on at e1,
      )
]

strncmp_from-Same :
    (n : ℕ) (m : Mem) (a s : ℕ)
    → ((j : ℕ) → j < n → m (s + j) ≢ 0)
    → ece391_strncmp_from n m a s ≡ pos 0
    → Same m a s n
strncmp_from-Same zero m a s nz e j lt = absurd (omega (arith, lt))
strncmp_from-Same (suc n) m a s nz e zero lt =
    let first : m s ≢ 0 = subst (λ x. m x ≢ 0) (omega arith) (nz 0 (omega arith)) in
    ap m (omega arith) ∙ (strncmp_from_step n m a s first e).0 ∙ ap m (omega arith)
strncmp_from-Same (suc n) m a s nz e (suc j) lt =
    let first : m s ≢ 0 = subst (λ x. m x ≢ 0) (omega arith) (nz 0 (omega arith)) in
    let rest = (strncmp_from_step n m a s first e).1 (omega (arith, lt)) in
    let shifted : (i : ℕ) → i < n → m (s + 1 + i) ≢ 0 =
      λ i below. subst (λ x. m x ≢ 0) (omega arith) (nz (i + 1) (omega (arith, below))) in
    ap m (omega arith)
    ∙ strncmp_from-Same n m (a + 1) (s + 1) shifted rest j (omega (arith, lt))
    ∙ ap m (omega arith)

strncmp_from_of_Same :
    (n : ℕ) (m : Mem) (a s : ℕ) → Same m a s n → ece391_strncmp_from n m a s ≡ pos 0
unfolding ece391_strncmp_from
strncmp_from_of_Same zero m a s same = refl
strncmp_from_of_Same (suc n) m a s same =
    let here : m a ≡ m s = ap m (omega arith) ∙ same 0 (omega arith) ∙ ap m (omega arith) in
    let first : (m a == m s) ≡ true = ground (arith, here) in
    let rest : Same m (a + 1) (s + 1) n =
      λ j lt. ap m (omega arith) ∙ same (j + 1) (omega (arith, lt)) ∙ ap m (omega arith) in
    elim (Bool-cases ((m a == 0) || (n == 0))) [
      | inl stop ↦ rw (first, ece391_strncmp_from) (rw stop refl)
      | inr on ↦
          rw (first, ece391_strncmp_from) (rw on (strncmp_from_of_Same n m (a + 1) (s + 1) rest))
    ]

-- The test of a round.
abbrev test : Mem → ℕ → ℕ → ℕ → Bool
test m s n a = (m s == m a) && eqb_ℤ (ece391_strncmp m a s n) (pos 0)

test-Same :
    {m : Mem} {s n : ℕ} (a : ℕ)
    → IsStr m s n
    → 0 < n
    → (test m s n a ≡ true → Same m a s n) × (Same m a s n → test m s n a ≡ true)
unfolding ece391_strncmp
test-Same {m} {s} {n} a is some_text =
    let more : (n == 0) ≡ false = ground (arith, some_text) in
    (
      λ e.
          let zero_result : ece391_strncmp m a s n ≡ pos 0 = eqb_ℤ→eq _ _ (ground (arith, e)) in
          strncmp_from-Same n m a s is.nonzero (rw (more, ece391_strncmp) at zero_result),
      λ same.
          let r : ece391_strncmp m a s n ≡ pos 0 =
            rw (more, ece391_strncmp) (strncmp_from_of_Same n m a s same) in
          let first : m s ≡ m a =
            ap m (omega arith) ∙ sym (same 0 some_text) ∙ ap m (omega arith) in
          ground (arith, first, eq→eqb_ℤ _ _ r),
    )

-- The search of a line from `check` on, for a text that is not empty, finds it exactly when it stands
-- at one of the `k` places from there.
pub has_match_iff :
    (k : ℕ) (m : Mem) (bytes s n check : ℕ)
    → IsStr m s n
    → 0 < n
    → (has_match k m bytes s n check ≡ true)
      ↔ ((i : ℕ) × (check ≤ i) × (i < check + k) × Same m (bytes + i) s n)
unfolding has_match
has_match_iff zero m bytes s n check is some_text =
    (λ e. cc, λ (i, low, high, same). absurd (omega (arith, low, high)))
has_match_iff (suc k) m bytes s n check is some_text =
    let rest = has_match_iff k m bytes s n (check + 1) is some_text in
    let round = test-Same {m = m} {s = s} {n = n} (bytes + check) is some_text in
    elim (Bool-cases (test m s n (bytes + check))) [
      | inl hit ↦
          (λ e. (check, omega arith, omega arith, round.0 hit), λ found. rw (hit, has_match) refl)
      | inr no_hit ↦ (
        λ e.
            let (i, low, high, same) = rest.0 (rw (no_hit, has_match) at e) in
            (i, omega (arith, low), omega (arith, high), same),
        λ (i, low, high, same). elim (Bool-cases (i == check)) [
          | inl here ↦
              let at : i ≡ check = ground (arith, here) in
              absurd (cc (no_hit, round.1 (subst (λ x. Same m (bytes + x) s n) at same)))
          | inr later ↦
              rw (no_hit, has_match)
                (rest.1 (i, ground (arith, later, low), omega (arith, high), same))
        ],
      )
    ]
