-- ===== src/Str/Compare.antt =====
-- `strncmp`: what a result of 0 says.
use ece391_mp.Base.{
  ℕ, zero, suc, ◌+◌, ◌<◌, ◌≤◌, ◌≡◌, refl, ◌≢◌, ◌↔◌, not, ◌||◌, arith, ◌==◌, inl, inr, Bool-cases,
}
use ece391_mp.Base.Int.{pos, ◌-ℤ◌, signed8, sub_signed8_zero}
use ece391_mp.Base.Mem.{Mem, IsBytes}
use ece391_mp.Str.Length.{NonzeroBelow, NonzeroBelow-suc}
use ece391_mp.Str.{strncmp, strncmp_from}

-- The strings at `s1` and `s2` agree in the first `n` bytes, or up to and with the NUL of the first
-- string where that comes earlier.
abbrev pub Agree : Mem → ℕ → ℕ → ℕ → Type 0
Agree m s1 s2 n = (i : ℕ) → i < n → ((j : ℕ) → j < i → m (s1 + j) ≢ 0) → m (s1 + i) ≡ m (s2 + i)

-- The same for the indices from `i` on.
abbrev AgreeFrom : Mem → ℕ → ℕ → ℕ → ℕ → Type 0
AgreeFrom m s1 s2 i k =
    (j : ℕ) → i ≤ j → j < i + k → ((l : ℕ) → l < j → m (s1 + l) ≢ 0) → m (s1 + j) ≡ m (s2 + j)

-- One round that ends the loop with 0 has met the NUL of both strings.
end_zero :
    (m : Mem) (s1 s2 i : ℕ)
    → IsBytes m
    → signed8 (m (s1 + i)) -ℤ signed8 (m (s2 + i)) ≡ pos 0
    → m (s1 + i) ≡ m (s2 + i)
end_zero m s1 s2 i bytes e = sub_signed8_zero _ _ (bytes (s1 + i)) (bytes (s2 + i)) e

strncmp_from-Agree :
    (k : ℕ) (m : Mem) (s1 s2 i : ℕ)
    → IsBytes m
    → strncmp_from k m s1 s2 i ≡ pos 0
    → AgreeFrom m s1 s2 i k
unfolding strncmp_from
strncmp_from-Agree zero m s1 s2 i bytes e j le lt nz = absurd (omega arith)
strncmp_from-Agree (suc k) m s1 s2 i bytes e j le lt nz =
    elim (Bool-cases (not (m (s1 + i) == m (s2 + i)) || (m (s1 + i) == 0))) [
      | inl end ↦
          let same = end_zero m s1 s2 i bytes (rw (end, strncmp_from) at e) in
          ground (arith, same, nz i)
      | inr more ↦
          ground
            (arith, strncmp_from-Agree k m s1 s2 (i + 1) bytes (rw (more, strncmp_from) at e) j)
    ]

sub_signed8_self : (a : ℕ) → signed8 a -ℤ signed8 a ≡ pos 0
sub_signed8_self a = ground arith

strncmp_from_of_Agree :
    (k : ℕ) (m : Mem) (s1 s2 i : ℕ)
    → NonzeroBelow m s1 i
    → AgreeFrom m s1 s2 i k
    → strncmp_from k m s1 s2 i ≡ pos 0
unfolding strncmp_from
strncmp_from_of_Agree zero m s1 s2 i nz h = refl
strncmp_from_of_Agree (suc k) m s1 s2 i nz h =
    let same : m (s1 + i) ≡ m (s2 + i) = h i (omega arith) (omega arith) nz in
    elim (Bool-cases (m (s1 + i) == 0)) [
      | inl end ↦ ground (arith, same, sub_signed8_self (m (s1 + i)))
      | inr more ↦
          let nz' = NonzeroBelow-suc m s1 i nz (ground arith) in
          let rest =
            strncmp_from_of_Agree k m s1 s2 (i + 1) nz'
              (λ j le lt. h j (omega arith) (omega arith)) in
          ground (arith, same, rest)
    ]

-- On memory that holds bytes, `strncmp` gives 0 exactly when the strings agree in the bytes that it
-- compares.
pub strncmp_iff :
    (m : Mem) (s1 s2 n : ℕ) → IsBytes m → (strncmp m s1 s2 n ≡ pos 0) ↔ Agree m s1 s2 n
unfolding strncmp
strncmp_iff m s1 s2 n bytes = (
  λ e i lt nz. strncmp_from-Agree n m s1 s2 0 bytes e i (omega arith) (omega arith) nz,
  λ h.
      strncmp_from_of_Agree n m s1 s2 0 (λ l lt. absurd (omega arith))
        (λ j le lt nz. h j (omega arith) nz),
)
