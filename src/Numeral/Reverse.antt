-- ===== src/Numeral/Reverse.antt =====
-- `strrev` reverses a string in place.
use ece391_mp.Base.{
  ℕ, zero, suc, ◌+◌, ◌-◌, ◌≤◌, ◌≡◌, arith, ◌==◌, inl, inr, some, Bool-cases, refl, ◌∙◌, leb, ltb,
  ◌&&◌, if◌then◌else◌,
}
use ece391_mp.Base.Mem.{Mem}
use ece391_mp.Str.Length.{IsStr, strlen-IsStr}
use ece391_mp.Numeral.{strrev, strrev_loop, swap_bytes}

swap_bytes_lem :
    (m : Mem) (a b x : ℕ)
    → swap_bytes m a b x ≡ (if x == a then m b else if x == b then m a else m x)
unfolding swap_bytes
swap_bytes_lem m a b x = ground arith

strrev_loop_lem :
    (k : ℕ) (m : Mem) (s b e x : ℕ)
    → b ≤ e + 1
    → e ≤ b + k
    → strrev_loop k m s b e x
      ≡ (if leb (s + b) x && leb x (s + e) then m (s + b + e - (x - s)) else m x)
unfolding strrev_loop
strrev_loop_lem zero m s b e x le lt = ground arith
strrev_loop_lem (suc k) m s b e x le lt = elim (Bool-cases (ltb b e)) [
  | inl more ↦
      let m' = swap_bytes m (s + b) (s + e) in
      let rest = strrev_loop_lem k m' s (b + 1) (e - 1) x in
      let here = swap_bytes_lem m (s + b) (s + e) in
      rw (more, strrev_loop) (ground (arith, rest, here x, here (s + (b + 1) + (e - 1) - (x - s))))
  | inr done ↦ rw (done, strrev_loop) (ground arith)
]

strrev_loop_none : (m : Mem) (s x : ℕ) → strrev_loop 0 m s 0 (0 - 1) x ≡ m x
unfolding strrev_loop
strrev_loop_none m s x = refl

-- The whole loop, from the ends of a string of length `n`.
strrev_loop_whole :
    (n : ℕ) (m : Mem) (s x : ℕ)
    → strrev_loop n m s 0 (n - 1) x
      ≡ (if leb s x && ltb x (s + n) then m (s + (n - 1 - (x - s))) else m x)
strrev_loop_whole n m s x = elim (Bool-cases (ltb 0 n)) [
  | inl some_bytes ↦ ground (arith, strrev_loop_lem n m s 0 (n - 1) x)
  | inr empty ↦ let e : n ≡ 0 = ground arith in rw e (strrev_loop_none m s x ∙ ground arith)
]

-- `strrev` returns, and it has put the bytes of the string in reverse order and changed nothing else.
pub strrev_lem :
    (m : Mem) (s n : ℕ)
    → IsStr m s n
    → (m' : Mem) × (strrev m s ≡ some m')
      × ((x : ℕ) → m' x ≡ (if leb s x && ltb x (s + n) then m (s + (n - 1 - (x - s))) else m x))
unfolding strrev
strrev_lem m s n h =
    (strrev_loop n m s 0 (n - 1), rw (strlen-IsStr h, strrev), λ x. strrev_loop_whole n m s x)
