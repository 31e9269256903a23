-- ===== src/Str/Copy.antt =====
-- `strcpy` and `strncpy`: what they write, and that they write nothing else.
use ece391_mp.Base.{
  ℕ, zero, suc, ◌+◌, ◌-◌, ◌<◌, ◌≤◌, ◌≡◌, ◌⊎◌, some, arith, ◌==◌, inl, inr, Bool-cases, leb, ltb,
  ◌&&◌, if◌then◌else◌,
}
use ece391_mp.Base.Mem.{Mem, write}
use ece391_mp.Str.{strcpy, strcpy_from, strncpy, strncpy_from, strncpy_pad, scan_limit}
use ece391_mp.Str.Length.{IsStr, IsStr-write}

-- The `n` bytes from `a` and the `k` bytes from `b` do not overlap.
abbrev pub Apart : ℕ → ℕ → ℕ → ℕ → Type 0
Apart a n b k = (a + n ≤ b) ⊎ (b + k ≤ a)

strncpy_pad_lem :
    (k : ℕ) (m : Mem) (dest i x : ℕ)
    → strncpy_pad k m dest i x ≡ (if leb (dest + i) x && ltb x (dest + i + k) then 0 else m x)
unfolding strncpy_pad
strncpy_pad_lem zero m dest i x = ground arith
strncpy_pad_lem (suc k) m dest i x =
    ground (arith, strncpy_pad_lem k (write m (dest + i) 0) dest (i + 1) x)

-- The byte at index `j` of a string of length `len`, with NULs behind it.
abbrev pub padded : Mem → ℕ → ℕ → ℕ → ℕ
padded m src len j = if ltb j len then m (src + j) else 0

strncpy_from_lem :
    (k : ℕ) (m : Mem) (dest src len i x : ℕ)
    → IsStr m src len
    → i ≤ len
    → Apart (dest + i) k src (len + 1)
    → strncpy_from k m dest src i x
      ≡ (if leb (dest + i) x && ltb x (dest + i + k) then padded m src len (x - dest) else m x)
unfolding strncpy_from
strncpy_from_lem zero m dest src len i x s le apart = ground arith
strncpy_from_lem (suc k) m dest src len i x s le apart = elim (Bool-cases (m (src + i) == 0)) [
  | inl end ↦ ground (arith, strncpy_pad_lem (suc k) m dest i x, s.nonzero i)
  | inr more ↦
      let below : i < len = ground (arith, s.nul) in
      let s' = IsStr-write (dest + i) (m (src + i)) s (omega arith) in
      let rest =
        strncpy_from_lem k (write m (dest + i) (m (src + i))) dest src len (i + 1) x s'
          (omega arith) (omega arith) in
      ground (arith, rest)
]

-- `strncpy` of a string that lies apart from the destination writes exactly `n` bytes: those of the
-- string, then NULs.
pub strncpy_lem :
    (m : Mem) (dest src n len : ℕ)
    → IsStr m src len
    → Apart dest n src (len + 1)
    → (x : ℕ)
    → strncpy m dest src n x
      ≡ (if leb dest x && ltb x (dest + n) then padded m src len (x - dest) else m x)
unfolding strncpy
strncpy_lem m dest src n len s apart x =
    ground (arith, strncpy_from_lem n m dest src len 0 x s (omega arith) (omega arith))

strcpy_from_lem :
    (k : ℕ) (m : Mem) (dest src len i : ℕ)
    → IsStr m src len
    → i ≤ len
    → len < i + k
    → Apart (dest + i) (len + 1 - i) src (len + 1)
    → (m' : Mem) × (strcpy_from k m dest src i ≡ some m')
      × ((x : ℕ)
          → m' x ≡ (
              if leb (dest + i) x && ltb x (dest + len + 1)
              then padded m src len (x - dest)
              else m x))
unfolding strcpy_from
strcpy_from_lem zero m dest src len i s le lt apart = absurd (omega arith)
strcpy_from_lem (suc k) m dest src len i s le lt apart = elim (Bool-cases (m (src + i) == 0)) [
  | inl end ↦ (write m (dest + i) 0, rw (end, strcpy_from), λ x. ground (arith, s.nonzero i))
  | inr more ↦
      let below : i < len = ground (arith, s.nul) in
      let s' = IsStr-write (dest + i) (m (src + i)) s (omega arith) in
      let (m', e, h) =
        strcpy_from_lem k (write m (dest + i) (m (src + i))) dest src len (i + 1) s' (omega arith)
          (omega arith) (omega arith) in
      (m', rw (more, strcpy_from) e, λ x. ground (arith, h x))
]

-- `strcpy` of a string that lies apart from the destination returns, and it has written exactly the
-- bytes of the string and the NUL behind them.
pub strcpy_lem :
    (m : Mem) (dest src len : ℕ)
    → IsStr m src len
    → Apart dest (len + 1) src (len + 1)
    → (m' : Mem) × (strcpy m dest src ≡ some m')
      × ((x : ℕ)
          → m' x
            ≡ (if leb dest x && ltb x (dest + len + 1) then padded m src len (x - dest) else m x))
unfolding strcpy
strcpy_lem m dest src len s apart =
    let (m', e, h) =
      strcpy_from_lem scan_limit m dest src len 0 s (omega arith) (omega (arith, s.small))
        (omega arith) in
    (m', e, λ x. ground (arith, h x))
