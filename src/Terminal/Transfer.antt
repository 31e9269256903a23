-- ===== src/Terminal/Transfer.antt =====
-- The memory moves of `terminal_read`, one after the other.
use ece391_mp.Base.{
  ℕ, zero, suc, ◌+◌, ◌-◌, ◌<◌, ◌≤◌, ◌≡◌, ◌⊎◌, inl, inr, arith, leb, ltb, ◌&&◌, if◌then◌else◌,
}
use ece391_mp.Base.Mem.{Mem, write}
use ece391_mp.Str.Copy.{Apart}
use ece391_mp.Block.{memcpy, memmove, memset}
use ece391_mp.Block.Laws.{filled, memset_lem, memcpy_lem, memmove_lem}
use ece391_mp.Terminal.{copy_line}

copy_line_lem :
    (n : ℕ) (m : Mem) (from to i x : ℕ)
    → Apart (to + i) n (from + i) n
    → copy_line n m from to i x ≡ filled m (to + i) n (λ j. m (from + i + j)) x
unfolding copy_line
copy_line_lem zero m from to i x apart = ground arith
copy_line_lem (suc n) m from to i x apart =
    ground
      (arith, copy_line_lem n (write m (to + i) (m (from + i))) from to (i + 1) x (omega arith))

pub lt-cases : (i k : ℕ) → (i < k) ⊎ (k ≤ i)
lt-cases i k = ground arith

-- The memory after each call of a branch of `terminal_read`; `r` is the row, `b` the transfer buffer.
module _ (m : Mem) (r b buf n kept : ℕ) where
  unfoldable pub ended : Mem
  ended = write (copy_line (n - 1) m r b 0) (b + n - 1) 10

  unfoldable pub given : Mem
  given = memcpy ended buf b n

  unfoldable pub left : Mem
  left = memset (memmove given r (r + n - 1) kept) (r + kept) 0 n

  ended_lem :
      (x : ℕ)
      → 0 < n
      → Apart b n r n
      → ended x ≡ (
          if leb b x && ltb x (b + n)
          then (if ltb (x - b) (n - 1) then m (r + (x - b)) else 10)
          else m x)
  unfolding ended
  ended_lem x some_bytes apart = ground (arith, copy_line_lem (n - 1) m r b 0 x (omega arith))

  given_lem : (x : ℕ) → Apart buf n b n → given x ≡ filled ended buf n (λ j. ended (b + j)) x
  unfolding given
  given_lem x apart = memcpy_lem ended buf b n x apart

  left_lem :
      (x : ℕ)
      → left x ≡ (
          if leb (r + kept) x && ltb x (r + kept + n)
          then 0
          else if leb r x && ltb x (r + kept)
          then given (r + n - 1 + (x - r))
          else given x)
  unfolding left
  left_lem x = ground (
    arith,
    memset_lem (memmove given r (r + n - 1) kept) (r + kept) 0 n x,
    memmove_lem given r (r + n - 1) kept x,
  )

  pub left-buf :
      (i : ℕ)
      → 0 < n
      → n ≤ 128
      → kept + n ≤ 128
      → i < n
      → Apart b 128 r 128
      → Apart buf n b 128
      → Apart buf n r 128
      → left (buf + i) ≡ (if ltb i (n - 1) then m (r + i) else 10)
  left-buf i some_bytes most room lt apart1 apart2 apart3 = ground (
    arith,
    left_lem (buf + i),
    given_lem (buf + i) (omega arith),
    ended_lem (b + i) some_bytes (omega arith),
  )

  given-row :
      (i : ℕ)
      → 0 < n
      → n ≤ 128
      → i < 128
      → Apart b 128 r 128
      → Apart buf n b 128
      → Apart buf n r 128
      → given (r + i) ≡ m (r + i)
  given-row i some_bytes most lt apart1 apart2 apart3 =
      ground (arith, given_lem (r + i) (omega arith), ended_lem (r + i) some_bytes (omega arith))

  pub left-row :
      (i : ℕ)
      → 0 < n
      → kept + n ≤ 128
      → i < 128
      → Apart b 128 r 128
      → Apart buf n b 128
      → Apart buf n r 128
      → left (r + i) ≡ (
          if leb kept i && ltb i (kept + n)
          then 0
          else if ltb i kept
          then m (r + (n - 1 + i))
          else m (r + i))
  left-row i some_bytes room lt apart1 apart2 apart3 = elim (lt-cases i kept) [
    | inl below ↦
        let e = given-row (n - 1 + i) some_bytes (omega arith) (omega arith) apart1 apart2 apart3 in
        ground (arith, left_lem (r + i), e)
    | inr above ↦
        let e = given-row i some_bytes (omega arith) lt apart1 apart2 apart3 in
        ground (arith, left_lem (r + i), e)
  ]
