-- ===== src/Block/Laws.antt =====
-- The block operations against their byte-wise meaning.
use ece391_mp.Base.{
  ℕ, zero, suc, ◌+◌, ◌-◌, ◌*◌, ◌/◌, ◌%◌, ◌≤◌, ◌≡◌, arith, leb, ltb, ◌&&◌, if◌then◌else◌,
}
use ece391_mp.Base.Mem.{Mem, write}
use ece391_mp.Str.Copy.{Apart}
use ece391_mp.Block.{
  memset, memset_top, memset_aligned, memset_bottom, stosl, memcpy, memcpy_top, memcpy_aligned,
  memcpy_bottom, movsl, memmove, movsb_up, movsb_down,
}

-- `m` with `v j` in the byte `j` of the `n` bytes from `a` on.
abbrev pub filled : Mem → ℕ → ℕ → (ℕ → ℕ) → ℕ → ℕ
filled m a n v x = if leb a x && ltb x (a + n) then v (x - a) else m x

stosl_lem : (k a c : ℕ) (m : Mem) (x : ℕ) → stosl k a m c x ≡ filled m a (4 * k) (λ _. c) x
unfolding stosl
stosl_lem zero a c m x = ground arith
stosl_lem (suc k) a c m x = ground (
  arith,
  stosl_lem k (a + 4) c (write (write (write (write m a c) (a + 1) c) (a + 2) c) (a + 3) c) x,
)

memset_bottom_lem :
    (k a c : ℕ) (m : Mem) (x : ℕ) → memset_bottom k a m c x ≡ filled m a k (λ _. c) x
unfolding memset_bottom
memset_bottom_lem zero a c m x = ground arith
memset_bottom_lem (suc k) a c m x = ground (arith, memset_bottom_lem k (a + 1) c (write m a c) x)

memset_aligned_lem :
    (k a c : ℕ) (m : Mem) (x : ℕ) → memset_aligned k a m c x ≡ filled m a k (λ _. c) x
unfolding memset_aligned
memset_aligned_lem k a c m x = ground (
  arith,
  memset_bottom_lem (k % 4) (a + 4 * (k / 4)) c (stosl (k / 4) a m c) x,
  stosl_lem (k / 4) a c m x,
)

memset_top_lem : (k a c : ℕ) (m : Mem) (x : ℕ) → memset_top k a m c x ≡ filled m a k (λ _. c) x
unfolding memset_top
memset_top_lem zero a c m x = ground arith
memset_top_lem (suc k) a c m x =
    ground (arith, memset_aligned_lem (suc k) a c m x, memset_top_lem k (a + 1) c (write m a c) x)

-- `memset`, with its aligned and word-wise phases, sets exactly the `n` bytes from `s` on, to the low
-- byte of `c`.
pub memset_lem : (m : Mem) (s c n x : ℕ) → memset m s c n x ≡ filled m s n (λ _. c % 256) x
unfolding memset
memset_lem m s c n x = memset_top_lem n s (c % 256) m x

movsl_lem :
    (k d s : ℕ) (m : Mem) (x : ℕ)
    → Apart d (4 * k) s (4 * k)
    → movsl k d s m x ≡ filled m d (4 * k) (λ j. m (s + j)) x
unfolding movsl
movsl_lem zero d s m x apart = ground arith
movsl_lem (suc k) d s m x apart = ground (
  arith,
  movsl_lem k (d + 4) (s + 4)
      (write (write (write (write m d (m s)) (d + 1) (m (s + 1))) (d + 2) (m (s + 2))) (d + 3)
        (m (s + 3)))
      x,
)

memcpy_bottom_lem :
    (k d s : ℕ) (m : Mem) (x : ℕ)
    → Apart d k s k
    → memcpy_bottom k d s m x ≡ filled m d k (λ j. m (s + j)) x
unfolding memcpy_bottom
memcpy_bottom_lem zero d s m x apart = ground arith
memcpy_bottom_lem (suc k) d s m x apart =
    ground (arith, memcpy_bottom_lem k (d + 1) (s + 1) (write m d (m s)) x)

memcpy_aligned_lem :
    (k d s : ℕ) (m : Mem) (x : ℕ)
    → Apart d k s k
    → memcpy_aligned k d s m x ≡ filled m d k (λ j. m (s + j)) x
unfolding memcpy_aligned
memcpy_aligned_lem k d s m x apart =
    let q = 4 * (k / 4) in
    ground (
      arith,
      memcpy_bottom_lem (k % 4) (d + q) (s + q) (movsl (k / 4) d s m) x,
      movsl_lem (k / 4) d s m x,
      movsl_lem (k / 4) d s m (s + q + (x - (d + q))),
    )

memcpy_top_lem :
    (k d s : ℕ) (m : Mem) (x : ℕ)
    → Apart d k s k
    → memcpy_top k d s m x ≡ filled m d k (λ j. m (s + j)) x
unfolding memcpy_top
memcpy_top_lem zero d s m x apart = ground arith
memcpy_top_lem (suc k) d s m x apart = ground (
  arith,
  memcpy_aligned_lem (suc k) d s m x,
  memcpy_top_lem k (d + 1) (s + 1) (write m d (m s)) x,
)

-- `memcpy` between blocks that do not overlap copies exactly the `n` bytes, for every alignment.
pub memcpy_lem :
    (m : Mem) (dest src n x : ℕ)
    → Apart dest n src n
    → memcpy m dest src n x ≡ filled m dest n (λ j. m (src + j)) x
unfolding memcpy
memcpy_lem m dest src n x apart = memcpy_top_lem n dest src m x apart

movsb_up_lem :
    (k d s : ℕ) (m : Mem) (x : ℕ) → d ≤ s → movsb_up k d s m x ≡ filled m d k (λ j. m (s + j)) x
unfolding movsb_up
movsb_up_lem zero d s m x le = ground arith
movsb_up_lem (suc k) d s m x le = ground (arith, movsb_up_lem k (d + 1) (s + 1) (write m d (m s)) x)

movsb_down_lem :
    (k d s : ℕ) (m : Mem) (x : ℕ) → s ≤ d → movsb_down k d s m x ≡ filled m d k (λ j. m (s + j)) x
unfolding movsb_down
movsb_down_lem zero d s m x le = ground arith
movsb_down_lem (suc k) d s m x le =
    ground (arith, movsb_down_lem k d s (write m (d + k) (m (s + k))) x)

-- `memmove` copies the `n` bytes as they were before the call, also where the blocks overlap.
pub memmove_lem :
    (m : Mem) (dest src n x : ℕ) → memmove m dest src n x ≡ filled m dest n (λ j. m (src + j)) x
unfolding memmove
memmove_lem m dest src n x =
    ground (arith, movsb_up_lem n dest src m x, movsb_down_lem n dest src m x)
