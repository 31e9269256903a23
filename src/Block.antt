-- ===== src/Block.antt =====
-- `memset`, `memcpy` and `memmove` of student-distrib/lib.c, which are inline assembly: the rounds of
-- their loops, with the counters in the order of the registers (ecx or edx, edi, esi).
pub mod Laws
pub mod Words
mod Tests
use ece391_mp.Base.{ℕ, zero, suc, ◌+◌, ◌-◌, ◌*◌, ◌/◌, ◌%◌, ◌==◌, true, false, leb, if◌then◌else◌}
use ece391_mp.Base.Mem.{Mem, write}

-- `rep stosl` of a word whose four bytes are `c`.
stosl : ℕ → ℕ → Mem → ℕ → Mem
stosl zero edi m c = m
stosl (suc ecx) edi m c =
    stosl ecx (edi + 4) (write (write (write (write m edi c) (edi + 1) c) (edi + 2) c) (edi + 3) c)
      c

-- From `.memset_bottom` on.
memset_bottom : ℕ → ℕ → Mem → ℕ → Mem
memset_bottom zero edi m c = m
memset_bottom (suc edx) edi m c = memset_bottom edx (edi + 1) (write m edi c) c

-- From `.memset_aligned` on.
memset_aligned : ℕ → ℕ → Mem → ℕ → Mem
memset_aligned ecx edi m c =
    memset_bottom (ecx % 4) (edi + 4 * (ecx / 4)) (stosl (ecx / 4) edi m c) c

-- From `.memset_top` on.
memset_top : ℕ → ℕ → Mem → ℕ → Mem
memset_top zero edi m c = m
memset_top (suc ecx) edi m c = elim (edi % 4 == 0) [
  | true ↦ memset_aligned (suc ecx) edi m c
  | false ↦ memset_top ecx (edi + 1) (write m edi c) c
]

unfoldable pub memset : Mem → ℕ → ℕ → ℕ → Mem
unfolding memset_top memset_aligned memset_bottom stosl
memset m s c n = memset_top n s m (c % 256)

-- `rep stosw` with the lower 16 bits of `c`, and `rep stosl` with all 32.
unfoldable pub stosw : ℕ → ℕ → Mem → ℕ → Mem
stosw zero edi m c = m
stosw (suc ecx) edi m c =
    stosw ecx (edi + 2) (write (write m edi (c % 256)) (edi + 1) (c / 256 % 256)) c

unfoldable pub stos_dword : ℕ → ℕ → Mem → ℕ → Mem
stos_dword zero edi m c = m
stos_dword (suc ecx) edi m c =
    stos_dword ecx (edi + 4)
      (write
        (write (write (write m edi (c % 256)) (edi + 1) (c / 256 % 256)) (edi + 2)
          (c / 65536 % 256))
        (edi + 3) (c / 16777216 % 256))
      c

unfoldable pub memset_word : Mem → ℕ → ℕ → ℕ → Mem
unfolding stosw
memset_word m s c n = stosw n s m c

unfoldable pub memset_dword : Mem → ℕ → ℕ → ℕ → Mem
unfolding stos_dword
memset_dword m s c n = stos_dword n s m c

-- `rep movsl`: each round loads four bytes, then stores them.
movsl : ℕ → ℕ → ℕ → Mem → Mem
movsl zero edi esi m = m
movsl (suc ecx) edi esi m = movsl ecx (edi + 4) (esi + 4) (
    write (write (write (write m edi (m esi)) (edi + 1) (m (esi + 1))) (edi + 2) (m (esi + 2)))
      (edi + 3) (m (esi + 3)))

memcpy_bottom : ℕ → ℕ → ℕ → Mem → Mem
memcpy_bottom zero edi esi m = m
memcpy_bottom (suc edx) edi esi m = memcpy_bottom edx (edi + 1) (esi + 1) (write m edi (m esi))

memcpy_aligned : ℕ → ℕ → ℕ → Mem → Mem
memcpy_aligned ecx edi esi m =
    memcpy_bottom (ecx % 4) (edi + 4 * (ecx / 4)) (esi + 4 * (ecx / 4)) (movsl (ecx / 4) edi esi m)

memcpy_top : ℕ → ℕ → ℕ → Mem → Mem
memcpy_top zero edi esi m = m
memcpy_top (suc ecx) edi esi m = elim (edi % 4 == 0) [
  | true ↦ memcpy_aligned (suc ecx) edi esi m
  | false ↦ memcpy_top ecx (edi + 1) (esi + 1) (write m edi (m esi))
]

unfoldable pub memcpy : Mem → ℕ → ℕ → ℕ → Mem
unfolding memcpy_top memcpy_aligned memcpy_bottom movsl
memcpy m dest src n = memcpy_top n dest src m

-- `rep movsb` upwards, and downwards from the last byte (`std`); `esi` and `edi` are the addresses
-- of the lowest byte that is left.
movsb_up : ℕ → ℕ → ℕ → Mem → Mem
movsb_up zero edi esi m = m
movsb_up (suc ecx) edi esi m = movsb_up ecx (edi + 1) (esi + 1) (write m edi (m esi))

movsb_down : ℕ → ℕ → ℕ → Mem → Mem
movsb_down zero edi esi m = m
movsb_down (suc ecx) edi esi m = movsb_down ecx edi esi (write m (edi + ecx) (m (esi + ecx)))

unfoldable pub memmove : Mem → ℕ → ℕ → ℕ → Mem
unfolding movsb_up movsb_down
memmove m dest src n = if leb dest src then movsb_up n dest src m else movsb_down n dest src m
