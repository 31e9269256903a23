-- ===== src/Block/Words.antt =====
-- `memset_word` and `memset_dword`: what they store, byte by byte.
use ece391_mp.Base.{
  ℕ, zero, suc, ◌+◌, ◌-◌, ◌*◌, ◌/◌, ◌%◌, ◌≡◌, arith, ◌==◌, ltb, leb, ◌&&◌, if◌then◌else◌,
}
use ece391_mp.Base.Mem.{Mem, write}
use ece391_mp.Block.{stosw, stos_dword, memset_word, memset_dword}

-- Byte `k` of a word of four bytes.
abbrev pub byte_of : ℕ → ℕ → ℕ
byte_of c k =
    if k == 0
    then c % 256
    else if k == 1
    then c / 256 % 256
    else if k == 2
    then c / 65536 % 256
    else c / 16777216 % 256

stosw_lem :
    (n s : ℕ) (m : Mem) (c x : ℕ)
    → stosw n s m c x ≡ (if leb s x && ltb x (s + 2 * n) then byte_of c ((x - s) % 2) else m x)
unfolding stosw
stosw_lem zero s m c x = ground arith
stosw_lem (suc n) s m c x =
    ground (arith, stosw_lem n (s + 2) (write (write m s (c % 256)) (s + 1) (c / 256 % 256)) c x)

-- `memset_word` stores the two low bytes of `c`, in turn, in the `2 n` bytes from `s` on: `n` counts
-- words, not bytes.
pub memset_word_lem :
    (m : Mem) (s c n x : ℕ)
    → memset_word m s c n x
      ≡ (if leb s x && ltb x (s + 2 * n) then byte_of c ((x - s) % 2) else m x)
unfolding memset_word
memset_word_lem m s c n x = stosw_lem n s m c x

stos_dword_lem :
    (n s : ℕ) (m : Mem) (c x : ℕ)
    → stos_dword n s m c x ≡ (if leb s x && ltb x (s + 4 * n) then byte_of c ((x - s) % 4) else m x)
unfolding stos_dword
stos_dword_lem zero s m c x = ground arith
stos_dword_lem (suc n) s m c x = ground (
  arith,
  stos_dword_lem n (s + 4)
      (write (write (write (write m s (c % 256)) (s + 1) (c / 256 % 256)) (s + 2) (c / 65536 % 256))
        (s + 3) (c / 16777216 % 256))
      c x,
)

-- `memset_dword` stores the four bytes of `c`, in turn, in the `4 n` bytes from `s` on: `n` counts
-- double words, not bytes.
pub memset_dword_lem :
    (m : Mem) (s c n x : ℕ)
    → memset_dword m s c n x
      ≡ (if leb s x && ltb x (s + 4 * n) then byte_of c ((x - s) % 4) else m x)
unfolding memset_dword
memset_dword_lem m s c n x = stos_dword_lem n s m c x
