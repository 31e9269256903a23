-- ===== src/FileSystem/Read.antt =====
-- `read_data` returns the bytes of the file, across its blocks.
use ece391_mp.Base.{
  ℕ, zero, suc, ◌+◌, ◌-◌, ◌/◌, ◌%◌, ◌^◌, ◌<◌, ◌≤◌, ◌≡◌, ◌⊎◌, refl, arith, true, false, leb, ltb,
  ◌&&◌, ◌==◌, min, ap, sym, ◌∙◌, if◌then◌else◌, ◌≢◌,
}
use ece391_mp.Base.Int.{pos}
use ece391_mp.Base.Mem.{Mem, write}
use ece391_mp.FileSystem.{
  num_inodes, inode_at, inode_length, data_block_at, block_size, read_loop, read_data, failure,
}
use ece391_mp.FileSystem.Image.{
  HasFile, file_byte, Beside, inode_length-write, data_block_at-write, file_byte-write,
  HasFile-write,
}

-- `block` is the block of byte `i`, as the loop keeps it; at a block's first byte it is reloaded.
abbrev Loaded : Mem → ℕ → ℕ → ℕ → ℕ → Type 0
Loaded m boot_block n block i =
    i % block_size ≢ 0 → block ≡ data_block_at m boot_block (inode_at boot_block n) (i / block_size)

module _ (boot_block size n offset buf : ℕ) where
  -- The block that a round reads, and what it reads there.
  abbrev current : Mem → ℕ → ℕ → ℕ
  current m block i =
      if i % block_size == 0
      then data_block_at m boot_block (inode_at boot_block n) (i / block_size)
      else block

  current_lem :
      (m : Mem) (block i : ℕ)
      → Loaded m boot_block n block i
      → current m block i ≡ data_block_at m boot_block (inode_at boot_block n) (i / block_size)
  current_lem m block i loaded = ground (arith, loaded)

  Loaded-next :
      (m : Mem) (i : ℕ)
      → Loaded m boot_block n
          (data_block_at m boot_block (inode_at boot_block n) (i / block_size))
          (i + 1)
  Loaded-next m i inside = ap (data_block_at m boot_block (inode_at boot_block n)) (omega arith)

  read_loop_step :
      (k : ℕ) (m : Mem) (block i : ℕ)
      → Loaded m boot_block n block i
      → read_loop (suc k) m boot_block (inode_at boot_block n) block offset buf i
        ≡ read_loop k
            (write m (buf + (i - offset)) (file_byte m boot_block n i))
            boot_block
            (inode_at boot_block n)
            (data_block_at m boot_block (inode_at boot_block n) (i / block_size))
            offset
            buf
            (i + 1)
  unfolding read_loop file_byte
  read_loop_step k m block i loaded = rw (current_lem m block i loaded)

  read_loop_zero :
      (m : Mem) (block i x : ℕ)
      → read_loop 0 m boot_block (inode_at boot_block n) block offset buf i x ≡ m x
  unfolding read_loop
  read_loop_zero m block i x = refl

  read_loop_lem :
      (k : ℕ) (m : Mem) (block i x : ℕ)
      → HasFile m boot_block size n
      → Loaded m boot_block n block i
      → offset ≤ i
      → i + k ≤ inode_length m (inode_at boot_block n)
      → (boot_block + size ≤ buf + (i - offset)) ⊎ (buf + (i - offset) + k ≤ boot_block)
      → read_loop k m boot_block (inode_at boot_block n) block offset buf i x ≡ (
          if leb (buf + (i - offset)) x && ltb x (buf + (i - offset) + k)
          then file_byte m boot_block n (offset + (x - buf))
          else m x)
  read_loop_lem zero m block i x file loaded le fits apart =
      read_loop_zero m block i x ∙ ground arith
  read_loop_lem (suc k) m block i x file loaded le fits apart =
      let a = buf + (i - offset) in
      let m' = write m a (file_byte m boot_block n i) in
      let out : Beside boot_block size a = omega arith in
      let block' = data_block_at m boot_block (inode_at boot_block n) (i / block_size) in
      let same = data_block_at-write file (file_byte m boot_block n i) out ((i + 1) / block_size) in
      let loaded' : Loaded m' boot_block n block' (i + 1) =
        λ inside. Loaded-next m i inside ∙ sym (same (omega (arith, file.short))) in
      let fits' : i + 1 + k ≤ inode_length m' (inode_at boot_block n) =
        rw (inode_length-write file (file_byte m boot_block n i) out) (omega arith) in
      let rest =
        read_loop_lem k m' block' (i + 1) x (HasFile-write file (file_byte m boot_block n i) out)
          loaded' (omega arith) fits' (omega arith) in
      rw (read_loop_step k m block i loaded, rest)
        (ground (arith, file_byte-write file (file_byte m boot_block n i) out (offset + (x - buf))))

-- The bytes that `read_data` reads: those asked for that the file has.
abbrev pub available : Mem → ℕ → ℕ → ℕ → ℕ → ℕ
available m boot_block n offset length =
    min length (inode_length m (inode_at boot_block n) - offset)

module _ {m : Mem} {boot_block size n : ℕ} (file : HasFile m boot_block size n)
    (offset buf length : ℕ) (le : offset ≤ inode_length m (inode_at boot_block n))
    (short : length < 2 ^ 31) where
  abbrev count : ℕ
  count = available m boot_block n offset length

  count_read :
      (offset
            + (if ltb (inode_length m (inode_at boot_block n)) ((offset + length) % 2 ^ 32)
                then inode_length m (inode_at boot_block n) - offset
                else length))
          % 2 ^ 32
        - offset
      ≡ count
  count_read = ground (arith, file.short)

  num_bytes_read :
      (if ltb (inode_length m (inode_at boot_block n)) ((offset + length) % 2 ^ 32)
        then inode_length m (inode_at boot_block n) - offset
        else length)
      ≡ count
  num_bytes_read = ground (arith, file.short)

  read_data_run :
      buf ≢ 0
      → read_data m boot_block n offset buf length ≡ (
        pos count,
        read_loop count m boot_block
            (inode_at boot_block n)
            (data_block_at m boot_block (inode_at boot_block n) (offset / block_size))
            offset
            buf
            offset,
      )
  unfolding read_data
  read_data_run nonnull =
      let small : ltb count (2 ^ 31) ≡ true = ground arith in
      let listed : leb (num_inodes m boot_block) n ≡ false = ground (arith, file.listed) in
      let within : ltb (inode_length m (inode_at boot_block n)) offset ≡ false = ground arith in
      let given : (buf == 0) ≡ false = ground arith in
      rw (listed, within, given) (rw (count_read, num_bytes_read) (rw small))

-- `read_data` of a file in use, from an offset within its length, of fewer than 2^31 bytes, into a
-- buffer that is not NULL and beside the image: it returns the number of bytes that are asked for and
-- there, stores those bytes of the file and nothing else.
pub read_data_lem :
    (m : Mem) (boot_block size n offset buf length : ℕ)
    → HasFile m boot_block size n
    → offset ≤ inode_length m (inode_at boot_block n)
    → length < 2 ^ 31
    → buf ≢ 0
    → (boot_block + size ≤ buf) ⊎ (buf + length ≤ boot_block)
    → let count = available m boot_block n offset length in
      ((read_data m boot_block n offset buf length).0 ≡ pos count)
      × ((x : ℕ)
          → (read_data m boot_block n offset buf length).1 x ≡ (
              if leb buf x && ltb x (buf + count)
              then file_byte m boot_block n (offset + (x - buf))
              else m x))
read_data_lem m boot_block size n offset buf length file le short nonnull apart =
    let block = data_block_at m boot_block (inode_at boot_block n) (offset / block_size) in
    let run = read_data_run file offset buf length le short nonnull in
    let count = available m boot_block n offset length in
    (
      ap (λ r. r.0) run,
      λ x.
          ap (λ r. r.1 x) run
          ∙ read_loop_lem boot_block size n offset buf count m block offset x file (λ _. refl)
              (omega arith) (omega arith) (omega arith)
          ∙ ground arith,
    )

-- `read_data` fails, and stores nothing, whenever the inode is not one of the image, the offset
-- lies behind the end of the file, or the buffer is NULL.
pub read_data_fails :
    (m : Mem) (boot_block n offset buf length : ℕ)
    → (num_inodes m boot_block ≤ n) ⊎ (inode_length m (inode_at boot_block n) < offset) ⊎ (buf ≡ 0)
    → read_data m boot_block n offset buf length ≡ (failure, m)
unfolding read_data
read_data_fails m boot_block n offset buf length bad = ground arith
