-- ===== src/FileSystem/Image.antt =====
-- The files of an image: what of it `read_data` relies on, and that writes beside the image keep it.
use ece391_mp.Base.{ℕ, ◌+◌, ◌*◌, ◌/◌, ◌%◌, ◌<◌, ◌≤◌, ◌≡◌, ◌⊎◌, arith}
use ece391_mp.Base.Mem.{Mem, write, load32}
use ece391_mp.FileSystem.{num_inodes, inode_at, inode_length, data_block_at, block_size}

-- Inode `i` of the image of `size` bytes at `boot_block` is in use: its block and the data blocks of
-- its bytes lie in the image, and it has no more bytes than its block numbers reach.
pub record HasFile (m : Mem) (boot_block size i : ℕ) : Type 0 where
  pub listed : i < num_inodes m boot_block
  pub short : inode_length m (inode_at boot_block i) ≤ 1023 * block_size
  pub inode_in : block_size * (i + 2) ≤ size
  pub data_in :
      (k : ℕ)
      → k < inode_length m (inode_at boot_block i)
      → data_block_at m boot_block (inode_at boot_block i) (k / block_size) + block_size
        ≤ boot_block + size

-- Byte `k` of the file with inode `i`.
unfoldable pub file_byte : Mem → ℕ → ℕ → ℕ → ℕ
file_byte m boot_block i k =
    m (data_block_at m boot_block (inode_at boot_block i) (k / block_size) + k % block_size)

abbrev pub Beside : ℕ → ℕ → ℕ → Type 0
Beside boot_block size a = (a < boot_block) ⊎ (boot_block + size ≤ a)

load32-write : (m : Mem) (a v p : ℕ) → (a < p) ⊎ (p + 4 ≤ a) → load32 (write m a v) p ≡ load32 m p
unfolding load32
load32-write m a v p out = ground arith

data_block_at-ge :
    (m : Mem) (boot_block inode k : ℕ) → boot_block ≤ data_block_at m boot_block inode k
unfolding data_block_at
data_block_at-ge m boot_block inode k = omega arith

module _ {m : Mem} {boot_block size i : ℕ} (file : HasFile m boot_block size i) {a : ℕ} (v : ℕ)
    (out : Beside boot_block size a) where
  num_inodes-write : num_inodes (write m a v) boot_block ≡ num_inodes m boot_block
  unfolding num_inodes
  num_inodes-write = load32-write m a v (boot_block + 4) (omega (arith, file.inode_in))

  pub inode_length-write :
      inode_length (write m a v) (inode_at boot_block i) ≡ inode_length m (inode_at boot_block i)
  unfolding inode_length
  inode_length-write = load32-write m a v (inode_at boot_block i) (omega (arith, file.inode_in))

  pub data_block_at-write :
      (k : ℕ)
      → k < 1023
      → data_block_at (write m a v) boot_block (inode_at boot_block i) k
        ≡ data_block_at m boot_block (inode_at boot_block i) k
  unfolding data_block_at
  data_block_at-write k lt = rw (
    num_inodes-write,
    load32-write m a v (inode_at boot_block i + 4 + 4 * k) (omega (arith, file.inode_in)),
  )

  pub file_byte-write :
      (k : ℕ)
      → k < inode_length m (inode_at boot_block i)
      → file_byte (write m a v) boot_block i k ≡ file_byte m boot_block i k
  unfolding file_byte
  file_byte-write k lt = rw (data_block_at-write (k / block_size) (omega (arith, file.short))) (
      ground (
        arith,
        file.data_in k lt,
        data_block_at-ge m boot_block (inode_at boot_block i) (k / block_size),
      ))

  pub HasFile-write : HasFile (write m a v) boot_block size i
  HasFile-write = record {
    listed = rw num_inodes-write file.listed;
    short = rw inode_length-write file.short;
    inode_in = file.inode_in;
    data_in = λ k lt.
        let lt' = rw inode_length-write at lt in
        rw (data_block_at-write (k / block_size) (omega (arith, file.short))) (file.data_in k lt');
  }

-- The length of a file is read in its inode alone.
pub inode_length-same :
    (m m' : Mem) (boot_block size i : ℕ)
    → block_size * (i + 2) ≤ size
    → ((x : ℕ) → boot_block ≤ x → x < boot_block + size → m' x ≡ m x)
    → inode_length m' (inode_at boot_block i) ≡ inode_length m (inode_at boot_block i)
unfolding inode_length load32
inode_length-same m m' boot_block size i inside same =
    let p = inode_at boot_block i in
    ground (arith, same p, same (p + 1), same (p + 2), same (p + 3))
