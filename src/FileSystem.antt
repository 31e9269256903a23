-- ===== src/FileSystem.antt =====
-- student-distrib/file_system.c: the read-only file system image, read in place through the pointer
-- `boot_block`. Blocks have 4096 bytes: the boot block with 63 directory entries of 64 bytes, then
-- the inodes, then the data blocks. A `dentry_t` that a function copies out is named by the address
-- of its bytes in the image. `none` is a `strlen` that finds no NUL.
pub mod Image
pub mod Read
pub mod Find
pub mod Files
mod Tests
use ece391_mp.Base.{
  ℕ, zero, suc, ◌+◌, ◌-◌, ◌*◌, ◌/◌, ◌%◌, ◌^◌, true, false, not, Bool, Option, none, some, ◌==◌, ltb,
  leb, ◌||◌, if◌then◌else◌,
}
use ece391_mp.Base.Int.{ℤ, pos, negsuc, eqb_ℤ, signed32}
use ece391_mp.Base.Mem.{Mem, write, load32}
use ece391_mp.Str.{strlen, strncmp, strncpy}

abbrev pub name_size : ℕ
name_size = 32

abbrev pub block_size : ℕ
block_size = 4096

abbrev pub num_dentries : ℕ
num_dentries = 63

abbrev pub success : ℤ
success = pos 0

abbrev pub failure : ℤ
failure = negsuc 0

-- `boot_block_t`, `dentry_t` and `inode_t`: the addresses of their fields.
abbrev pub dentry_at : ℕ → ℕ → ℕ
dentry_at boot_block i = boot_block + 64 + 64 * i

unfoldable pub file_type : Mem → ℕ → ℕ
file_type m dentry = load32 m (dentry + 32)

unfoldable pub inode_num : Mem → ℕ → ℕ
inode_num m dentry = load32 m (dentry + 36)

unfoldable pub num_inodes : Mem → ℕ → ℕ
num_inodes m boot_block = load32 m (boot_block + 4)

abbrev pub inode_at : ℕ → ℕ → ℕ
inode_at boot_block i = boot_block + block_size * (i + 1)

unfoldable pub inode_length : Mem → ℕ → ℕ
inode_length m inode = load32 m inode

-- `(data_block_t*)boot_block + (boot_block->num_inodes+1 + inode->data_block[k])`
unfoldable pub data_block_at : Mem → ℕ → ℕ → ℕ → ℕ
data_block_at m boot_block inode k =
    boot_block + block_size * (num_inodes m boot_block + 1 + load32 m (inode + 4 + 4 * k))

-- The return value, and the new value of `boot_block`.
unfoldable pub init_file_system : Mem → ℕ → ℕ → ℤ × ℕ
init_file_system m boot_block file_system_begin =
    if ltb num_dentries (load32 m file_system_begin)
    then (failure, boot_block)
    else (success, file_system_begin)

-- What a lookup returns: SUCCESS with the entry that it copies to `*dentry`, or FAILURE.
pub data Lookup : Type 0 where
  found : ℕ → Lookup
  missing : Lookup

-- The update of `num_bits` at the head of a round.
unfoldable pub next_bits : Mem → ℕ → ℕ → Option ℕ
next_bits m name num_bits = if num_bits == name_size then some num_bits else elim (strlen m name) [
  | none ↦ none
  | some len ↦ some (if ltb num_bits len then len else num_bits)
]

-- The loop of `read_dentry_by_name`, with `NUM_DENTRIES - i` rounds left.
unfoldable pub find_dentry : ℕ → Mem → ℕ → ℕ → ℕ → ℕ → Option Lookup
find_dentry zero m boot_block fname num_bits i = some missing
find_dentry (suc k) m boot_block fname num_bits i =
    elim (next_bits m (dentry_at boot_block i) num_bits) [
      | none ↦ none
      | some bits ↦ elim (eqb_ℤ (strncmp m fname (dentry_at boot_block i) bits) (pos 0)) [
        | true ↦ some (found (dentry_at boot_block i))
        | false ↦ find_dentry k m boot_block fname bits (i + 1)
      ]
    ]

-- `dentry` is only tested against NULL.
unfoldable pub read_dentry_by_name : Mem → ℕ → ℕ → ℕ → Option Lookup
unfolding find_dentry next_bits
read_dentry_by_name m boot_block fname dentry =
    if dentry == 0 then some missing else elim (strlen m fname) [
      | none ↦ none
      | some len ↦
          let num_bits = if ltb name_size len then name_size else len in
          let rest = find_dentry num_dentries m boot_block fname num_bits 0 in
          if num_bits == 0 then some missing else rest
    ]

unfoldable pub read_dentry_by_index : ℕ → ℕ → ℕ → Lookup
read_dentry_by_index boot_block index dentry =
    if dentry == 0
    then missing
    else if leb num_dentries index
    then missing
    else found (dentry_at boot_block index)

-- The loop of `read_data` from index `i` on, with the rounds that it has left; `data_block` is the
-- pointer that the loop reloads at each block's first byte.
unfoldable pub read_loop : ℕ → Mem → ℕ → ℕ → ℕ → ℕ → ℕ → ℕ → Mem
read_loop zero m boot_block inode data_block offset buf i = m
read_loop (suc k) m boot_block inode data_block offset buf i =
    let block =
      if i % block_size == 0
      then data_block_at m boot_block inode (i / block_size)
      else data_block in
    read_loop k (write m (buf + (i - offset)) (m (block + i % block_size))) boot_block inode block
      offset buf (i + 1)

-- `offset + length` and `offset + num_bytes` are `uint32_t` sums.
unfoldable pub read_data : Mem → ℕ → ℕ → ℕ → ℕ → ℕ → ℤ × Mem
unfolding read_loop
read_data m boot_block inode_index offset buf length =
    let inode = inode_at boot_block inode_index in
    let size = inode_length m inode in
    let data_block = data_block_at m boot_block inode (offset / block_size) in
    let num_bytes = if ltb size ((offset + length) % 2 ^ 32) then size - offset else length in
    let rounds = (offset + num_bytes) % 2 ^ 32 - offset in
    if leb (num_inodes m boot_block) inode_index
    then (failure, m)
    else if ltb size offset
    then (failure, m)
    else if buf == 0
    then (failure, m)
    else (signed32 num_bytes, read_loop rounds m boot_block inode data_block offset buf offset)

-- `for(i = 0; buf[i] != '\0' && i < NAME_SIZE; i++) buf[i] = '\0'`, with the rounds left.
unfoldable pub clear_loop : ℕ → Mem → ℕ → ℕ → Mem
clear_loop zero m buf i = m
clear_loop (suc k) m buf i = elim (m (buf + i) == 0) [
  | true ↦ m
  | false ↦ clear_loop k (write m (buf + i) 0) buf (i + 1)
]

-- `nbytes` and `fd` reach `read_data` as `uint32_t` bit patterns.
unfoldable pub file_read : Mem → ℕ → ℕ → ℕ → ℕ → ℕ → ℤ × Mem
file_read m boot_block fd buf nbytes offset =
    read_data (clear_loop name_size m buf 0) boot_block fd offset buf nbytes

unfoldable pub file_open : Mem → ℕ → ℕ → Option ℤ
file_open m boot_block filename = elim (read_dentry_by_name m boot_block filename 1) [
  | none ↦ none
  | some missing ↦ some failure
  | some (found e) ↦ some success
]

unfoldable pub file_close : ℕ → ℤ
file_close fd = success

unfoldable pub file_write : ℕ → ℕ → ℕ → ℤ
file_write fd buf nbytes = failure

unfoldable pub dir_open : Mem → ℕ → ℕ → Option ℤ
dir_open m boot_block filename = elim (read_dentry_by_name m boot_block filename 1) [
  | none ↦ none
  | some missing ↦ some failure
  | some (found e) ↦ some success
]

unfoldable pub dir_close : ℕ → ℤ
dir_close fd = success

unfoldable pub dir_write : ℕ → ℕ → ℕ → ℤ
dir_write fd buf nbytes = failure

unfoldable pub dir_read : Mem → ℕ → ℕ → ℕ → ℕ → ℕ → Option (ℤ × Mem)
dir_read m boot_block fd buf nbytes offset =
    let cleared = clear_loop name_size m buf 0 in
    elim (read_dentry_by_index boot_block offset 1) [
      | missing ↦ some (failure, cleared)
      | found e ↦ elim (strlen cleared e) [
        | none ↦ none
        | some len ↦
            let n = if ltb len nbytes then len else nbytes in
            some (signed32 n, strncpy cleared buf e n)
      ]
    ]

-- The test compares the result of `file_read` with the length that the inode has then.
unfoldable pub load_program : Mem → ℕ → ℕ → ℕ → ℤ × Mem
load_program m boot_block fd addr =
    let (count, m') = file_read m boot_block fd addr (inode_length m (inode_at boot_block fd)) 0 in
    (
      if eqb_ℤ count (signed32 (inode_length m' (inode_at boot_block fd)))
          then success
          else negsuc 0,
      m',
    )
