-- ===== src/FileSystem/Tests.antt =====
-- An image at 0x1000 with one file, "a", whose bytes are "xyz".
use ece391_mp.Base.{
  ℕ, min, ◌+◌, ◌-◌, ◌<◌, ◌≤◌, ◌≡◌, ◌⊎◌, inl, refl, arith, ◌==◌, if◌then◌else◌, some, leb, ltb, ◌&&◌,
}
use ece391_mp.Base.Int.{pos}
use ece391_mp.Base.Mem.{Mem, load32}
use ece391_mp.Str.{scan_limit}
use ece391_mp.Str.Length.{IsStr}
use ece391_mp.FileSystem.{
  Lookup, read_dentry_by_name, num_dentries, dentry_at, read_data, file_read, load_program,
  dir_read, inode_at, success, inode_length, num_inodes, data_block_at, name_size, found,
}
use ece391_mp.FileSystem.Image.{HasFile, file_byte}
use ece391_mp.FileSystem.Read.{available, read_data_lem}
use ece391_mp.FileSystem.Find.{NamesEnd, Outcome, read_dentry_by_name_lem}
use ece391_mp.FileSystem.Files.{file_read_lem, load_program_lem, dir_read_lem}

-- The name "a" that is looked up stands at 0x100.
abbrev image : Mem
image a =
    if a == 0x100
    then b'a'
    else if a == 0x1000
    then 1
    else if a == 0x1004
    then 1
    else if a == 0x1008
    then 1
    else if a == 0x1040
    then b'a'
    else if a == 0x1060
    then 2
    else if a == 0x2000
    then 3
    else if a == 0x3000
    then b'x'
    else if a == 0x3001
    then b'y'
    else if a == 0x3002
    then b'z'
    else 0

image-HasFile : HasFile image 0x1000 0x3000 0
unfolding num_inodes inode_length data_block_at load32
image-HasFile = record {
  listed = omega arith;
  short = omega arith;
  inode_in = omega arith;
  data_in = λ k lt. ground arith;
}

name-IsStr : IsStr image 0x100 1
unfolding scan_limit
name-IsStr = record { nonzero = λ i lt. ground arith; nul = refl; small = omega arith }

entry-IsStr :
    (i : ℕ) → i < num_dentries → IsStr image (dentry_at 0x1000 i) (if i == 0 then 1 else 0)
unfolding scan_limit
entry-IsStr i lt = record {
  nonzero = λ j below. ground arith;
  nul = ground arith;
  small = ground arith;
}

image-NamesEnd : NamesEnd image 0x1000
image-NamesEnd i lt = ((if i == 0 then 1 else 0), entry-IsStr i lt)

lookup_runs : read_dentry_by_name image 0x1000 0x100 1 ≡ some (found 0x1040)
unfolding read_dentry_by_name ece391_mp.Str.strlen ece391_mp.Str.strncmp
lookup_runs = refl

read_dentry_by_name_lem_example :
    (r : Lookup) × (read_dentry_by_name image 0x1000 0x100 1 ≡ some r)
    × Outcome image 0x1000 0x100 0 num_dentries r
read_dentry_by_name_lem_example =
    read_dentry_by_name_lem (λ a. ground arith) name-IsStr 0x1000 1 image-NamesEnd (omega arith)
      (omega arith)

read_data_lem_example :
    let count = available image 0x1000 0 1 10 in
    ((read_data image 0x1000 0 1 0x8000 10).0 ≡ pos count)
    × ((x : ℕ)
        → (read_data image 0x1000 0 1 0x8000 10).1 x ≡ (
            if leb 0x8000 x && ltb x (0x8000 + count)
            then file_byte image 0x1000 0 (1 + (x - 0x8000))
            else image x))
unfolding inode_length load32
read_data_lem_example =
    read_data_lem image 0x1000 0x3000 0 1 0x8000 10 image-HasFile (omega arith) (omega arith)
      (omega arith) (inl (omega arith))

file_read_lem_example :
    let count = available image 0x1000 0 0 2 in
    ((file_read image 0x1000 0 0x8000 2 0).0 ≡ pos count)
    × ((c : ℕ) × (c ≤ name_size)
        × ((c ≡ name_size) ⊎ (image (0x8000 + c) ≡ 0))
        × ((x : ℕ)
            → (file_read image 0x1000 0 0x8000 2 0).1 x ≡ (
                if leb 0x8000 x && ltb x (0x8000 + count)
                then file_byte image 0x1000 0 (0 + (x - 0x8000))
                else if leb 0x8000 x && ltb x (0x8000 + c)
                then 0
                else image x)))
unfolding inode_length load32
file_read_lem_example =
    file_read_lem image 0x1000 0x3000 0 0 0x8000 2 image-HasFile (omega arith) (omega arith)
      (omega arith) (inl (omega arith))

load_program_lem_example :
    ((load_program image 0x1000 0 0x8000).0 ≡ success)
    × ((k : ℕ)
        → k < inode_length image (inode_at 0x1000 0)
        → (load_program image 0x1000 0 0x8000).1 (0x8000 + k) ≡ file_byte image 0x1000 0 k)
unfolding inode_length load32
load_program_lem_example =
    load_program_lem image 0x1000 0x3000 0 0x8000 image-HasFile (omega arith) (inl (omega arith))

dir_read_lem_example :
    (m' : Mem) × (dir_read image 0x1000 2 0x8000 32 0 ≡ some (pos (min 32 1), m'))
    × ((k : ℕ) → k < min 32 1 → m' (0x8000 + k) ≡ image (dentry_at 0x1000 0 + k))
dir_read_lem_example =
    dir_read_lem image 0x1000 0 2 0x8000 32 1 (omega arith) (entry-IsStr 0 (omega arith))
      (omega arith) (inl (omega arith))
