-- ===== src/Descriptors/Tests.antt =====
-- Calls of process 0 of the sample kernel, whose descriptor 2 is the file "shell".
use ece391_mp.Base.{ℕ, ◌≡◌, ◌≢◌, ◌⊎◌, inl, refl, arith, some}
use ece391_mp.Base.Int.{pos}
use ece391_mp.Base.Mem.{load32}
use ece391_mp.Str.{strlen, strncmp}
use ece391_mp.FileSystem.{
  found, file_type, num_inodes, inode_length, data_block_at, read_dentry_by_name,
}
use ece391_mp.FileSystem.Image.{HasFile}
use ece391_mp.FileSystem.Read.{available}
use ece391_mp.Kernel.{Kernel, file, mem_of, user, physical}
use ece391_mp.Kernel.Sample.{sample}
use ece391_mp.Descriptors.{max_open_files, set_fd, file_table, sys_open, sys_close}
use ece391_mp.Descriptors.Opening.{opened}
use ece391_mp.Descriptors.Stream.{IsFile, Delivered, Reads, sys_read_file, sys_read_closed}
use ece391_mp.Descriptors.Open.{FirstFree, sys_open_lem, open_close}

abbrev closed_kernel : Kernel
closed_kernel = (sys_close 0 (pos 2) sample).1

sample-HasFile : HasFile (mem_of sample) 0x500000 0x3000 0
unfolding num_inodes inode_length data_block_at load32
sample-HasFile = record {
  listed = omega arith;
  short = omega arith;
  inode_in = omega arith;
  data_in = λ k lt. ground arith;
}

sample-IsFile : IsFile sample 0x3000 (sample.file_array 0 2) 0
sample-IsFile = record {
  driver = refl;
  typed = λ e. cc;
  at = refl;
  used = sample-HasFile;
  within = omega arith;
}

sys_read_file_example : Delivered 0 2 0x08050000 3 0 sample (sample.file_array 0 2)
unfolding physical
sys_read_file_example =
    sys_read_file sample-IsFile (omega arith) (omega arith) (ground arith) (ground arith)
      (inl (omega arith))

sys_read_closed_example :
    Reads 0 2 0x08050000 3 sample closed_kernel (available (mem_of sample) 0x500000 0 0 3)
unfolding physical inode_length load32
sys_read_closed_example =
    sys_read_closed 0 2 0x08050000 3 sample (omega arith) (ground arith) refl sample-HasFile
      (omega arith) (ground arith) (ground arith) (inl (omega arith)) (ground arith)

sample-found :
    read_dentry_by_name (mem_of sample) 0x500000 (user sample 0x08050000) 1 ≡ some (found 0x500040)
unfolding read_dentry_by_name strlen strncmp physical
sample-found = refl

sample-row : file_table (file_type (mem_of sample) 0x500040) ≡ some file
unfolding file_table file_type load32
sample-row = refl

sample-FirstFree : FirstFree (sample.file_array 0) 0 max_open_files 3
sample-FirstFree = record {
  from = omega arith;
  below = omega arith;
  free = refl;
  first = λ l low high. ground arith;
}

sys_open_lem_example :
    sys_open 0 0x08050000 sample ≡ some (pos 3, set_fd 0 3 (opened file 0x500040 sample) sample)
sys_open_lem_example =
    sys_open_lem 0 0x08050000 sample (ground arith) sample-found sample-row sample-FirstFree

open_close_example :
    (k1 : Kernel) × (k2 : Kernel) × (sys_open 0 0x08050000 sample ≡ some (pos 3, k1))
    × (sys_close 0 (pos 3) k1 ≡ (pos 0, k2))
    × FirstFree (k2.file_array 0) 0 max_open_files 3
    × ((p i : ℕ) → (p ≢ 0) ⊎ (i ≢ 3) → k2.file_array p i ≡ sample.file_array p i)
open_close_example =
    open_close 0 0x08050000 sample (ground arith) sample-found sample-row sample-FirstFree
