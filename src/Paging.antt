-- ===== src/Paging.antt =====
-- student-distrib/paging.c: the page directory and the two page tables. A table is a function from
-- the index to the entry; the addresses at which the linker puts the two page tables are parameters.
-- The control registers (cr0, cr3, cr4) and the TLB are not modelled.
pub mod Frames
mod Tests
use Prim.Native.Nat.{bit_or, bit_xor}
use ece391_mp.Base.{
  ℕ, zero, suc, ◌+◌, ◌-◌, ◌*◌, ◌/◌, ◌%◌, ◌^◌, true, false, not, ◌==◌, if◌then◌else◌,
}

abbrev pub Table : Type 0
Table = ℕ → ℕ

-- `t[i] = v`
abbrev pub store : Table → ℕ → ℕ → Table
store t i v j = if j == i then v else t j

pub record Tables : Type 0 where
  pub page_directory : Table
  pub vid_page_table : Table
  pub user_vid_page_table : Table

abbrev pub table_size : ℕ
table_size = 0x400

abbrev pub page_size : ℕ
page_size = 0x1000

abbrev pub video_loc : ℕ
video_loc = 0xB8000

abbrev pub kernel_loc : ℕ
kernel_loc = 0x400000

abbrev pub pde_p : ℕ
pde_p = 0x1

abbrev pub pde_rw : ℕ
pde_rw = 0x2

abbrev pub pde_us : ℕ
pde_us = 0x4

abbrev pub pde_ps : ℕ
pde_ps = 0x80

-- `PTE_RW | PTE_P`
abbrev pub default_pte : ℕ
default_pte = 3

abbrev pub user_process_index : ℕ
user_process_index = 32

abbrev pub user_vid_pt_index : ℕ
user_vid_pt_index = 33

-- `PROCESS_LOC(n)` and `TERM_VIDEO_LOC(n)`
abbrev pub process_loc : ℕ → ℕ
process_loc n = (n + 2) * page_size * table_size

abbrev pub term_video_loc : ℕ → ℕ
term_video_loc n = (n + 1) * page_size + video_loc

-- The first loop, from index `i` on.
pub fill_vid_page_table : ℕ → ℕ → Table → Table
fill_vid_page_table zero i t = t
fill_vid_page_table (suc k) i t = fill_vid_page_table k (i + 1) (
    store t i (
      if not (i == 0) then bit_or (i * 2 ^ 12) default_pte % 2 ^ 32 else bit_xor default_pte pde_p))

-- The second loop, from index `i` on.
pub fill_page_directory : ℕ → ℕ → Table → Table
fill_page_directory zero i t = t
fill_page_directory (suc k) i t =
    fill_page_directory k (i + 1) (store t i (bit_or (bit_or (i * 2 ^ 22 % 2 ^ 32) pde_ps) pde_rw))

unfoldable pub init_paging : ℕ → ℕ → Tables → Tables
init_paging vid_page_table_at user_vid_page_table_at s =
    let vid = fill_vid_page_table table_size 0 s.vid_page_table in
    let user_vid = store s.user_vid_page_table 0 (bit_or (bit_or video_loc pde_us) default_pte) in
    let low = store s.page_directory 0 (bit_or (bit_or vid_page_table_at pde_rw) pde_p) in
    let kernel = store low 1 (bit_or (bit_or kernel_loc pde_ps) default_pte) in
    let rest = fill_page_directory (table_size - 2) 2 kernel in
    record {
      page_directory =
          store rest user_vid_pt_index
            (bit_or (bit_or (bit_or user_vid_page_table_at pde_us) pde_rw) pde_p);
      vid_page_table = vid;
      user_vid_page_table = user_vid;
    }

-- For `pid` at least 0; the flush of the TLB has no state here.
unfoldable pub change_process : ℕ → Tables → Tables
change_process pid s = record s {
  page_directory =
      store s.page_directory user_process_index
        (bit_or (bit_or (bit_or (bit_or (process_loc pid % 2 ^ 32) pde_ps) pde_us) pde_rw) pde_p);
}

unfoldable pub change_vidmap : ℕ → Tables → Tables
change_vidmap terminal s = record s {
  vid_page_table =
      store s.vid_page_table (video_loc / page_size)
        (bit_or (term_video_loc terminal % 2 ^ 32) default_pte);
}
