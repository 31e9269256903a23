-- ===== src/Entry/Segments.antt =====
-- Segment descriptors: `seg_desc_t` and its macros of student-distrib/x86_desc.h, and the two
-- descriptors that `entry` of student-distrib/kernel.c builds.
use Prim.Native.Nat.{bit_and}
use ece391_mp.Base.{ℕ, ◌+◌, ◌*◌, ◌/◌, ◌%◌, ◌^◌}

pub record SegDesc : Type 0 where
  pub seg_lim_15_00 : ℕ
  pub base_15_00 : ℕ
  pub base_23_16 : ℕ
  pub type : ℕ
  pub sys : ℕ
  pub dpl : ℕ
  pub present : ℕ
  pub seg_lim_19_16 : ℕ
  pub avail : ℕ
  pub reserved : ℕ
  pub opsize : ℕ
  pub granularity : ℕ
  pub base_31_24 : ℕ

-- The two words of the packed structure, which are `val` of the union.
abbrev pub low_word : SegDesc → ℕ
low_word d = d.seg_lim_15_00 + 2 ^ 16 * d.base_15_00

abbrev pub high_word : SegDesc → ℕ
high_word d =
    d.base_23_16
    + 2 ^ 8 * d.type
    + 2 ^ 12 * d.sys
    + 2 ^ 13 * d.dpl
    + 2 ^ 15 * d.present
    + 2 ^ 16 * d.seg_lim_19_16
    + 2 ^ 20 * d.avail
    + 2 ^ 21 * d.reserved
    + 2 ^ 22 * d.opsize
    + 2 ^ 23 * d.granularity
    + 2 ^ 24 * d.base_31_24

-- `SET_LDT_PARAMS` and `SET_TSS_PARAMS`.
unfoldable pub set_ldt_params : ℕ → ℕ → SegDesc → SegDesc
set_ldt_params addr lim d = record d {
  base_31_24 = addr / 2 ^ 24 % 2 ^ 8;
  base_23_16 = addr / 2 ^ 16 % 2 ^ 8;
  base_15_00 = addr % 2 ^ 16;
  seg_lim_19_16 = lim / 2 ^ 16 % 2 ^ 4;
  seg_lim_15_00 = lim % 2 ^ 16;
}

unfoldable pub set_tss_params : ℕ → ℕ → SegDesc → SegDesc
set_tss_params addr lim d = record d {
  base_31_24 = addr / 2 ^ 24 % 2 ^ 8;
  base_23_16 = addr / 2 ^ 16 % 2 ^ 8;
  base_15_00 = addr % 2 ^ 16;
  seg_lim_19_16 = lim / 2 ^ 16 % 2 ^ 4;
  seg_lim_15_00 = lim % 2 ^ 16;
}

abbrev pub tss_size : ℕ
tss_size = 104

-- `the_ldt_desc`; the macro sets the fields that are 0 here.
unfoldable pub the_ldt_desc : ℕ → ℕ → SegDesc
unfolding set_ldt_params
the_ldt_desc addr lim = set_ldt_params addr lim (record {
  seg_lim_15_00 = 0;
  base_15_00 = 0;
  base_23_16 = 0;
  type = 0x2;
  sys = 0x0;
  dpl = 0x0;
  present = 0x1;
  seg_lim_19_16 = 0;
  avail = 0x0;
  reserved = 0x0;
  opsize = 0x1;
  granularity = 0x0;
  base_31_24 = 0;
})

-- `the_tss_desc`, with the limit of `TSS_SIZE` that the macro sets again.
unfoldable pub the_tss_desc : ℕ → ℕ → SegDesc
unfolding set_tss_params
the_tss_desc addr lim = set_tss_params addr lim (record {
  seg_lim_15_00 = bit_and tss_size 0x0000FFFF;
  base_15_00 = 0;
  base_23_16 = 0;
  type = 0x9;
  sys = 0x0;
  dpl = 0x0;
  present = 0x1;
  seg_lim_19_16 = bit_and tss_size 0x000F0000 % 2 ^ 4;
  avail = 0x0;
  reserved = 0x0;
  opsize = 0x0;
  granularity = 0x0;
  base_31_24 = 0;
})

-- What the processor takes the words `low` and `high` of a descriptor for.
abbrev pub base_of : ℕ → ℕ → ℕ
base_of low high = low / 2 ^ 16 + 2 ^ 16 * (high % 2 ^ 8) + 2 ^ 24 * (high / 2 ^ 24)

abbrev pub limit_of : ℕ → ℕ → ℕ
limit_of low high = low % 2 ^ 16 + 2 ^ 16 * (high / 2 ^ 16 % 2 ^ 4)

-- The 8 bits from 8 on: the present bit, the privilege level, the system bit and the type.
abbrev pub access_of : ℕ → ℕ
access_of high = high / 2 ^ 8 % 2 ^ 8
