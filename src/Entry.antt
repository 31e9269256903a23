-- ===== src/Entry.antt =====
-- student-distrib/kernel.c: `entry`, what the kernel does between the boot loader and the first
-- shells.
pub mod Segments
pub mod Info
pub mod Keeps
pub mod Start
pub mod Devices
mod Tests
use Prim.Native.String.{String}
use ece391_mp.Base.{ℕ, Bool, true, false, Option, none, some, ◌∷◌, [], ◌==◌, if◌then◌else◌}
use ece391_mp.Base.Act.{Act, ◌>>=◌, ◌>>◌, return}
use ece391_mp.Base.Int.{ℤ}
use ece391_mp.Pic.{Ports, sti, init}
use ece391_mp.Screen.{clear}
use ece391_mp.Rtc.{initialize_rtc}
use ece391_mp.Scheduler.{initialize_pit}
use ece391_mp.Keyboard.{kbrd_init}
use ece391_mp.Paging.{init_paging}
use ece391_mp.Kernel.{Kernel, clock_of, with_clock}
use ece391_mp.Process.{Frame, Outcome}
use ece391_mp.Process.Halt.{execute_shells}
use ece391_mp.Entry.Segments.{SegDesc, the_ldt_desc, the_tss_desc}
use ece391_mp.Entry.Info.{print, print_info}

abbrev pub multiboot_bootloader_magic : ℕ
multiboot_bootloader_magic = 0x2BADB002

abbrev pub kernel_ds : ℕ
kernel_ds = 0x0018

abbrev pub kernel_tss : ℕ
kernel_tss = 0x0030

abbrev pub kernel_ldt : ℕ
kernel_ldt = 0x0038

-- What the assembly and the linker give: the addresses and the sizes of the LDT and the TSS, and the
-- addresses of the two page tables; and what the clock returns for its registers A and B.
pub record Given : Type 0 where
  pub ldt : ℕ
  pub ldt_size : ℕ
  pub tss : ℕ
  pub tss_size : ℕ
  pub vid_page_table_at : ℕ
  pub user_vid_page_table_at : ℕ
  pub in_a : ℕ
  pub in_b : ℕ

-- The entries of the GDT, the fields of the TSS but `esp0`, and the registers of `lldt` and `ltr`.
pub record Loaded : Type 0 where
  pub ldt_desc_ptr : SegDesc
  pub tss_desc_ptr : SegDesc
  pub ldt_segment_selector : ℕ
  pub ss0 : ℕ
  pub ldt_register : ℕ
  pub task_register : ℕ

unfoldable pub load_segments : Given → Loaded
unfolding the_ldt_desc the_tss_desc
load_segments g = record {
  ldt_desc_ptr = the_ldt_desc g.ldt g.ldt_size;
  tss_desc_ptr = the_tss_desc g.tss g.tss_size;
  ldt_segment_selector = kernel_ldt;
  ss0 = kernel_ds;
  ldt_register = kernel_ldt;
  task_register = kernel_tss;
}

abbrev pub clear_screen : Act Kernel ℕ
clear_screen k =
    some (0, record k { keyboard = record (k.keyboard) { screen = clear k.keyboard.screen } })

abbrev pub on_ports : (Ports → Ports) → Act Kernel ℕ
on_ports f k = some (0, record k { keyboard = record (k.keyboard) { ports = f k.keyboard.ports } })

-- `tss.esp0 = 0x800000`
abbrev pub set_stack : Act Kernel ℕ
set_stack k = some (0, record k { scheduler = record (k.scheduler) { tss_esp0 = 0x800000 } })

abbrev pub start_clock : Given → Act Kernel ℕ
start_clock g k = elim (initialize_rtc g.in_a g.in_b (clock_of k)) [
  | none ↦ none
  | some s ↦ some (0, with_clock s k)
]

abbrev pub start_keyboard : Act Kernel ℕ
start_keyboard k = some (0, record k { keyboard = kbrd_init k.kbrd_buf k.keyboard })

abbrev pub start_paging : Given → Act Kernel ℕ
start_paging g k =
    let s = k.scheduler in
    let tables = init_paging g.vid_page_table_at g.user_vid_page_table_at s.tables in
    some (0, record k { scheduler = record s { tables = tables } })

-- The initialisers, in the order of `entry`.
unfoldable pub start_devices : Given → Act Kernel ℕ
start_devices g = do
  set_stack
  on_ports init
  start_clock g
  on_ports initialize_pit
  start_keyboard
  start_paging g

-- How `entry` ends: it returns to the assembly, or it has called `execute_shells`, with its outcome.
-- Behind a return of that the kernel runs its tests and halts.
pub data Booted : Type 0 where
  refused : Kernel → Booted
  started : Loaded → Outcome → Booted

module _ (text : String → ℕ) (conv_buf : ℕ) (f : Frame) (g : Given) where
  -- The part behind the multiboot information.
  unfoldable pub start : Kernel → Option Booted
  unfolding start_devices load_segments
  start k =
      let ready =
        start_devices g >> print text conv_buf "Enabling Interrupts\n" [] >> on_ports sti in
      elim (ready k) [
        | none ↦ none
        | some (r, k') ↦ elim (execute_shells f k') [
          | none ↦ none
          | some o ↦ some (started (load_segments g) o)
        ]
      ]

  unfoldable pub entry : ℕ → ℕ → Kernel → Option Booted
  unfolding start
  entry magic addr k =
      let refuse = print text conv_buf "Invalid magic number: 0x%#x\n" (magic ∷ []) in
      if magic == multiboot_bootloader_magic
      then elim ((clear_screen >> print_info text conv_buf addr) k) [
        | none ↦ none
        | some (true, k') ↦ start k'
        | some (false, k') ↦ some (refused k')
      ]
      else elim ((clear_screen >> refuse) k) [ none ↦ none | some (r, k') ↦ some (refused k') ]
