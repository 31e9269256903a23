-- ===== src/Kernel.antt =====
-- The state that the system calls of student-distrib/syscall_handler.c work on: the devices, the page
-- tables, and the process control blocks, by process number.
pub mod Sample
use ece391_mp.Base.{
  ℕ, ◌+◌, ◌-◌, ◌*◌, ◌/◌, ◌%◌, ◌^◌, Bool, List, Option, none, some, ◌==◌, if◌then◌else◌,
}
use ece391_mp.Base.Int.{ℤ, pos, negsuc}
use ece391_mp.Base.Mem.{Mem, write}
use ece391_mp.Pic.{Ports}
use ece391_mp.Screen.{Screen}
use ece391_mp.Rtc.{Rtc}
use ece391_mp.Keyboard.{Keyboard}
use ece391_mp.Paging.{Table, user_process_index}
use ece391_mp.Scheduler.{Scheduler, k_mem_end, k_stack_size}

-- A row of the jump tables: the four functions of a kind of file. `nofunc` is `nofunc_table`,
-- `std_in` and `std_out` are the rows of `std_table`, the others those of `file_table`.
pub data Driver : Type 0 where
  nofunc std_in std_out rtc dir file : Driver

-- `fd_t`
pub record Fd : Type 0 where
  pub fop_jump_table : Driver
  pub inode : ℕ
  pub file_type : ℤ
  pub file_position : ℤ
  pub flags : ℕ

-- The process tables are in `scheduler`; `file_array`, `parent_pid`, `parent_esp` and `parent_ebp`
-- are the other fields of the control blocks. `boot_block`, `kbrd_buf` and `kbrd_read_buf` are
-- addresses. `keys` and `ticks` are the interrupts of the keyboard and of the clock that are still
-- to come, and `register_a` is what the clock returns for its register A.
pub record Kernel : Type 0 where
  pub scheduler : Scheduler
  pub file_array : ℕ → ℕ → Fd
  pub parent_pid : ℕ → ℤ
  pub parent_esp : ℕ → ℕ
  pub parent_ebp : ℕ → ℕ
  pub keyboard : Keyboard
  pub read_flag : Bool
  pub boot_block : ℕ
  pub kbrd_buf : ℕ
  pub kbrd_read_buf : ℕ
  pub keys : List (ℕ × ℕ)
  pub ticks : List Bool
  pub register_a : ℕ

-- The physical memory.
abbrev pub mem_of : Kernel → Mem
mem_of k = k.keyboard.screen.mem

abbrev pub with_mem : Mem → Kernel → Kernel
with_mem m k = record k {
  keyboard = record (k.keyboard) { screen = record (k.keyboard.screen) { mem = m } };
}

-- Where the page directory puts an address: the 4 MB from 128 MB on are the page of the running
-- process, and the kernel's addresses are physical. A NULL stays a NULL.
unfoldable pub physical : Table → ℕ → ℕ
physical page_directory a =
    if a / 2 ^ 22 == user_process_index
    then page_directory user_process_index / 2 ^ 22 * 2 ^ 22 + a % 2 ^ 22
    else a

abbrev pub user : Kernel → ℕ → ℕ
user k a = physical k.scheduler.tables.page_directory a

-- `K_MEM_END - (pid + 1) * K_STACK_SIZE`; `args` is the first field of the block.
abbrev pub pcb_at : ℕ → ℕ
pcb_at pid = k_mem_end - (pid + 1) * k_stack_size

-- `get_curr_pcb_term`: the block of the process on the current terminal says which terminal it is
-- on. The only negative entry of `terminal_array` is -1, and the block of that number is the one
-- behind the kernel's memory, which is not modelled.
unfoldable pub get_curr_pcb_term : Scheduler → Option ℕ
get_curr_pcb_term s = elim (s.terminal_array s.curr_terminal) [
  | pos pid ↦ some (s.terminal pid)
  | negsuc n ↦ none
]

-- The clock's functions work on the flag, and on the ports and the screen that the keyboard's
-- functions share.
abbrev pub clock_of : Kernel → Rtc
clock_of k = record {
  read_flag = k.read_flag;
  ports = k.keyboard.ports;
  screen = k.keyboard.screen;
}

abbrev pub with_clock : Rtc → Kernel → Kernel
with_clock s k = record k {
  read_flag = s.read_flag;
  keyboard = record (k.keyboard) { ports = s.ports; screen = s.screen };
}
