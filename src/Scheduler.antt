-- ===== src/Scheduler.antt =====
-- The scheduler of student-distrib/syscall_handler.c: the interrupt of the timer, which passes the
-- processor on to the next process that has no child.
pub mod Turns
mod Tests
use ece391_mp.Base.{
  ℕ, zero, suc, ◌+◌, ◌-◌, ◌*◌, ◌/◌, ◌%◌, Bool, true, false, not, ◌&&◌, Option, none, some, ◌==◌,
  if◌then◌else◌,
}
use ece391_mp.Base.Int.{ℤ, pos, negsuc}
use ece391_mp.Base.Mem.{write}
use ece391_mp.Pic.{Ports, outb, cli, enable_irq, disable_irq, send_eoi}
use ece391_mp.Paging.{Tables, change_process}

abbrev pub max_open_processes : ℕ
max_open_processes = 6

abbrev pub k_mem_end : ℕ
k_mem_end = 0x800000

abbrev pub k_stack_size : ℕ
k_stack_size = 0x2000

abbrev pub pit_irq : ℕ
pit_irq = 0

-- The arrays `process_array` and `terminal_array`; the fields of the process control blocks, which
-- stand at fixed addresses, by process number; and the registers that a switch loads.
pub record Scheduler : Type 0 where
  pub process_array : ℕ → ℕ
  pub terminal_array : ℕ → ℤ
  pub curr_terminal : ℕ
  pub leaf : ℕ → ℕ
  pub terminal : ℕ → ℕ
  pub saved_esp : ℕ → ℕ
  pub saved_ebp : ℕ → ℕ
  pub esp : ℕ
  pub ebp : ℕ
  pub tss_esp0 : ℕ
  pub tables : Tables
  pub ports : Ports

-- `process_array[pid] && pcb->leaf`
unfoldable pub is_leaf : Scheduler → ℕ → Bool
is_leaf s pid = not (s.process_array pid == 0) && not (s.leaf pid == 0)

-- The loop over `next_pid`; `none` is a search that runs out of its rounds.
unfoldable pub find_leaf : ℕ → Scheduler → ℕ → ℕ → Option ℕ
find_leaf zero s current next_pid = none
find_leaf (suc k) s current next_pid = elim (next_pid == current) [
  | true ↦ some next_pid
  | false ↦ elim (is_leaf s next_pid) [
    | true ↦ some next_pid
    | false ↦ find_leaf k s current ((next_pid + 1) % 6)
  ]
]

unfoldable pub next_leaf : Scheduler → ℕ → Option ℕ
unfolding find_leaf is_leaf
next_leaf s current = find_leaf 6 s current ((current + 1) % max_open_processes)

-- The part of `pit_int` behind the choice of a process.
unfoldable pub switch_to : ℕ → ℕ → Scheduler → Scheduler
switch_to current next_pid s = record s {
  saved_esp = write s.saved_esp current s.esp;
  saved_ebp = write s.saved_ebp current s.ebp;
  tables = change_process next_pid s.tables;
  tss_esp0 = k_mem_end - k_stack_size * next_pid - 4;
  curr_terminal = s.terminal next_pid;
  esp = write s.saved_esp current s.esp next_pid;
  ebp = write s.saved_ebp current s.ebp next_pid;
}

-- The only negative entry of `terminal_array` is -1, a terminal without a process.
unfoldable pub pit_int : Scheduler → Option Scheduler
pit_int s =
    let s1 = record s { ports = send_eoi pit_irq (cli s.ports) } in
    elim (s.terminal_array s.curr_terminal) [
      | negsuc n ↦ some s1
      | pos current ↦ elim (next_leaf s1 current) [
        | none ↦ none
        | some next_pid ↦
            if next_pid == current then some s1 else some (switch_to current next_pid s1)
      ]
    ]

-- 0x36 on port 0x43 sets the mode; 29830 is the divisor for 40 Hz.
unfoldable pub initialize_pit : Ports → Ports
initialize_pit s =
    let mode = outb 0x36 0x43 (disable_irq pit_irq s) in
    enable_irq pit_irq (outb (29830 / 256 % 256) 0x40 (outb (29830 % 256) 0x40 mode))
