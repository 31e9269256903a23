-- ===== src/Process/Halt.antt =====
-- `halt` and `execute_shells` of student-distrib/syscall_handler.c.
use ece391_mp.Base.{
  ℕ, zero, suc, ◌+◌, ◌-◌, ◌*◌, Bool, true, false, ◌&&◌, Option, none, some, List, [], ◌∷◌, ltb,
  ◌==◌, if◌then◌else◌,
}
use ece391_mp.Base.Int.{pos, negsuc, eqb_ℤ}
use ece391_mp.Base.Mem.{Mem, write}
use ece391_mp.Pic.{sti}
use ece391_mp.Printf.{printf}
use ece391_mp.FileSystem.{
  found, missing, inode_num, read_dentry_by_name, file_read, load_program, failure,
}
use ece391_mp.Scheduler.{k_mem_end, k_stack_size, pit_int}
use ece391_mp.Kernel.{nofunc, std_in, std_out, Fd, Kernel, mem_of, with_mem, user}
use ece391_mp.Descriptors.{max_open_files, sys_close}
use ece391_mp.Process.{
  Frame, Outcome, returned, resumed, program, no_program, find_program, set_scheduler, map_process,
  set_esp0, return_to_user, usr_start_addr, bufsize,
}

abbrev pub num_terminals : ℕ
num_terminals = 3

abbrev pub pushed_regs_size : ℕ
pushed_regs_size = 68

-- The initial value of a local array.
unfoldable pub store_text : Mem → ℕ → List ℕ → Mem
store_text m a [] = m
store_text m a (c ∷ text) = store_text (write m a c) (a + 1) text

-- "shell\0"
abbrev pub shell_text : List ℕ
shell_text = b's' ∷ b'h' ∷ b'e' ∷ b'l' ∷ b'l' ∷ 0 ∷ []

-- `for(i = 0; i < 8 && curr_pcb->file_array[i].flags; i++) close(i);`
unfoldable pub close_all : ℕ → ℕ → ℕ → ℕ → Kernel → Kernel
close_all zero self current i k = k
close_all (suc n) self current i k =
    let (r, closed) = sys_close self (pos i) k in
    let rest = close_all n self current (i + 1) closed in
    if (k.file_array current i).flags == 0 then k else rest

-- The branch of `halt` for a process without a parent.
unfoldable pub restart_shell : Frame → ℕ → Kernel → Option Outcome
unfolding store_text
restart_shell f current k = elim (printf f.conv_buf f.sorry_text [] k.keyboard.screen) [
  | none ↦ none
  | some (n, screen) ↦
      let shown = record k { keyboard = record (k.keyboard) { screen = screen } } in
      let named = with_mem (store_text (mem_of shown) f.fname shell_text) shown in
      elim (find_program f named) [
        | none ↦ none
        | some (no_program, m) ↦ some (returned failure (with_mem m named))
        | some (program inode, m) ↦ some (return_to_user current (with_mem m named))
      ]
]

-- The branch for a process with a parent. The value that the parent's `execute` returns is the 0 of
-- `pushl $0`; `status` is not used.
unfoldable pub end_process : ℕ → ℕ → ℕ → Kernel → Outcome
unfolding close_all
end_process self current parent k =
    let closed = set_esp0 parent (map_process parent (close_all max_open_files self current 0 k)) in
    let s = closed.scheduler in
    resumed (pos 0) (
      set_scheduler
        (record s {
          process_array = write s.process_array current 0;
          terminal_array = λ u. if u == s.curr_terminal then pos parent else s.terminal_array u;
          leaf = write s.leaf parent 1;
          esp = closed.parent_esp current;
          ebp = closed.parent_ebp current;
        })
        closed)

-- The only negative entries of `terminal_array` and `parent_pid` are -1; `none` is also a halt on a
-- terminal without a process, which works on the block behind the kernel's memory.
unfoldable pub halt : Frame → ℕ → ℕ → Kernel → Option Outcome
halt f self status k = elim (k.scheduler.terminal_array k.scheduler.curr_terminal) [
  | negsuc n ↦ none
  | pos current ↦ elim (k.parent_pid current) [
    | negsuc n ↦ restart_shell f current k
    | pos parent ↦ some (end_process self current parent k)
  ]
]

-- A row of `file_array` as `execute_shells` sets it; the test of the flags is on the terminal.
unfoldable pub shell_fd : ℕ → ℕ → Fd
shell_fd i fd = record {
  fop_jump_table = if fd == 0 then std_in else if fd == 1 then std_out else nofunc;
  inode = 0;
  file_type = negsuc 0;
  file_position = pos 0;
  flags = if ltb i 2 then 1 else 0;
}

-- A round of the loop in front of `load_program`, and the part behind it.
abbrev pub claim_terminal : ℕ → Kernel → Kernel
claim_terminal i k =
    let s = k.scheduler in
    map_process i (
      set_scheduler
        (record s {
          process_array = write s.process_array i 1;
          terminal_array = λ u. if u == i then pos i else s.terminal_array u;
        })
        k)

abbrev pub set_shell : ℕ → Kernel → Kernel
set_shell i k =
    let s = k.scheduler in
    record k {
      scheduler = record s {
        leaf = write s.leaf i 1;
        terminal = write s.terminal i i;
        tss_esp0 = k_mem_end - i * k_stack_size - 4;
        saved_esp = write s.saved_esp i (k_mem_end - i * k_stack_size - pushed_regs_size);
        saved_ebp = write s.saved_ebp i (k_mem_end - i * k_stack_size - pushed_regs_size);
      };
      file_array =
          λ p fd. if (p == i) && ltb fd max_open_files then shell_fd i fd else k.file_array p fd;
      parent_pid = λ p. if p == i then negsuc 0 else k.parent_pid p;
    }

-- The loop over the terminals `n - 1` to 0: whether all programs are loaded.
unfoldable pub start_shells : ℕ → ℕ → Kernel → Bool × Kernel
start_shells zero inode k = (true, k)
start_shells (suc i) inode k =
    let claimed = claim_terminal i k in
    let (status, m) =
      load_program (mem_of claimed) claimed.boot_block inode (user claimed usr_start_addr) in
    let loaded = with_mem m claimed in
    let rest = start_shells i inode (set_shell i loaded) in
    if eqb_ℤ status (pos 0) then rest else (false, loaded)

unfoldable pub enter_shell : Kernel → Outcome
enter_shell k =
    let s = k.scheduler in
    let first = record k {
      scheduler = record s { curr_terminal = s.terminal 0 };
      keyboard = record (k.keyboard) { ports = sti k.keyboard.ports };
    } in
    return_to_user 0 first

unfoldable pub execute_shells : Frame → Kernel → Option Outcome
unfolding store_text start_shells
execute_shells f k =
    let named = with_mem (store_text (mem_of k) f.fname shell_text) k in
    elim (read_dentry_by_name (mem_of named) named.boot_block f.fname 1) [
      | none ↦ none
      | some missing ↦ some (returned failure named)
      | some (found e) ↦
          let inode = inode_num (mem_of named) e in
          let (count, m) = file_read (mem_of named) named.boot_block inode f.buf bufsize 0 in
          let read = with_mem m named in
          let (loaded, k') = start_shells num_terminals inode read in
          some (
            if eqb_ℤ count (pos 0)
            then returned failure read
            else if loaded
            then enter_shell k'
            else returned failure k')
    ]

-- The interrupt of the timer, on the ports that the drivers share; `none` is a search that does not
-- end.
unfoldable pub timer : Kernel → Option Kernel
timer k = elim (pit_int (record (k.scheduler) { ports = k.keyboard.ports })) [
  | none ↦ none
  | some s ↦ some (record k { scheduler = s; keyboard = record (k.keyboard) { ports = s.ports } })
]
