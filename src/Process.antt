-- ===== src/Process.antt =====
-- The processes of student-distrib/syscall_handler.c: `execute`, `halt`, `execute_shells`, and the
-- calls about one process. A call runs on the kernel stack of a process, `self`; its local arrays
-- are at the addresses of a `Frame`. `none` is a string that never ends. The contents of the kernel
-- stacks are not modelled, and the field `pid` of a block is the number of the block.
pub mod Halt
pub mod Args
pub mod Tree
pub mod Next
pub mod Outcomes
pub mod Ends
pub mod Calls
pub mod Steps
pub mod Fairness
pub mod Sound
pub mod Boot
pub mod Return
pub mod Arguments
mod Tests
use ece391_mp.Base.{
  ℕ, zero, suc, ◌+◌, ◌-◌, ◌*◌, ◌^◌, Bool, true, false, ◌||◌, ◌&&◌, Option, none, some, List, [],
  ltb, leb, ◌==◌, if◌then◌else◌,
}
use ece391_mp.Base.Int.{ℤ, pos, negsuc, eqb_ℤ}
use ece391_mp.Base.Mem.{Mem, write, load32}
use ece391_mp.Str.{scan_limit, strlen, strcpy, strncmp}
use ece391_mp.Screen.{Screen}
use ece391_mp.Printf.{printf}
use ece391_mp.FileSystem.{
  Lookup, found, missing, inode_num, read_dentry_by_name, file_read, load_program, name_size,
  success, failure,
}
use ece391_mp.Paging.{change_process}
use ece391_mp.Scheduler.{Scheduler, max_open_processes, k_mem_end, k_stack_size}
use ece391_mp.Kernel.{
  Driver, nofunc, std_in, std_out, Fd, Kernel, mem_of, with_mem, physical, user, pcb_at,
}
use ece391_mp.Descriptors.{max_open_files, sys_close}

abbrev pub args_size : ℕ
args_size = 1024

abbrev pub usr_start_addr : ℕ
usr_start_addr = 0x08048000

abbrev pub addr_dist_eip : ℕ
addr_dist_eip = 24

abbrev pub user_vid_mem : ℕ
user_vid_mem = 0x8400000

abbrev pub four_mb : ℕ
four_mb = 0x400000

abbrev pub bufsize : ℕ
bufsize = 4

-- The local arrays `fname`, `buf` and `args` of a call, the constants "\x7FELF" and "Sorry you can't
-- halt the base shell\n", and `conv_buf` of the `printf` that it calls.
pub record Frame : Type 0 where
  pub fname : ℕ
  pub buf : ℕ
  pub args : ℕ
  pub elf : ℕ
  pub sorry_text : ℕ
  pub conv_buf : ℕ

-- How a call ends: it returns a value to its caller, it jumps to user code at an address, or it
-- returns a value from the `execute` of the parent.
pub data Outcome : Type 0 where
  returned : ℤ → Kernel → Outcome
  entered : ℕ → Kernel → Outcome
  resumed : ℤ → Kernel → Outcome

abbrev pub set_scheduler : Scheduler → Kernel → Kernel
set_scheduler s k = record k { scheduler = s }

-- `for(i = 0; process_array[i] && i < MAX_OPEN_PROCESSES; i++){}`; the loop reads the word behind
-- the array when all processes are active, and ends there whatever it holds.
unfoldable pub next_pid_from : ℕ → (ℕ → ℕ) → ℕ → ℕ
next_pid_from zero process_array i = i
next_pid_from (suc n) process_array i = elim (process_array i == 0) [
  | true ↦ i
  | false ↦ next_pid_from n process_array (i + 1)
]

unfoldable pub get_next_pid : Scheduler → ℕ
unfolding next_pid_from
get_next_pid s = next_pid_from max_open_processes s.process_array 0

-- `change_process(pid)` and the kernel stack of `pid` for the next interrupt.
abbrev pub map_process : ℕ → Kernel → Kernel
map_process pid k =
    set_scheduler (record (k.scheduler) { tables = change_process pid k.scheduler.tables }) k

abbrev pub set_esp0 : ℕ → Kernel → Kernel
set_esp0 pid k =
    set_scheduler (record (k.scheduler) { tss_esp0 = k_mem_end - pid * k_stack_size - 4 }) k

-- The jump to user code: the entry point is in the header of the program that is mapped.
unfoldable pub return_to_user : ℕ → Kernel → Outcome
return_to_user pid k =
    entered (load32 (mem_of k) (user k (usr_start_addr + addr_dist_eip))) (set_esp0 pid k)

-- `for(i = 0; i < n; i++) a[i] = '\0';`
unfoldable pub clear_array : ℕ → Mem → ℕ → ℕ → Mem
clear_array zero m a i = m
clear_array (suc n) m a i = clear_array n (write m (a + i) 0) a (i + 1)

-- `for(i = 0; i < MAX_NAME_LENGTH && command[i] != ' '; i++) fname[i] = command[i];`: the memory and
-- the index behind the loop.
unfoldable pub copy_name : ℕ → Mem → ℕ → ℕ → ℕ → Mem × ℕ
copy_name zero m fname command i = (m, i)
copy_name (suc n) m fname command i = elim (m (command + i) == b' ') [
  | true ↦ (m, i)
  | false ↦ copy_name n (write m (fname + i) (m (command + i))) fname command (i + 1)
]

-- `for(j = 0; from[j] != '\0'; j++) to[j] = from[j];`: the memory and the index behind the loop.
unfoldable pub copy_args : ℕ → Mem → ℕ → ℕ → ℕ → Option (Mem × ℕ)
copy_args zero m to from j = none
copy_args (suc n) m to from j = elim (m (from + j) == 0) [
  | true ↦ some (m, j)
  | false ↦ copy_args n (write m (to + j) (m (from + j))) to from (j + 1)
]

-- The head of `execute`: the name and the arguments of the command.
unfoldable pub parse_command : Frame → ℕ → Mem → Option Mem
unfolding clear_array copy_name copy_args scan_limit
parse_command f command m =
    let (named, i) = copy_name name_size m f.fname command 0 in
    elim (copy_args scan_limit named f.args (command + (i + 1)) 0) [
      | none ↦ none
      | some (copied, j) ↦ some (write copied (f.args + j) 0)
    ]

-- The checks of `execute` and `halt`: the inode of the program, where there is one with the name and
-- its first four bytes are those of an executable.
pub data Program : Type 0 where
  program : ℕ → Program
  no_program : Program

unfoldable pub find_program : Frame → Kernel → Option (Program × Mem)
find_program f k = elim (read_dentry_by_name (mem_of k) k.boot_block f.fname 1) [
  | none ↦ none
  | some missing ↦ some (no_program, mem_of k)
  | some (found e) ↦
      let inode = inode_num (mem_of k) e in
      let (count, m) = file_read (mem_of k) k.boot_block inode f.buf bufsize 0 in
      some (
        if eqb_ℤ count (pos 0)
            then no_program
            else if eqb_ℤ (strncmp m f.buf f.elf bufsize) (pos 0)
            then program inode
            else no_program,
        m,
      )
]

-- A row of `file_array` as a new process gets it.
unfoldable pub new_fd : ℕ → Fd
new_fd i = record {
  fop_jump_table = if i == 0 then std_in else if i == 1 then std_out else nofunc;
  inode = 0;
  file_type = negsuc 0;
  file_position = pos 0;
  flags = if ltb i 2 then 1 else 0;
}

-- The block and the tables for the new process `pid`, a child of `self`.
unfoldable pub start_process : ℕ → ℕ → Kernel → Kernel
start_process self pid k =
    let s = k.scheduler in
    let t = s.terminal self in
    let running = write s.process_array pid 1 in
    let current : ℕ → ℤ = λ u. if u == s.curr_terminal then pos pid else s.terminal_array u in
    record k {
      scheduler = record s {
        process_array = running;
        terminal_array = λ u. if u == t then pos pid else current u;
        terminal = write s.terminal pid t;
        leaf = write (write s.leaf self 0) pid 1;
      };
      file_array = λ p i. if (p == pid) && ltb i max_open_files then new_fd i else k.file_array p i;
      parent_pid = λ p. if p == pid then pos self else k.parent_pid p;
      parent_esp = write k.parent_esp pid s.esp;
      parent_ebp = write k.parent_ebp pid s.ebp;
    }

-- The arguments go to the block of the process, which is cleared first.
unfoldable pub store_args : Frame → ℕ → Kernel → Option Kernel
unfolding clear_array copy_args scan_limit
store_args f pid k =
    let cleared = clear_array args_size (mem_of k) (pcb_at pid) 0 in
    elim (copy_args scan_limit cleared (pcb_at pid) f.args 0) [
      | none ↦ none
      | some (m, j) ↦ some (with_mem m k)
    ]

-- The part of `execute` behind the checks.
unfoldable pub run_program : Frame → ℕ → ℕ → ℕ → Kernel → Option Outcome
run_program f self pid inode k =
    let mapped = map_process pid k in
    let (status, m) =
      load_program (mem_of mapped) mapped.boot_block inode (user mapped usr_start_addr) in
    let loaded = with_mem m mapped in
    if eqb_ℤ status (pos 0)
    then elim (store_args f pid loaded) [
      | none ↦ none
      | some k' ↦ some (return_to_user pid (start_process self pid k'))
    ]
    else some (returned failure loaded)

unfoldable pub execute : Frame → ℕ → ℕ → Kernel → Option Outcome
unfolding clear_array
execute f self command k =
    let m0 = clear_array args_size (clear_array name_size (mem_of k) f.fname 0) f.args 0 in
    let k0 = with_mem m0 k in
    let pid = get_next_pid k.scheduler in
    if (command == 0) || leb max_open_processes pid
    then some (returned failure k0)
    else elim (parse_command f (user k command) m0) [
      | none ↦ none
      | some m1 ↦ elim (find_program f (with_mem m1 k)) [
        | none ↦ none
        | some (no_program, m2) ↦ some (returned failure (with_mem m2 k))
        | some (program inode, m2) ↦ run_program f self pid inode (with_mem m2 k)
      ]
    ]
