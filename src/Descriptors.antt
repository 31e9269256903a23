-- ===== src/Descriptors.antt =====
-- The file descriptors of student-distrib/syscall_handler.c: `open`, `close`, `read` and `write`,
-- which go to the drivers by the table of the descriptor. `pid` is the process whose kernel stack the
-- call runs on; `none` is a call that does not return, or a jump behind the tables.
pub mod Changes
pub mod Opening
pub mod Table
pub mod Stream
pub mod Open
mod Tests
use ece391_mp.Base.{
  ℕ, zero, suc, ◌+◌, ◌-◌, ◌*◌, Bool, true, false, not, ◌&&◌, ◌||◌, Option, none, some, ltb, leb,
  ◌==◌, if◌then◌else◌,
}
use ece391_mp.Base.Int.{ℤ, pos, negsuc, ◌+ℤ◌, ltb_ℤ, eqb_ℤ, pattern32, signed32}
use ece391_mp.Base.Mem.{Mem}
use ece391_mp.Pic.{sti}
use ece391_mp.FileSystem.{
  Lookup, found, missing, file_type, inode_num, read_dentry_by_name, file_open, file_close,
  file_write, file_read, dir_open, dir_close, dir_write, dir_read, success, failure,
}
use ece391_mp.Rtc.{rtc_open, rtc_close, rtc_read, rtc_write}
use ece391_mp.Terminal.{terminal_open, terminal_close, terminal_read, terminal_write}
use ece391_mp.Kernel.{
  Driver, nofunc, std_in, std_out, rtc, dir, file, Fd, Kernel, mem_of, with_mem, user, clock_of,
  with_clock, get_curr_pcb_term,
}

abbrev pub max_open_files : ℕ
max_open_files = 8

-- `file_array[fd] = f`
abbrev pub set_fd : ℕ → ℕ → Fd → Kernel → Kernel
set_fd pid fd f k = record k {
  file_array = λ p i. if (p == pid) && (i == fd) then f else k.file_array p i;
}

-- `file_table[type]`; there are three rows.
unfoldable pub file_table : ℕ → Option Driver
file_table zero = some rtc
file_table (suc zero) = some dir
file_table (suc (suc zero)) = some file
file_table (suc (suc (suc n))) = none

abbrev with_result : Kernel → Option (ℤ × Mem) → Option (ℤ × Kernel)
with_result k none = none
with_result k (some (r, m)) = some (r, with_mem m k)

-- `fop_jump_table[READ_INDEX](inode, buf, nbytes, position)`. The terminal's function has three
-- parameters, and the clock's takes `buf` for something else and does not use it.
unfoldable pub read_driver : Driver → ℕ → ℕ → ℕ → ℕ → Kernel → Option (ℤ × Kernel)
read_driver nofunc inode buf nbytes position k = some (negsuc 0, k)
read_driver std_in inode buf nbytes position k = elim (get_curr_pcb_term k.scheduler) [
  | none ↦ none
  | some t ↦ elim (terminal_read k.kbrd_buf k.kbrd_read_buf t buf nbytes k.keys k.keyboard) [
    | none ↦ none
    | some ((r, keyboard), keys) ↦ some (r, record k { keyboard = keyboard; keys = keys })
  ]
]
read_driver std_out inode buf nbytes position k = some (negsuc 0, k)
read_driver rtc inode buf nbytes position k = elim (rtc_read k.ticks (clock_of k)) [
  | none ↦ none
  | some (r, s, ticks) ↦ some (r, record (with_clock s k) { ticks = ticks })
]
read_driver dir inode buf nbytes position k =
    with_result k (dir_read (mem_of k) k.boot_block inode buf nbytes position)
read_driver file inode buf nbytes position k =
    with_result k (some (file_read (mem_of k) k.boot_block inode buf nbytes position))

-- For `nbytes` of at least 0.
unfoldable pub sys_read : ℕ → ℤ → ℕ → ℕ → Kernel → Option (ℤ × Kernel)
sys_read pid (negsuc n) buf nbytes k = some (failure, k)
sys_read pid (pos fd) buf nbytes k =
    let f = k.file_array pid fd in
    let ready = record k { keyboard = record (k.keyboard) { ports = sti k.keyboard.ports } } in
    let done =
      read_driver f.fop_jump_table f.inode (user k buf) nbytes (pattern32 f.file_position) ready in
    if leb max_open_files fd || (buf == 0) then some (failure, k) else elim done [
      | none ↦ none
      | some (retval, k') ↦
          let step =
            if eqb_ℤ f.file_type (pos 1)
            then (if ltb_ℤ (pos 0) retval then pos 1 else pos 0)
            else retval in
          let moved = record f { file_position = f.file_position +ℤ step } in
          some (
            if (f.flags == 0) && eqb_ℤ retval (pos 1) then failure else retval,
            set_fd pid fd moved k',
          )
    ]

-- `fop_jump_table[WRITE_INDEX](inode, buf, nbytes)`
unfoldable pub write_driver : Driver → ℕ → ℕ → ℕ → Kernel → Option (ℤ × Kernel)
write_driver nofunc inode buf nbytes k = some (negsuc 0, k)
write_driver std_in inode buf nbytes k = some (negsuc 0, k)
write_driver std_out inode buf nbytes k = elim (get_curr_pcb_term k.scheduler) [
  | none ↦ none
  | some t ↦
      let (r, keyboard) = terminal_write t buf nbytes k.keyboard in
      some (r, record k { keyboard = keyboard })
]
write_driver rtc inode buf nbytes k = elim (rtc_write (mem_of k) buf k.register_a (clock_of k)) [
  | none ↦ none
  | some (r, s) ↦ some (r, with_clock s k)
]
write_driver dir inode buf nbytes k = some (dir_write inode buf nbytes, k)
write_driver file inode buf nbytes k = some (file_write inode buf nbytes, k)

-- For `nbytes` of at least 0.
unfoldable pub sys_write : ℕ → ℤ → ℕ → ℕ → Kernel → Option (ℤ × Kernel)
sys_write pid (negsuc n) buf nbytes k = some (failure, k)
sys_write pid (pos fd) buf nbytes k =
    let f = k.file_array pid fd in
    let done = write_driver f.fop_jump_table f.inode (user k buf) nbytes k in
    if leb max_open_files fd || (buf == 0) then some (failure, k) else done

-- `for(i = 0; i < MAX_OPEN_FILES && file_array[i].flags; i++);`, with the rounds that are left.
unfoldable pub free_fd : ℕ → (ℕ → Fd) → ℕ → ℕ
free_fd zero files i = i
free_fd (suc n) files i = elim ((files i).flags == 0) [ true ↦ i | false ↦ free_fd n files (i + 1) ]

-- `fop_jump_table[OPEN_INDEX](filename)`
unfoldable pub open_driver : Driver → ℕ → Kernel → Option ℤ
open_driver nofunc filename k = some (negsuc 0)
open_driver std_in filename k = some (terminal_open filename)
open_driver std_out filename k = some (terminal_open filename)
open_driver rtc filename k = some (rtc_open filename)
open_driver dir filename k = dir_open (mem_of k) k.boot_block filename
open_driver file filename k = file_open (mem_of k) k.boot_block filename

-- The part of `open` behind the look-up and the search for a free descriptor.
unfoldable pub install : ℕ → ℕ → ℕ → ℕ → Kernel → Option (ℤ × Kernel)
install pid i dentry filename k = elim (file_table (file_type (mem_of k) dentry)) [
  | none ↦ none
  | some driver ↦
      let k' =
        set_fd pid i
          (record {
            fop_jump_table = driver;
            inode = inode_num (mem_of k) dentry;
            file_type = signed32 (file_type (mem_of k) dentry);
            file_position = pos 0;
            flags = 1;
          })
          k in
      elim (open_driver driver filename k') [
        | none ↦ none
        | some r ↦ some (if eqb_ℤ r (pos 0) then pos i else failure, k')
      ]
]

unfoldable pub sys_open : ℕ → ℕ → Kernel → Option (ℤ × Kernel)
unfolding free_fd
sys_open pid filename k =
    let i = free_fd max_open_files (k.file_array pid) 0 in
    if filename == 0
    then some (failure, k)
    else elim (read_dentry_by_name (mem_of k) k.boot_block (user k filename) 1) [
      | none ↦ none
      | some missing ↦ some (failure, k)
      | some (found e) ↦
          if i == max_open_files then some (failure, k) else install pid i e (user k filename) k
    ]

-- `fop_jump_table[CLOSE_INDEX](inode)`
unfoldable pub close_driver : Driver → ℕ → ℤ
close_driver nofunc inode = negsuc 0
close_driver std_in inode = terminal_close inode
close_driver std_out inode = terminal_close inode
close_driver rtc inode = rtc_close inode
close_driver dir inode = dir_close inode
close_driver file inode = file_close inode

-- The jump table stays in the descriptor.
unfoldable pub sys_close : ℕ → ℤ → Kernel → ℤ × Kernel
sys_close pid (negsuc n) k = (failure, k)
sys_close pid (pos fd) k =
    let f = k.file_array pid fd in
    if leb max_open_files fd then (failure, k) else if f.flags == 0 then (failure, k) else (
      close_driver f.fop_jump_table f.inode,
      set_fd pid fd (record f { inode = 0; file_type = negsuc 0; file_position = pos 0; flags = 0 })
          k,
    )
