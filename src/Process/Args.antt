-- ===== src/Process/Args.antt =====
-- `getargs`, `vidmap` and the calls on signals of student-distrib/syscall_handler.c.
use ece391_mp.Base.{ℕ, ◌+◌, ◌-◌, ◌%◌, ◌/◌, ◌||◌, Option, none, some, ltb, leb, ◌==◌, if◌then◌else◌}
use ece391_mp.Base.Int.{ℤ, pos, negsuc}
use ece391_mp.Base.Mem.{Mem, write}
use ece391_mp.Str.{strlen, strcpy}
use ece391_mp.FileSystem.{success, failure}
use ece391_mp.Kernel.{Kernel, mem_of, with_mem, user, pcb_at}
use ece391_mp.Process.{args_size, user_vid_mem, four_mb, clear_array}

-- `*(uint32_t *)a = v`
unfoldable pub store32 : Mem → ℕ → ℕ → Mem
store32 m a v =
    write (write (write (write m a (v % 256)) (a + 1) (v / 256 % 256)) (a + 2) (v / 65536 % 256))
      (a + 3) (v / 16777216 % 256)

-- `strlen` returns an `uint32_t`, and the test converts `nbytes` to one: a negative `nbytes` is large.
-- The argument is as the processor has it.
unfoldable pub getargs : ℕ → ℕ → Kernel → Option (ℤ × Kernel)
unfolding clear_array
getargs buf nbytes k =
    if (buf == 0) || (nbytes == 0)
    then some (failure, k)
    else elim (k.scheduler.terminal_array k.scheduler.curr_terminal) [
      | negsuc n ↦ none
      | pos pid ↦ elim (strlen (mem_of k) (pcb_at pid)) [
        | none ↦ none
        | some length ↦
            let cleared = clear_array args_size (mem_of k) (user k buf) 0 in
            if ltb nbytes length
            then some (failure, k)
            else elim (strcpy cleared (user k buf) (pcb_at pid)) [
              | none ↦ none
              | some m ↦ some (success, with_mem m k)
            ]
      ]
    ]

-- For a store that ends in the page of the process.
unfoldable pub vidmap : ℕ → Kernel → ℤ × Kernel
unfolding store32
vidmap screen_start k =
    if screen_start == 0
    then (negsuc 0, k)
    else if ltb screen_start (user_vid_mem - four_mb)
    then (negsuc 0, k)
    else if leb user_vid_mem screen_start
    then (negsuc 0, k)
    else (pos 0, with_mem (store32 (mem_of k) (user k screen_start) user_vid_mem) k)

abbrev pub set_handler : ℤ → ℕ → ℤ
set_handler signum handler_address = negsuc 0

abbrev pub sigreturn : ℤ
sigreturn = negsuc 0
