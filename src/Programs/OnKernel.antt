-- ===== src/Programs/OnKernel.antt =====
-- The system calls of the kernel as the user programs have them: the assembly of int_wrapper.S around
-- the functions of student-distrib/syscall_handler.c, for the process `pid`.
use Prim.Native.String.{String}
use ece391_mp.Base.{ℕ, ◌+◌, ◌*◌, ◌/◌, ◌%◌, ◌^◌, ◌||◌, Option, none, some, ltb, ◌==◌, if◌then◌else◌}
use ece391_mp.Base.Int.{ℤ, pos, negsuc, pattern32}
use ece391_mp.Base.Mem.{Mem}
use ece391_mp.Paging.{Table, user_process_index}
use ece391_mp.Kernel.{Kernel, mem_of, with_mem, user}
use ece391_mp.Descriptors.{sys_read, sys_write, sys_open, sys_close}
use ece391_mp.Process.{Frame, Outcome, returned, entered, resumed, execute}
use ece391_mp.Process.Args.{getargs, vidmap, set_handler}
use ece391_mp.Programs.{Act, Calls}

-- The physical memory, with `seen` in the page of the process and at the kernel's addresses.
abbrev pub mapped_back : Table → Mem → Mem → Mem
mapped_back page_directory old seen x =
    if x / 2 ^ 22 == page_directory user_process_index / 2 ^ 22
    then seen (user_process_index * 2 ^ 22 + x % 2 ^ 22)
    else if x / 2 ^ 22 == user_process_index
    then old x
    else seen x

-- A call by its number: the function of the table, or -1.
unfoldable pub sys_int_w : (ℤ → Act Kernel ℤ) → ℤ → Act Kernel ℤ
sys_int_w sys_int_table num k =
    let eax = pattern32 num in
    if ltb 10 eax || (eax == 0) then some (negsuc 0, k) else sys_int_table num k

-- `execute` as its caller sees it; `child` runs the program that it enters at an address.
abbrev pub finish : (ℕ → Act Kernel ℤ) → Option Outcome → Option (ℤ × Kernel)
finish child none = none
finish child (some (returned r k)) = some (r, k)
finish child (some (entered eip k)) = child eip k
finish child (some (resumed r k)) = some (r, k)

-- A transfer of a negative number of bytes is not modelled.
abbrev pub transfer : ℤ → (ℕ → Option (ℤ × Kernel)) → Option (ℤ × Kernel)
transfer (pos n) call = call n
transfer (negsuc n) call = none

abbrev pub kernel_calls :
    ℕ → (String → ℕ) → Frame → (ℕ → Act Kernel ℤ) → (ℤ → Act Kernel ℤ) → Calls Kernel
kernel_calls pid text f child sys_int_table = record {
  load = λ k a. mem_of k (user k a);
  store = λ m k. with_mem (mapped_back k.scheduler.tables.page_directory (mem_of k) m) k;
  text = text;
  ece391_execute = λ command k. finish child (execute f pid command k);
  ece391_read = λ fd buf nbytes k. transfer nbytes (λ n. sys_read pid fd buf n k);
  ece391_write = λ fd buf nbytes k. transfer nbytes (λ n. sys_write pid fd buf n k);
  ece391_open = λ filename k. sys_open pid filename k;
  ece391_close = λ fd k. some (sys_close pid fd k);
  ece391_getargs = λ buf nbytes k. getargs buf (pattern32 nbytes) k;
  ece391_vidmap = λ screen_start k. some (vidmap screen_start k);
  ece391_set_handler = λ signum handler k. some (set_handler signum handler, k);
  call_sys = λ num k. sys_int_w sys_int_table num k;
}
