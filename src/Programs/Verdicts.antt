-- ===== src/Programs/Verdicts.antt =====
-- The tests of syscalls/ece391syserr.c on the kernel: what a new process is refused.
use Prim.Native.String.{String}
use ece391_mp.Base.{ℕ, ◌<◌, ◌≡◌, some, ◌==◌, if◌then◌else◌}
use ece391_mp.Base.Int.{ℤ}
use ece391_mp.Screen.{Screen}
use ece391_mp.FileSystem.{missing, read_dentry_by_name}
use ece391_mp.Kernel.{Kernel, mem_of, user}
use ece391_mp.Process.{Frame, new_fd}
use ece391_mp.Programs.{Act, Calls}
use ece391_mp.Programs.OnKernel.{kernel_calls}
use ece391_mp.Programs.Lots.{at_start}
use ece391_mp.Programs.Console.{Console, screen_with}
use ece391_mp.Programs.Prints.{Prints, bind-Prints, expect-Passes, verdict-Prints}

-- What a test prints when it passes.
unfoldable pub pass_text : ℕ → String
pass_text first =
    if first == b'1'
    then "err_neg_fd: PASS\n"
    else if first == b'2'
    then "err_big_fd: PASS\n"
    else if first == b'3'
    then "err_open_lots: PASS\n"
    else if first == b'4'
    then "err_open: PASS\n"
    else if first == b'5'
    then "err_unopened: PASS\n"
    else if first == b'6'
    then "err_vidmap: PASS\n"
    else if first == b'7'
    then "err_stdin_out: PASS\n"
    else "err_syscall_num: PASS\n"

module _ (pid t : ℕ) (k0 : Kernel) (text : String → ℕ) (f : Frame) (child : ℕ → Act Kernel ℤ)
    (sys_int_table : ℤ → Act Kernel ℤ) (console : Console text t k0) where
  abbrev c : Calls Kernel
  c = kernel_calls pid text f child sys_int_table

  abbrev said : String → Screen
  said s = screen_with t k0 text console s

  abbrev Says : String → Act Kernel ℕ → Type 0
  Says s m = Prints pid t k0 text f child sys_int_table console s m

  ruleset says_rules = (bind-Prints, expect-Passes, verdict-Prints)

  -- A name that the file system does not have.
  abbrev pub Lacks : String → Type 0
  Lacks name = read_dentry_by_name (mem_of k0) k0.boot_block (user k0 (text name)) 1 ≡ some missing

  -- The descriptors of `pid` are those of a new process, wherever reads have moved their positions.
  abbrev pub IsNew : Type 0
  IsNew = (fd : ℕ) → fd < 8 → at_start (k0.file_array pid fd) ≡ new_fd fd
