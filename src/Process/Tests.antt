-- ===== src/Process/Tests.antt =====
-- The processes of the sample kernel.
use ece391_mp.Base.{
  ℕ, ◌+◌, ◌-◌, ◌<◌, ◌≤◌, ◌⊎◌, inr, ltb, leb, ◌&&◌, ◌==◌, if◌then◌else◌, [], ◌∷◌, ◌≡◌, refl, arith,
  Bool, true, false, Option, some, none,
}
use ece391_mp.Base.Int.{pos, negsuc}
use ece391_mp.Base.Mem.{Mem, load32, SameOutside}
use ece391_mp.Str.{scan_limit, strlen, strncmp}
use ece391_mp.Str.Length.{IsStr}
use ece391_mp.Str.Copy.{padded}
use ece391_mp.FileSystem.{
  read_dentry_by_name, file_read, read_data, num_inodes, clear_loop, inode_num, inode_length,
  load_program, success, data_block_at,
}
use ece391_mp.Paging.{change_process}
use ece391_mp.Kernel.{Kernel, mem_of, with_mem, user, pcb_at, physical}
use ece391_mp.Kernel.Sample.{sample, text_at}
use ece391_mp.Process.{
  Frame, Outcome, returned, entered, resumed, execute, return_to_user, get_next_pid, parse_command,
  find_program, clear_array, copy_args, copy_name, run_program, store_args,
}
use ece391_mp.Process.Halt.{execute_shells, enter_shell, halt}
use ece391_mp.Process.Args.{getargs, vidmap}
use ece391_mp.Process.Tree.{processes, Forest}
use ece391_mp.Process.Outcomes.{Executes, execute-Executes}
use ece391_mp.Process.Steps.{executes, begun, stepped, Reach-Forest}
use ece391_mp.Process.Sound.{Reach-AllSound}
use ece391_mp.Descriptors.Changes.{AllSound}
use ece391_mp.Process.Boot.{Idle}
use ece391_mp.Process.Return.{Restored, halt-execute}
use ece391_mp.Process.Arguments.{getargs_lem, vidmap_lem}

abbrev frame : Frame
frame = record {
  fname = 0x7FF000;
  buf = 0x7FF040;
  args = 0x7FF100;
  elf = 0x430000;
  sorry_text = 0x430100;
  conv_buf = 0x7FF800;
}

-- Whether a call enters user code, where, and in which state.
enters : Option Outcome → Bool
enters (some (entered eip k)) = true
enters (some (returned r k)) = false
enters (some (resumed r k)) = false
enters none = false

eip_of : Option Outcome → ℕ
eip_of (some (entered eip k)) = eip
eip_of (some (returned r k)) = 0
eip_of (some (resumed r k)) = 0
eip_of none = 0

state_of : Option Outcome → Kernel
state_of (some (entered eip k)) = k
state_of (some (returned r k)) = k
state_of (some (resumed r k)) = k
state_of none = sample

enters-some : (o : Option Outcome) → enters o ≡ true → o ≡ some (entered (eip_of o) (state_of o))
unfolding enters eip_of state_of
enters-some (some (entered eip k)) e = refl
enters-some (some (returned r k)) e = cc
enters-some (some (resumed r k)) e = cc
enters-some none e = cc

-- The command "shell" is at 0x08050000 for the program.
abbrev run : Option Outcome
run = execute frame 0 0x08050000 sample

enters-run : enters run ≡ true
unfolding enters execute get_next_pid parse_command find_program clear_array copy_args copy_name
    run_program store_args read_dentry_by_name strlen strncmp file_read read_data num_inodes load32
    clear_loop inode_num inode_length load_program physical change_process return_to_user
    data_block_at
enters-run = refl

run_ends : run ≡ some (entered (eip_of run) (state_of run))
run_ends = enters-some run enters-run

abbrev shells : Option Outcome
shells = execute_shells frame sample

shells_enter : enters shells ≡ true
unfolding enters execute_shells enter_shell read_dentry_by_name strlen strncmp file_read read_data
    num_inodes load32 clear_loop inode_num inode_length load_program physical change_process
    return_to_user
shells_enter = refl

sample-Forest : Forest (processes sample)
sample-Forest = record {
  current = omega arith;
  placed = λ p lt a. ground arith;
  front = λ t lt. (t, refl, omega arith, (ground arith, omega arith), refl);
  only = λ p lt l. refl;
  parents = λ p q lt a e. cc;
  one_child = λ p p' q lt lt' a a' e e'. cc;
}

sample-Idle : Idle (processes sample)
sample-Idle p low high = ground arith

Reach-Forest_example : Forest (processes (state_of run))
Reach-Forest_example =
    Reach-Forest (stepped begun (executes frame 0 0x08050000 _ refl run_ends)) sample-Forest

sample-AllSound : AllSound sample
sample-AllSound p i = ground arith

Reach-AllSound_example : AllSound (state_of run)
Reach-AllSound_example =
    Reach-AllSound (stepped begun (executes frame 0 0x08050000 _ refl run_ends)) sample-AllSound

execute-Executes_example : Executes 0 sample (entered (eip_of run) (state_of run))
execute-Executes_example = execute-Executes frame 0 0x08050000 sample run_ends

-- The child behind a close of its descriptor 2.
abbrev later : Kernel
later = record (state_of run) {
  file_array = λ p fd. record ((state_of run).file_array p fd) {
    flags = if (p == 1) && (fd == 2) then 0 else ((state_of run).file_array p fd).flags;
  };
}

halt-execute_example :
    (k2 : Kernel) × (halt frame (get_next_pid sample.scheduler) 7 later ≡ some (resumed (pos 0) k2))
    × Restored (processes sample) (processes k2)
    × (k2.scheduler.esp ≡ sample.scheduler.esp)
    × (k2.scheduler.ebp ≡ sample.scheduler.ebp)
halt-execute_example =
    halt-execute frame frame 0 0x08050000 7 sample later sample-Forest refl run_ends refl refl refl

-- The argument of process 0 is "x".
abbrev called : Kernel
called = with_mem (text_at 0x7FE000 (b'x' ∷ [])) sample

argument-IsStr : IsStr (mem_of called) (pcb_at 0) 1
unfolding scan_limit
argument-IsStr = record { nonzero = λ i lt. ground arith; nul = refl; small = omega arith }

getargs_lem_example :
    (m : Mem) × (getargs 0x08050000 10 called ≡ some (success, with_mem m called))
    × ((x : ℕ)
        → m x ≡ (
            if leb (user called 0x08050000) x && ltb x (user called 0x08050000 + 1024)
            then padded (mem_of called) (pcb_at 0) 1 (x - user called 0x08050000)
            else mem_of called x))
unfolding physical
getargs_lem_example =
    getargs_lem 0x08050000 10 0 1 called (ground arith) (ground arith) refl argument-IsStr
      (omega arith) (omega arith) (inr (omega arith))

vidmap_lem_example :
    let (r, k') = vidmap 0x08050000 sample in
    ((0x8000000 ≤ 0x08050000)
      → 0x08050000 < 0x8400000
      → (r ≡ pos 0)
        × (load32 (mem_of k') (user sample 0x08050000) ≡ 0x8400000)
        × SameOutside (user sample 0x08050000) 4 (mem_of sample) (mem_of k'))
    × ((0x08050000 < 0x8000000) ⊎ (0x8400000 ≤ 0x08050000) → (r ≡ negsuc 0) × (k' ≡ sample))
vidmap_lem_example = vidmap_lem 0x08050000 sample
