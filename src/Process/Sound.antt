-- ===== src/Process/Sound.antt =====
-- The descriptors in every state that calls and interrupts lead to.
use ece391_mp.Base.{
  ℕ, zero, suc, ◌+◌, ◌≡◌, inl, inr, refl, arith, Bool-cases, Option-cases, ◌||◌, ◌&&◌, leb, ltb,
  ◌==◌, some, [], if_true, if_false,
}
use mathlib.Core.Path.{subst}
use ece391_mp.Base.Int.{pos, eqb_ℤ}
use ece391_mp.Printf.{printf}
use ece391_mp.Str.{scan_limit}
use ece391_mp.FileSystem.{load_program, name_size}
use ece391_mp.Scheduler.{max_open_processes, pit_int}
use ece391_mp.Kernel.{Kernel, mem_of, with_mem, user, pcb_at}
use ece391_mp.Descriptors.{max_open_files, sys_close}
use ece391_mp.Descriptors.Changes.{IsSound, AllSound}
use ece391_mp.Descriptors.Opening.{sys_close-Changes}
use ece391_mp.Descriptors.Table.{Changes-Sound, call-Changes}
use ece391_mp.Process.{
  Frame, Outcome, find_program, args_size, usr_start_addr, map_process, clear_array, copy_args,
  get_next_pid, parse_command, store_args, return_to_user, run_program, execute, new_fd,
  start_process,
}
use ece391_mp.Process.Halt.{
  store_text, shell_text, close_all, restart_shell, end_process, halt, timer,
}
use ece391_mp.Process.Outcomes.{after, Program-cases, same_outcome}
use ece391_mp.Process.Ends.{ℤ-cases}
use ece391_mp.Process.Steps.{Step, executes, halts, calls, ticks, Reach, begun, stepped}

new_fd-IsSound : (i : ℕ) → IsSound (new_fd i)
unfolding new_fd
new_fd-IsSound zero = inr (refl, refl)
new_fd-IsSound (suc zero) = inr (refl, refl)
new_fd-IsSound (suc (suc i)) = inl (ground arith)

start_process-AllSound :
    (self pid : ℕ) (k : Kernel) → AllSound k → AllSound (start_process self pid k)
unfolding start_process
start_process-AllSound self pid k sound p i =
    elim (Bool-cases ((p == pid) && ltb i max_open_files)) [
      | inl new ↦ rw (if_true (new_fd i) (k.file_array p i) new) (new_fd-IsSound i)
      | inr old ↦ rw (if_false (new_fd i) (k.file_array p i) old) (sound p i)
    ]

store_args-AllSound :
    (f : Frame) (pid : ℕ) (k : Kernel) {k' : Kernel}
    → store_args f pid k ≡ some k'
    → AllSound k
    → AllSound k'
unfolding store_args
store_args-AllSound f pid k {k'} e sound =
    let cleared = clear_array args_size (mem_of k) (pcb_at pid) 0 in
    elim (Option-cases (copy_args scan_limit cleared (pcb_at pid) f.args 0)) [
      | inl endless ↦ absurd (cc (rw (endless, store_args) at e))
      | inr ((m, j), copied) ↦
          let result : some (with_mem m k) ≡ some k' = rw (copied, store_args) at e in
          let same : with_mem m k ≡ k' = cc in subst AllSound same sound
    ]

-- The state behind an outcome is sound.
abbrev SoundAfter : Outcome → Type 0
SoundAfter o = AllSound (after o)

run_program-AllSound :
    (f : Frame) (self pid inode : ℕ) (k : Kernel) {o : Outcome}
    → run_program f self pid inode k ≡ some o
    → AllSound k
    → AllSound (after o)
unfolding run_program return_to_user
run_program-AllSound f self pid inode k {o} e sound =
    let mapped = map_process pid k in
    let load = load_program (mem_of mapped) mapped.boot_block inode (user mapped usr_start_addr) in
    let loaded = with_mem (load.1) mapped in
    elim (Bool-cases (eqb_ℤ (load.0) (pos 0))) [
      | inr failed ↦ subst SoundAfter (same_outcome (rw (failed, run_program) at e) refl) sound
      | inl loads ↦
          let e1 = rw (loads, run_program) at e in
          elim (Option-cases (store_args f pid loaded)) [
            | inl endless ↦ absurd (cc (rw endless at e1))
            | inr (k', stored) ↦
                subst SoundAfter (same_outcome (rw stored at e1) refl) (
                  start_process-AllSound self pid k'
                    (store_args-AllSound f pid loaded stored sound))
          ]
    ]

execute-AllSound :
    (f : Frame) (self command : ℕ) (k : Kernel) {o : Outcome}
    → execute f self command k ≡ some o
    → AllSound k
    → AllSound (after o)
unfolding execute
execute-AllSound f self command k {o} e sound =
    let m0 = clear_array args_size (clear_array name_size (mem_of k) f.fname 0) f.args 0 in
    let pid = get_next_pid k.scheduler in
    elim (Bool-cases ((command == 0) || leb max_open_processes pid)) [
      | inl bad ↦ subst SoundAfter (same_outcome (rw (bad, execute) at e) refl) sound
      | inr ok ↦
          let e1 = rw (ok, execute) at e in
          elim (Option-cases (parse_command f (user k command) m0)) [
            | inl endless ↦ absurd (cc (rw (endless, execute) at e1))
            | inr (m1, parsed) ↦
                let e2 = rw (parsed, execute) at e1 in
                elim (Program-cases (find_program f (with_mem m1 k))) [
                  | inl endless ↦ absurd (cc (rw (endless, execute) at e2))
                  | inr (inl (m2, nothing)) ↦
                      subst SoundAfter (same_outcome (rw (nothing, execute) at e2) refl) sound
                  | inr (inr (inode, m2, hit)) ↦
                      run_program-AllSound f self pid inode (with_mem m2 k)
                        (rw (hit, execute) at e2) sound
                ]
          ]
    ]

close_all-AllSound :
    (n self current i : ℕ) (k : Kernel) → AllSound k → AllSound (close_all n self current i k)
unfolding close_all
close_all-AllSound zero self current i k sound = sound
close_all-AllSound (suc n) self current i k sound =
    elim (Bool-cases ((k.file_array current i).flags == 0)) [
      | inl free ↦ rw (free, close_all) sound
      | inr used ↦
          rw (used, close_all)
            (close_all-AllSound n self current (i + 1) (sys_close self (pos i) k).1
              (Changes-Sound self (sys_close-Changes self (pos i) k) sound))
    ]

restart_shell-AllSound :
    (f : Frame) (current : ℕ) (k : Kernel) {o : Outcome}
    → restart_shell f current k ≡ some o
    → AllSound k
    → AllSound (after o)
unfolding restart_shell return_to_user
restart_shell-AllSound f current k {o} e sound =
    elim (Option-cases (printf f.conv_buf f.sorry_text [] k.keyboard.screen)) [
      | inl endless ↦ absurd (cc (rw (endless, restart_shell) at e))
      | inr ((n, screen), printed) ↦
          let shown = record k { keyboard = record (k.keyboard) { screen = screen } } in
          let named = with_mem (store_text (mem_of shown) f.fname shell_text) shown in
          let e1 = rw (printed, restart_shell) at e in
          elim (Program-cases (find_program f named)) [
            | inl endless ↦ absurd (cc (rw (endless, restart_shell) at e1))
            | inr (inl (m, nothing)) ↦
                subst SoundAfter (same_outcome (rw (nothing, restart_shell) at e1) refl) sound
            | inr (inr (inode, m, hit)) ↦
                subst SoundAfter (same_outcome (rw (hit, restart_shell) at e1) refl) sound
          ]
    ]

halt-AllSound :
    (f : Frame) (self status : ℕ) (k : Kernel) {o : Outcome}
    → halt f self status k ≡ some o
    → AllSound k
    → AllSound (after o)
unfolding halt end_process
halt-AllSound f self status k {o} e sound =
    elim (ℤ-cases (k.scheduler.terminal_array k.scheduler.curr_terminal)) [
      | inr (n, nobody) ↦ absurd (cc (rw (nobody, halt) at e))
      | inl (current, runs) ↦
          let e1 = rw (runs, halt) at e in
          elim (ℤ-cases (k.parent_pid current)) [
            | inr (n, orphan) ↦ restart_shell-AllSound f current k (rw (orphan, halt) at e1) sound
            | inl (parent, child) ↦
                subst SoundAfter (same_outcome (rw (child, halt) at e1) refl)
                  (close_all-AllSound max_open_files self current 0 k sound)
          ]
    ]

timer-AllSound : (k : Kernel) {k' : Kernel} → timer k ≡ some k' → AllSound k → AllSound k'
unfolding timer
timer-AllSound k {k'} e sound =
    elim (Option-cases (pit_int (record (k.scheduler) { ports = k.keyboard.ports }))) [
      | inl endless ↦ absurd (cc (rw (endless, timer) at e))
      | inr (s, done) ↦
          let k1 = record k { scheduler = s; keyboard = record (k.keyboard) { ports = s.ports } } in
          let result : some k1 ≡ some k' = rw (done, timer) at e in
          let same : k1 ≡ k' = cc in subst AllSound same sound
    ]

Step-AllSound : {k k' : Kernel} → Step k k' → AllSound k → AllSound k'
Step-AllSound {k} (executes f self command o runs e) sound =
    execute-AllSound f self command k e sound
Step-AllSound {k} (halts f self status o e) sound = halt-AllSound f self status k e sound
Step-AllSound {k} (calls pid c r k' e) sound = Changes-Sound pid (call-Changes pid c k e) sound
Step-AllSound {k} (ticks k' e) sound = timer-AllSound k e sound

-- In every state that the calls of processes and the interrupts of the timer lead to from one in
-- which every descriptor of every process is sound, every one is: it is free, or it is in use and its
-- functions are those of its file type.
pub Reach-AllSound : {k k' : Kernel} → Reach k k' → AllSound k → AllSound k'
Reach-AllSound begun sound = sound
Reach-AllSound (stepped before step) sound = Step-AllSound step (Reach-AllSound before sound)
