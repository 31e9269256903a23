-- ===== src/Process/Outcomes.antt =====
-- What a call of `execute`, `halt` or the timer does to the process tables, on every path.
use ece391_mp.Base.{
  ℕ, ◌<◌, ◌≡◌, ◌≢◌, ◌⊎◌, inl, inr, refl, arith, ap, sym, ◌∙◌, Bool-cases, Option-cases, ◌||◌, leb,
  ◌==◌, Option, none, some,
}
use mathlib.Core.Path.{subst}
use ece391_mp.Base.Int.{pos, negsuc, eqb_ℤ}
use ece391_mp.Base.Mem.{Mem, write}
use ece391_mp.Str.{scan_limit}
use ece391_mp.FileSystem.{load_program, name_size}
use ece391_mp.Scheduler.{max_open_processes}
use ece391_mp.Kernel.{Kernel, mem_of, with_mem, user, pcb_at}
use ece391_mp.Process.{
  Frame, Outcome, returned, entered, resumed, Program, program, no_program, find_program, args_size,
  usr_start_addr, map_process, clear_array, copy_args, get_next_pid, parse_command, store_args,
  return_to_user, run_program, execute, start_process,
}
use ece391_mp.Process.Next.{get_next_pid_lem}
use ece391_mp.Process.Tree.{processes, forked}

-- The state behind a call.
abbrev pub after : Outcome → Kernel
after (returned r k) = k
after (entered eip k) = k
after (resumed r k) = k

-- The number is that of a process that is not active, and all smaller ones are of active processes.
pub record SmallestFree (k : Kernel) (pid : ℕ) : Type 0 where
  pub free : k.scheduler.process_array pid ≡ 0
  pub smaller : (q : ℕ) → q < pid → k.scheduler.process_array q ≢ 0

-- A call of `execute` on the stack of `self`: it fails and leaves the process tables, or it starts a
-- child of `self` with the smallest free number, which has the registers of the call.
pub data Executes (self : ℕ) (k : Kernel) : Outcome → Type 0 where
  refused : (k' : Kernel) → processes k' ≡ processes k → Executes self k (returned (negsuc 0) k')
  started :
      (eip pid : ℕ) (k' : Kernel)
      → pid ≡ get_next_pid k.scheduler
      → pid < max_open_processes
      → SmallestFree k pid
      → processes k' ≡ forked self pid (processes k)
      → k'.parent_esp pid ≡ k.scheduler.esp
      → k'.parent_ebp pid ≡ k.scheduler.ebp
      → Executes self k (entered eip k')

pub Program-cases :
    (o : Option (Program × Mem))
    → (o ≡ none)
      ⊎ (((m : Mem) × (o ≡ some (no_program, m)))
          ⊎ ((inode : ℕ) × (m : Mem) × (o ≡ some (program inode, m))))
Program-cases none = inl refl
Program-cases (some (no_program, m)) = inr (inl (m, refl))
Program-cases (some (program inode, m)) = inr (inr (inode, m, refl))

-- Two results of one call are one.
pub same_outcome : {c : Option Outcome} {o o' : Outcome} → c ≡ some o → c ≡ some o' → o' ≡ o
same_outcome e e' = cc

write_here : (a : ℕ → ℕ) (i v : ℕ) → write a i v i ≡ v
write_here a i v = ground arith

store_args-processes :
    (f : Frame) (pid : ℕ) (k : Kernel) {k' : Kernel}
    → store_args f pid k ≡ some k'
    → (processes k' ≡ processes k)
      × (k'.scheduler.esp ≡ k.scheduler.esp)
      × (k'.scheduler.ebp ≡ k.scheduler.ebp)
unfolding store_args
store_args-processes f pid k {k'} e =
    let cleared = clear_array args_size (mem_of k) (pcb_at pid) 0 in
    elim (Option-cases (copy_args scan_limit cleared (pcb_at pid) f.args 0)) [
      | inl endless ↦ absurd (cc (rw (endless, store_args) at e))
      | inr ((m, j), copied) ↦
          let result : some (with_mem m k) ≡ some k' = rw (copied, store_args) at e in
          let same : with_mem m k ≡ k' = cc in
          let scheduler = ap (λ x. x.scheduler) (sym same) in
          (ap processes (sym same), ap (λ x. x.esp) scheduler, ap (λ x. x.ebp) scheduler)
    ]

next_pid-SmallestFree :
    (pid : ℕ) (k : Kernel)
    → pid ≡ get_next_pid k.scheduler
    → pid < max_open_processes
    → SmallestFree k pid
next_pid-SmallestFree pid k is lt =
    let (high, taken, free) = get_next_pid_lem k.scheduler in
    subst (SmallestFree k) (sym is)
      (record { free = free (omega (arith, is, lt)); smaller = taken })

run_program-Executes :
    (f : Frame) (self pid inode : ℕ) (k0 k : Kernel) {o : Outcome}
    → processes k ≡ processes k0
    → k.scheduler.esp ≡ k0.scheduler.esp
    → k.scheduler.ebp ≡ k0.scheduler.ebp
    → pid ≡ get_next_pid k0.scheduler
    → pid < max_open_processes
    → run_program f self pid inode k ≡ some o
    → Executes self k0 o
unfolding run_program return_to_user start_process
run_program-Executes f self pid inode k0 k {o} same esp ebp is lt e =
    let mapped = map_process pid k in
    let load = load_program (mem_of mapped) mapped.boot_block inode (user mapped usr_start_addr) in
    let loaded = with_mem (load.1) mapped in
    elim (Bool-cases (eqb_ℤ (load.0) (pos 0))) [
      | inr failed ↦
          let e1 = rw (failed, run_program) at e in
          subst (Executes self k0) (same_outcome e1 refl) (refused loaded same)
      | inl loads ↦
          let e1 = rw (loads, run_program) at e in
          elim (Option-cases (store_args f pid loaded)) [
            | inl endless ↦ absurd (cc (rw endless at e1))
            | inr (k', stored) ↦
                let (kept, kept_esp, kept_ebp) = store_args-processes f pid loaded stored in
                subst (Executes self k0) (same_outcome (rw stored at e1) refl) (
                  started _ pid _ is lt (next_pid-SmallestFree pid k0 is lt)
                    (ap (forked self pid) (kept ∙ same))
                    (write_here k'.parent_esp pid k'.scheduler.esp ∙ kept_esp ∙ esp)
                    (write_here k'.parent_ebp pid k'.scheduler.ebp ∙ kept_ebp ∙ ebp))
          ]
    ]

-- A call of `execute` that ends fails with the process tables as they were, or enters a child of
-- `self` on the terminal of `self`, whose number is below 6, not that of an active process, and the
-- smallest such, and which has the stack registers of the call saved for its return.
pub execute-Executes :
    (f : Frame) (self command : ℕ) (k : Kernel) {o : Outcome}
    → execute f self command k ≡ some o
    → Executes self k o
unfolding execute
execute-Executes f self command k {o} e =
    let m0 = clear_array args_size (clear_array name_size (mem_of k) f.fname 0) f.args 0 in
    let pid = get_next_pid k.scheduler in
    elim (Bool-cases ((command == 0) || leb max_open_processes pid)) [
      | inl bad ↦
          subst (Executes self k) (same_outcome (rw (bad, execute) at e) refl)
            (refused (with_mem m0 k) refl)
      | inr ok ↦
          let e1 = rw (ok, execute) at e in
          elim (Option-cases (parse_command f (user k command) m0)) [
            | inl endless ↦ absurd (cc (rw (endless, execute) at e1))
            | inr (m1, parsed) ↦
                let e2 = rw (parsed, execute) at e1 in
                elim (Program-cases (find_program f (with_mem m1 k))) [
                  | inl endless ↦ absurd (cc (rw (endless, execute) at e2))
                  | inr (inl (m2, nothing)) ↦
                      subst (Executes self k) (same_outcome (rw (nothing, execute) at e2) refl)
                        (refused (with_mem m2 k) refl)
                  | inr (inr (inode, m2, hit)) ↦
                      run_program-Executes f self pid inode k (with_mem m2 k) refl refl refl refl
                        (ground (arith, ok)) (rw (hit, execute) at e2)
                ]
          ]
    ]
