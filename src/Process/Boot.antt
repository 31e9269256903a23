-- ===== src/Process/Boot.antt =====
-- The process tables behind `execute_shells`: a shell on each terminal.
use ece391_mp.Base.{
  ℕ, zero, suc, ◌<◌, ◌≤◌, ◌≡◌, inl, inr, refl, arith, ap, sym, ◌∙◌, true, Bool-cases, ◌==◌,
  if◌then◌else◌, Option, some,
}
use mathlib.Core.Path.{subst}
use ece391_mp.Base.Int.{pos, negsuc, eqb_ℤ}
use ece391_mp.Base.Mem.{write}
use ece391_mp.FileSystem.{inode_num, read_dentry_by_name, file_read, load_program}
use ece391_mp.Kernel.{Kernel, mem_of, with_mem, user}
use ece391_mp.Descriptors.Opening.{Lookup-cases}
use ece391_mp.Process.{Frame, Outcome, entered, return_to_user, usr_start_addr, bufsize}
use ece391_mp.Process.Halt.{
  store_text, shell_text, num_terminals, claim_terminal, set_shell, start_shells, enter_shell,
  execute_shells,
}
use ece391_mp.Process.Tree.{Processes, processes, Forest}

-- The tables with a shell on terminal `i`, and on the terminals below `n`.
abbrev with_shell : ℕ → Processes → Processes
with_shell i s = record s {
  process_array = write s.process_array i 1;
  terminal_array = λ u. if u == i then pos i else s.terminal_array u;
  leaf = write s.leaf i 1;
  terminal = write s.terminal i i;
  parent_pid = λ p. if p == i then negsuc 0 else s.parent_pid p;
}

unfoldable with_shells : ℕ → Processes → Processes
with_shells zero s = s
with_shells (suc i) s = with_shells i (with_shell i s)

start_shells-processes :
    (n inode : ℕ) (k : Kernel)
    → (start_shells n inode k).0 ≡ true
    → processes (start_shells n inode k).1 ≡ with_shells n (processes k)
unfolding start_shells with_shells
start_shells-processes zero inode k e = refl
start_shells-processes (suc i) inode k e =
    let claimed = claim_terminal i k in
    let load =
      load_program (mem_of claimed) claimed.boot_block inode (user claimed usr_start_addr) in
    elim (Bool-cases (eqb_ℤ (load.0) (pos 0))) [
      | inl loads ↦
          rw (loads, start_shells)
            (start_shells-processes i inode (set_shell i (with_mem (load.1) claimed))
              (rw (loads, start_shells) at e))
      | inr failed ↦ absurd (cc (rw (failed, start_shells) at e))
    ]

-- The processes behind the three shells are not active.
abbrev pub Idle : Processes → Type 0
Idle s = (p : ℕ) → 3 ≤ p → p < 6 → s.process_array p ≡ 0

-- The shells 0, 1 and 2 are active on the terminals 0, 1 and 2, have no parent and no child, and
-- terminal 0 is the current one.
pub record Shells (s : Processes) : Type 0 where
  pub current : s.curr_terminal ≡ 0
  pub front : (t : ℕ) → t < 3 → s.terminal_array t ≡ pos t
  pub active : (t : ℕ) → t < 3 → (s.process_array t ≡ 1) × (s.leaf t ≡ 1)
  pub on : (t : ℕ) → t < 3 → s.terminal t ≡ t
  pub orphan : (t : ℕ) → t < 3 → s.parent_pid t ≡ negsuc 0

with_shells-Shells : (s : Processes) → Shells (record (with_shells 3 s) { curr_terminal = 0 })
unfolding with_shells
with_shells-Shells s = record {
  current = refl;
  front = λ t lt. ground arith;
  active = λ t lt. (ground arith, ground arith);
  on = λ t lt. ground arith;
  orphan = λ t lt. ground arith;
}

shells-Forest : (s : Processes) → Idle s → Forest (record (with_shells 3 s) { curr_terminal = 0 })
unfolding with_shells
shells-Forest s idle = record {
  current = omega arith;
  placed = λ p lt a. ground (arith, idle p);
  front = λ t lt. (t, ground (arith), omega arith, ground (arith), ground (arith));
  only = λ p lt l. ground (arith, idle p);
  parents = λ p q lt a e. ground (arith, idle p);
  one_child = λ p p' q lt lt' a a' e e'. ground (arith, idle p, idle p');
}

-- `curr_terminal = pcb->terminal`
abbrev with_current : Processes → Processes
with_current s = record s { curr_terminal = s.terminal 0 }

kernel_of :
    {o : Option Outcome} {eip eip' : ℕ} {k k' : Kernel}
    → o ≡ some (entered eip k)
    → o ≡ some (entered eip' k')
    → k ≡ k'
kernel_of e e' = cc

-- When `execute_shells` enters user code, and the processes behind the first three were not active,
-- the process tables are a forest, of the shells 0, 1 and 2 on their terminals.
pub execute_shells-Forest :
    (f : Frame) (k : Kernel) {eip : ℕ} {k' : Kernel}
    → execute_shells f k ≡ some (entered eip k')
    → Idle (processes k)
    → Forest (processes k') × Shells (processes k')
unfolding execute_shells enter_shell return_to_user with_shells
execute_shells-Forest f k {eip} {k'} e idle =
    let named = with_mem (store_text (mem_of k) f.fname shell_text) k in
    elim (Lookup-cases (read_dentry_by_name (mem_of named) named.boot_block f.fname 1)) [
      | inl endless ↦ absurd (cc (rw (endless, execute_shells) at e))
      | inr (inl nowhere) ↦ absurd (cc (rw (nowhere, execute_shells) at e))
      | inr (inr (entry, hit)) ↦
          let e1 = rw (hit, execute_shells) at e in
          let inode = inode_num (mem_of named) entry in
          let head = file_read (mem_of named) named.boot_block inode f.buf bufsize 0 in
          let begun = with_mem (head.1) named in
          let shells = start_shells num_terminals inode begun in
          elim (Bool-cases (eqb_ℤ (head.0) (pos 0))) [
            | inl empty ↦ absurd (cc (rw empty at e1))
            | inr some_bytes ↦
                let e2 = rw some_bytes at e1 in
                elim (Bool-cases (shells.0)) [
                  | inr failed ↦ absurd (cc (rw failed at e2))
                  | inl loaded ↦
                      let e3 : some (enter_shell (shells.1)) ≡ some (entered eip k') =
                        rw loaded at e2 in
                      let tables = start_shells-processes num_terminals inode begun loaded in
                      let last : with_current (with_shells 3 (processes k)) ≡ processes k' =
                        sym (ap with_current tables) ∙ ap processes (kernel_of refl e3) in
                      (
                        subst Forest last (shells-Forest (processes k) idle),
                        subst Shells last (with_shells-Shells (processes k)),
                      )
                ]
          ]
    ]
