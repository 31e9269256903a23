-- ===== src/Process/Ends.antt =====
-- What a call of `halt` and the interrupt of the timer do to the process tables.
use ece391_mp.Base.{
  ℕ, zero, suc, ◌+◌, ◌<◌, ◌≡◌, ◌⊎◌, inl, inr, refl, arith, ap, ◌∙◌, Bool, true, Bool-cases,
  Option-cases, ◌==◌, if◌then◌else◌, Option, some, [],
}
use mathlib.Core.Path.{subst}
use ece391_mp.Base.Int.{ℤ, pos, negsuc}
use ece391_mp.Printf.{printf}
use ece391_mp.Scheduler.{Scheduler, is_leaf, pit_int, switch_to}
use ece391_mp.Scheduler.Turns.{turn, entered as asked, pit_int_lem}
use ece391_mp.Kernel.{Kernel, mem_of, with_mem}
use ece391_mp.Descriptors.{max_open_files, sys_close}
use ece391_mp.Process.{Frame, Outcome, returned, entered, resumed, find_program, return_to_user}
use ece391_mp.Process.Halt.{
  store_text, shell_text, close_all, restart_shell, end_process, halt, timer,
}
use ece391_mp.Process.Tree.{processes, pruned, switched}
use ece391_mp.Process.Outcomes.{Program-cases, same_outcome}

pub ℤ-cases : (i : ℤ) → ((n : ℕ) × (i ≡ pos n)) ⊎ ((n : ℕ) × (i ≡ negsuc n))
ℤ-cases (pos n) = inl (n, refl)
ℤ-cases (negsuc n) = inr (n, refl)

pub sys_close-processes :
    (pid : ℕ) (fd : ℤ) (k : Kernel) → processes (sys_close pid fd k).1 ≡ processes k
unfolding sys_close
sys_close-processes pid (negsuc n) k = refl
sys_close-processes pid (pos fd) k = ground arith

-- `k` with the descriptors of `k'`
abbrev with_files : Kernel → Kernel → Kernel
with_files k' k = record k { file_array = k'.file_array }

sys_close-files :
    (pid : ℕ) (fd : ℤ) (k : Kernel) → (sys_close pid fd k).1 ≡ with_files ((sys_close pid fd k).1) k
unfolding sys_close
sys_close-files pid (negsuc n) k = refl
sys_close-files pid (pos fd) k = ground arith

-- The loop of `halt` changes descriptors only.
pub close_all-files :
    (n self current i : ℕ) (k : Kernel)
    → close_all n self current i k ≡ with_files (close_all n self current i k) k
unfolding close_all
close_all-files zero self current i k = refl
close_all-files (suc n) self current i k = elim (Bool-cases ((k.file_array current i).flags == 0)) [
  | inl free ↦ rw (free, close_all) refl
  | inr used ↦
      let k1 = (sys_close self (pos i) k).1 in
      let rest = close_all n self current (i + 1) k1 in
      let step : rest ≡ with_files rest k =
        close_all-files n self current (i + 1) k1
        ∙ ap (with_files rest) (sys_close-files self (pos i) k) in
      rw (used, close_all) step
]

-- A call of `halt` on the current process: without a parent it fails or enters the shell again, and
-- leaves the process tables; with one, the process is removed, its parent has the terminal, and the
-- parent's `execute` returns 0.
pub data Halts (k : Kernel) : Outcome → Type 0 where
  refused : (k' : Kernel) → processes k' ≡ processes k → Halts k (returned (negsuc 0) k')
  restarted : (eip : ℕ) (k' : Kernel) → processes k' ≡ processes k → Halts k (entered eip k')
  removed :
      (current parent : ℕ) (k' : Kernel)
      → k.scheduler.terminal_array k.scheduler.curr_terminal ≡ pos current
      → k.parent_pid current ≡ pos parent
      → processes k' ≡ pruned current parent (processes k)
      → Halts k (resumed (pos 0) k')

restart_shell-Halts :
    (f : Frame) (current : ℕ) (k : Kernel) {o : Outcome}
    → restart_shell f current k ≡ some o
    → Halts k o
unfolding restart_shell return_to_user
restart_shell-Halts f current k {o} e =
    elim (Option-cases (printf f.conv_buf f.sorry_text [] k.keyboard.screen)) [
      | inl endless ↦ absurd (cc (rw (endless, restart_shell) at e))
      | inr ((n, screen), printed) ↦
          let shown = record k { keyboard = record (k.keyboard) { screen = screen } } in
          let named = with_mem (store_text (mem_of shown) f.fname shell_text) shown in
          let e1 = rw (printed, restart_shell) at e in
          elim (Program-cases (find_program f named)) [
            | inl endless ↦ absurd (cc (rw (endless, restart_shell) at e1))
            | inr (inl (m, nothing)) ↦
                subst (Halts k) (same_outcome (rw (nothing, restart_shell) at e1) refl)
                  (refused (with_mem m named) refl)
            | inr (inr (inode, m, hit)) ↦
                subst (Halts k) (same_outcome (rw (hit, restart_shell) at e1) refl)
                  (restarted _ _ refl)
          ]
    ]

end_process-processes :
    (self current parent : ℕ) (k k1 : Kernel)
    → processes k1 ≡ processes k
    → pruned current parent (processes k1) ≡ pruned current parent (processes k)
end_process-processes self current parent k k1 e = ap (pruned current parent) e

-- A call of `halt` that ends does one of the three.
pub halt-Halts :
    (f : Frame) (self status : ℕ) (k : Kernel) {o : Outcome}
    → halt f self status k ≡ some o
    → Halts k o
unfolding halt end_process
halt-Halts f self status k {o} e =
    elim (ℤ-cases (k.scheduler.terminal_array k.scheduler.curr_terminal)) [
      | inr (n, nobody) ↦ absurd (cc (rw (nobody, halt) at e))
      | inl (current, runs) ↦
          let e1 = rw (runs, halt) at e in
          elim (ℤ-cases (k.parent_pid current)) [
            | inr (n, orphan) ↦ restart_shell-Halts f current k (rw (orphan, halt) at e1)
            | inl (parent, child) ↦ subst (Halts k) (same_outcome (rw (child, halt) at e1) refl) (
                removed current parent _ runs child (
                  ap (pruned current parent)
                    (ap processes (close_all-files max_open_files self current 0 k))))
          ]
    ]

-- The interrupt of the timer leaves the process tables, or makes the terminal of an active process
-- without a child the current one.
pub data Ticks (k k' : Kernel) : Type 0 where
  stays : processes k' ≡ processes k → Ticks k k'
  moves :
      (next : ℕ)
      → next < 6
      → is_leaf k.scheduler next ≡ true
      → processes k' ≡ switched next (processes k)
      → Ticks k k'

abbrev pub ticked : Kernel → Scheduler → Kernel
ticked k s = record k { scheduler = s; keyboard = record (k.keyboard) { ports = s.ports } }

abbrev pub ready : Kernel → Scheduler
ready k = record (k.scheduler) { ports = k.keyboard.ports }

pub timer-pit_int :
    (k : Kernel) {s : Scheduler} → pit_int (ready k) ≡ some s → timer k ≡ some (ticked k s)
unfolding timer
timer-pit_int k e = rw (e, timer) refl

pub some_if_chosen :
    {b c : Bool} (x y : Scheduler) {o : Option Scheduler}
    → o ≡ some (if b then x else y)
    → b ≡ c
    → o ≡ some (if c then x else y)
some_if_chosen x y {o} e same = subst (λ b. o ≡ some (if b then x else y)) same e

-- While a process below 6 is on the current terminal, the interrupt of the timer returns; it leaves
-- the process tables, or it makes the terminal of an active process without a child the current one.
pub timer-Ticks :
    (k : Kernel) (current : ℕ)
    → k.scheduler.terminal_array k.scheduler.curr_terminal ≡ pos current
    → current < 6
    → (k' : Kernel) × (timer k ≡ some k') × Ticks k k'
unfolding is_leaf switch_to
timer-Ticks k current runs lt =
    let (e, chosen, run) = pit_int_lem (ready k) current runs lt in
    elim (Bool-cases (turn current e == current)) [
      | inl same ↦
          (ticked k (asked (ready k)), timer-pit_int k (some_if_chosen _ _ run same), stays refl)
      | inr other ↦ (
        ticked k (switch_to current (turn current e) (asked (ready k))),
        timer-pit_int k (some_if_chosen _ _ run other),
        moves (turn current e) (omega arith)
            (elim chosen.runs [
              | inl last ↦ absurd (ground (arith, last, other))
              | inr runs_next ↦ runs_next
            ])
            refl,
      )
    ]
