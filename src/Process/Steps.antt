-- ===== src/Process/Steps.antt =====
-- The process tables in every state that calls and interrupts lead to.
use ece391_mp.Base.{ℕ, ◌<◌, ◌≡◌, arith, sym, true, some}
use mathlib.Core.Path.{subst}
use ece391_mp.Base.Int.{ℤ, pos}
use ece391_mp.Scheduler.{Scheduler, is_leaf}
use ece391_mp.Kernel.{Kernel}
use ece391_mp.Descriptors.Table.{Call, call}
use ece391_mp.Process.{Frame, Outcome, execute}
use ece391_mp.Process.Halt.{halt, timer}
use ece391_mp.Process.Tree.{processes, Forest, forked-Forest, pruned-Forest, switched-Forest}
use ece391_mp.Process.Next.{get_next_pid_lem}
use ece391_mp.Process.Outcomes.{after, Executes, refused, started, execute-Executes}
use ece391_mp.Process.Ends.{
  Halts, refused as halt_refused, removed, restarted, halt-Halts, Ticks, stays, moves, timer-Ticks,
}
use ece391_mp.Process.Calls.{call-processes}

-- One step of the system: the current process calls `execute`, `halt` or a function on a descriptor,
-- and the call ends; or the timer interrupts.
pub data Step (k : Kernel) : Kernel → Type 0 where
  executes :
      (f : Frame) (self command : ℕ) (o : Outcome)
      → k.scheduler.terminal_array k.scheduler.curr_terminal ≡ pos self
      → execute f self command k ≡ some o
      → Step k (after o)
  halts :
      (f : Frame) (self status : ℕ) (o : Outcome) → halt f self status k ≡ some o → Step k (after o)
  calls : (pid : ℕ) (c : Call) (r : ℤ) (k' : Kernel) → call pid c k ≡ some (r, k') → Step k k'
  ticks : (k' : Kernel) → timer k ≡ some k' → Step k k'

pub data Reach (k : Kernel) : Kernel → Type 0 where
  begun : Reach k k
  stepped : {k1 k2 : Kernel} → Reach k k1 → Step k1 k2 → Reach k k2

Executes-Forest :
    (self : ℕ) (k : Kernel) {o : Outcome}
    → k.scheduler.terminal_array k.scheduler.curr_terminal ≡ pos self
    → Executes self k o
    → Forest (processes k)
    → Forest (processes (after o))
Executes-Forest self k runs (refused k' e) forest = subst Forest (sym e) forest
Executes-Forest self k runs (started eip pid k' is lt least e esp ebp) forest =
    let (low, taken, free) = get_next_pid_lem k.scheduler in
    let idle : k.scheduler.process_array pid ≡ 0 = rw is (free (omega (arith, is, lt))) in
    subst Forest (sym e) (forked-Forest self pid (processes k) forest runs lt idle)

Halts-Forest :
    (k : Kernel) {o : Outcome} → Halts k o → Forest (processes k) → Forest (processes (after o))
Halts-Forest k (halt_refused k' e) forest = subst Forest (sym e) forest
Halts-Forest k (restarted eip k' e) forest = subst Forest (sym e) forest
Halts-Forest k (removed current parent k' runs child e) forest =
    subst Forest (sym e) (pruned-Forest current parent (processes k) forest runs child)

is_leaf-active : (s : Scheduler) (p : ℕ) → is_leaf s p ≡ true → 0 < s.process_array p
unfolding is_leaf
is_leaf-active s p e = ground (arith, e)

Ticks-Forest :
    (k : Kernel) {k' : Kernel} → Ticks k k' → Forest (processes k) → Forest (processes k')
Ticks-Forest k (stays e) forest = subst Forest (sym e) forest
Ticks-Forest k (moves to lt runs e) forest =
    subst Forest (sym e)
      (switched-Forest to (processes k) forest lt (is_leaf-active k.scheduler to runs))

Step-Forest : {k k' : Kernel} → Step k k' → Forest (processes k) → Forest (processes k')
Step-Forest {k} (executes f self command o runs e) forest =
    Executes-Forest self k runs (execute-Executes f self command k e) forest
Step-Forest {k} (halts f self status o e) forest =
    Halts-Forest k (halt-Halts f self status k e) forest
Step-Forest {k} (calls pid c r k' e) forest = subst Forest (sym (call-processes pid c k e)) forest
Step-Forest {k} (ticks k' e) forest =
    let (current, runs, lt, leaf, on) = forest.front k.scheduler.curr_terminal forest.current in
    let (k1, e1, tick) = timer-Ticks k current runs lt in
    let same : k1 ≡ k' = cc in subst (λ x. Forest (processes x)) same (Ticks-Forest k tick forest)

-- In every state that calls and interrupts lead to from one whose process tables are a forest, they
-- are one: each terminal has exactly one active process without a child, the one in
-- `terminal_array`, and the parent of an active process is active, waits on the same terminal, and
-- has no other child.
pub Reach-Forest : {k k' : Kernel} → Reach k k' → Forest (processes k) → Forest (processes k')
Reach-Forest begun forest = forest
Reach-Forest (stepped before step) forest = Step-Forest step (Reach-Forest before forest)
