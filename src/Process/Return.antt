-- ===== src/Process/Return.antt =====
-- A child process that is started and ends.
use ece391_mp.Base.{ℕ, ◌<◌, ◌≡◌, refl, arith, ap, sym, ◌∙◌, some}
use mathlib.Core.Path.{subst}
use ece391_mp.Base.Int.{pos}
use ece391_mp.Kernel.{Kernel}
use ece391_mp.Descriptors.{max_open_files}
use ece391_mp.Process.{Frame, entered, resumed, execute, get_next_pid}
use ece391_mp.Process.Halt.{halt, end_process}
use ece391_mp.Process.Tree.{Processes, processes, Forest, Forest-current, Active, forked, pruned}
use ece391_mp.Process.Outcomes.{started, execute-Executes}
use ece391_mp.Process.Ends.{close_all-files}

-- The tables agree: the same processes are active, the same one is on each terminal, and an active
-- process has the same fields.
pub record Restored (s s' : Processes) : Type 0 where
  pub actives : (p : ℕ) → s'.process_array p ≡ s.process_array p
  pub fronts : (t : ℕ) → t < 3 → s'.terminal_array t ≡ s.terminal_array t
  pub turn : s'.curr_terminal ≡ s.curr_terminal
  pub leaves :
      (p : ℕ) → p < 6 → Active s p → (0 < s'.leaf p → 0 < s.leaf p) × (0 < s.leaf p → 0 < s'.leaf p)
  pub terminals : (p : ℕ) → p < 6 → Active s p → s'.terminal p ≡ s.terminal p
  pub parents : (p : ℕ) → p < 6 → Active s p → s'.parent_pid p ≡ s.parent_pid p

pruned-forked :
    (self pid : ℕ) (s : Processes)
    → s.process_array pid ≡ 0
    → s.terminal_array s.curr_terminal ≡ pos self
    → s.terminal self ≡ s.curr_terminal
    → 0 < s.process_array self
    → 0 < s.leaf self
    → Restored s (pruned pid self (forked self pid s))
pruned-forked self pid s free runs on active leaf = record {
  actives = λ p. ground (arith, free);
  fronts = λ t lt. ground (arith, runs, on);
  turn = refl;
  leaves = λ p lt a. ground (arith, free, leaf);
  terminals = λ p lt a. ground (arith, free);
  parents = λ p lt a. ground (arith, free);
}

forked-current :
    (self pid : ℕ) (s : Processes) → (forked self pid s).terminal_array s.curr_terminal ≡ pos pid
forked-current self pid s = ground arith

forked-parent : (self pid : ℕ) (s : Processes) → (forked self pid s).parent_pid pid ≡ pos self
forked-parent self pid s = ground arith

halt-end_process :
    (f : Frame) (self current parent status : ℕ) (k : Kernel)
    → k.scheduler.terminal_array k.scheduler.curr_terminal ≡ pos current
    → k.parent_pid current ≡ pos parent
    → halt f self status k ≡ some (end_process self current parent k)
unfolding halt
halt-end_process f self current parent status k runs child = rw (runs, halt) (rw (child, halt) refl)

-- While the process tables are a forest, let `execute` start a child for the current process. A halt
-- of the child, in any state with the process tables and the saved stack registers that `execute`
-- left, whatever its descriptors, its memory, its status and its frame, brings back the process
-- tables from before the call; the parent's `execute` returns 0, with the registers of the call.
pub halt-execute :
    (f f' : Frame) (self command status : ℕ) (k : Kernel) {eip : ℕ} {k1 : Kernel} (now : Kernel)
    → Forest (processes k)
    → k.scheduler.terminal_array k.scheduler.curr_terminal ≡ pos self
    → execute f self command k ≡ some (entered eip k1)
    → processes now ≡ processes k1
    → now.parent_esp ≡ k1.parent_esp
    → now.parent_ebp ≡ k1.parent_ebp
    → (k2 : Kernel) × (halt f' (get_next_pid k.scheduler) status now ≡ some (resumed (pos 0) k2))
      × Restored (processes k) (processes k2)
      × (k2.scheduler.esp ≡ k.scheduler.esp)
      × (k2.scheduler.ebp ≡ k.scheduler.ebp)
unfolding end_process
halt-execute f f' self command status k {eip} {k1} now forest runs e kept kept_esp kept_ebp =
    elim (execute-Executes f self command k e) [
      | started eip pid k1 is lt least same0 esp ebp ↦
          let same : processes now ≡ forked self pid (processes k) = kept ∙ same0 in
          let (self_lt, (active, leaf), on) = Forest-current self (processes k) forest runs in
          let runs1 : now.scheduler.terminal_array now.scheduler.curr_terminal ≡ pos pid =
            ap (λ s. s.terminal_array s.curr_terminal) same
            ∙ forked-current self pid (processes k) in
          let child : now.parent_pid pid ≡ pos self =
            ap (λ s. s.parent_pid pid) same ∙ forked-parent self pid (processes k) in
          let closed = close_all-files max_open_files (get_next_pid k.scheduler) pid 0 now in
          let back = pruned-forked self pid (processes k) least.free runs on active leaf in
          (
            _,
            halt-end_process f' (get_next_pid k.scheduler) pid self status now runs1 child,
            subst (Restored (processes k))
                (sym ((ap (λ x. pruned pid self (processes x)) closed) ∙ ap (pruned pid self) same))
                back,
            ap (λ x. x.parent_esp pid) closed ∙ ap (λ r. r pid) kept_esp ∙ esp,
            ap (λ x. x.parent_ebp pid) closed ∙ ap (λ r. r pid) kept_ebp ∙ ebp,
          )
    ]
