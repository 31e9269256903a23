-- ===== src/Process/Tree.antt =====
-- The process tables as a forest: what `execute`, `halt` and the timer keep of it.
use ece391_mp.Base.{
  ℕ, ◌<◌, ◌≡◌, ◌≢◌, inl, inr, arith, ap, sym, ◌∙◌, Bool-cases, ◌==◌, if◌then◌else◌,
}
use mathlib.Core.Path.{subst}
use ece391_mp.Base.Int.{ℤ, pos}
use ece391_mp.Base.Mem.{write}
use ece391_mp.Kernel.{Kernel}

-- The process tables: the two arrays, the current terminal, and the fields of the process control
-- blocks that link the processes.
pub record Processes : Type 0 where
  pub process_array : ℕ → ℕ
  pub terminal_array : ℕ → ℤ
  pub curr_terminal : ℕ
  pub leaf : ℕ → ℕ
  pub terminal : ℕ → ℕ
  pub parent_pid : ℕ → ℤ

abbrev pub processes : Kernel → Processes
processes k = record {
  process_array = k.scheduler.process_array;
  terminal_array = k.scheduler.terminal_array;
  curr_terminal = k.scheduler.curr_terminal;
  leaf = k.scheduler.leaf;
  terminal = k.scheduler.terminal;
  parent_pid = k.parent_pid;
}

-- The process is active, and it is active without a child.
abbrev pub Active : Processes → ℕ → Type 0
Active s p = 0 < s.process_array p

abbrev pub Leaf : Processes → ℕ → Type 0
Leaf s p = (0 < s.process_array p) × (0 < s.leaf p)

-- Each of the three terminals has one active process without a child, which is the one in
-- `terminal_array`; the parent of an active process is active, is not such a process, is on the same
-- terminal and has one child.
pub record Forest (s : Processes) : Type 0 where
  pub current : s.curr_terminal < 3
  pub placed : (p : ℕ) → p < 6 → Active s p → s.terminal p < 3
  pub front :
      (t : ℕ)
      → t < 3
      → (p : ℕ) × (s.terminal_array t ≡ pos p) × (p < 6) × Leaf s p × (s.terminal p ≡ t)
  pub only : (p : ℕ) → p < 6 → Leaf s p → s.terminal_array (s.terminal p) ≡ pos p
  pub parents :
      (p q : ℕ)
      → p < 6
      → Active s p
      → s.parent_pid p ≡ pos q
      → (q < 6) × Active s q × (s.leaf q ≡ 0) × (s.terminal q ≡ s.terminal p)
  pub one_child :
      (p p' q : ℕ)
      → p < 6
      → p' < 6
      → Active s p
      → Active s p'
      → s.parent_pid p ≡ pos q
      → s.parent_pid p' ≡ pos q
      → p ≡ p'

pos_inj : {m n : ℕ} → pos m ≡ pos n → m ≡ n
pos_inj e = cc

-- The process on the current terminal.
pub Forest-current :
    (self : ℕ) (s : Processes)
    → Forest s
    → s.terminal_array s.curr_terminal ≡ pos self
    → (self < 6) × Leaf s self × (s.terminal self ≡ s.curr_terminal)
Forest-current self s f at =
    let (front, shown, lt, leaf, on) = f.front s.curr_terminal f.current in
    let same : front ≡ self = pos_inj (sym shown ∙ at) in
    subst (λ q. (q < 6) × Leaf s q × (s.terminal q ≡ s.curr_terminal)) same (lt, leaf, on)

-- The tables as `execute` leaves them.
abbrev pub forked : ℕ → ℕ → Processes → Processes
forked self pid s = record s {
  process_array = write s.process_array pid 1;
  terminal_array = λ u.
      if u == s.terminal self
      then pos pid
      else if u == s.curr_terminal
      then pos pid
      else s.terminal_array u;
  terminal = write s.terminal pid (s.terminal self);
  leaf = write (write s.leaf self 0) pid 1;
  parent_pid = λ p. if p == pid then pos self else s.parent_pid p;
}

pub forked-Forest :
    (self pid : ℕ) (s : Processes)
    → Forest s
    → s.terminal_array s.curr_terminal ≡ pos self
    → pid < 6
    → s.process_array pid ≡ 0
    → Forest (forked self pid s)
forked-Forest self pid s f at lt free =
    let (self_lt, (active, leaf), on) = Forest-current self s f at in
    let differs : self ≢ pid =
      λ e. absurd (omega (arith, active, subst (λ q. s.process_array q ≡ 0) (sym e) free)) in
    record {
      current = f.current;
      placed = λ p p_lt a. ground (arith, f.placed p, a, f.placed self, active, self_lt, f.current);
      front = λ t t_lt. elim (Bool-cases (t == s.curr_terminal)) [
        | inl here ↦ (pid, ground (arith), ground (arith), ground (arith), ground (arith))
        | inr other ↦
            let (p, at_p, p_lt, (a, l), on_p) = f.front t t_lt in
            let p_pid : p ≢ pid = ground (arith) in
            let p_self : p ≢ self = λ e.
              let same_t : s.terminal p ≡ s.terminal self = ap s.terminal e in
              absurd (ground (arith)) in
            (p, ground (arith), p_lt, ground (arith), ground (arith))
      ];
      only = λ p p_lt a. ground (arith, f.only p p_lt);
      parents = λ p q p_lt a e. ground (arith, f.parents p q p_lt);
      one_child = λ p p' q p_lt p_lt' a a' e e'.
          ground
            (arith, f.one_child p p' q p_lt p_lt', f.parents p self p_lt, f.parents p' self p_lt');
    }

-- The tables as `halt` leaves them.
abbrev pub pruned : ℕ → ℕ → Processes → Processes
pruned current parent s = record s {
  process_array = write s.process_array current 0;
  terminal_array = λ u. if u == s.curr_terminal then pos parent else s.terminal_array u;
  leaf = write s.leaf parent 1;
}

pub pruned-Forest :
    (current q : ℕ) (s : Processes)
    → Forest s
    → s.terminal_array s.curr_terminal ≡ pos current
    → s.parent_pid current ≡ pos q
    → Forest (pruned current q s)
pruned-Forest current q s f at child =
    let (c_lt, (active, leaf), on) = Forest-current current s f at in
    let (q_lt, q_active, q_leaf, q_on) = f.parents current q c_lt active child in
    let apart : q ≢ current =
      λ e. absurd (omega (arith, leaf, subst (λ p. s.leaf p ≡ 0) e q_leaf)) in
    record {
      current = f.current;
      placed = λ p p_lt a. ground (arith, f.placed p p_lt);
      front = λ t t_lt. elim (Bool-cases (t == s.curr_terminal)) [
        | inl here ↦ (q, ground (arith), q_lt, ground (arith), ground (arith))
        | inr other ↦
            let (p, at_p, p_lt, (a, l), on_p) = f.front t t_lt in
            let differs : p ≢ current = λ e.
              let same_t : s.terminal p ≡ s.terminal current = ap s.terminal e in
              absurd (ground (arith)) in
            (p, ground (arith), p_lt, ground (arith), on_p)
      ];
      only = λ p p_lt l. elim (Bool-cases (p == q)) [
        | inl here ↦
            let p_is : p ≡ q = ground arith in
            let p_on : s.terminal p ≡ s.terminal q = ap s.terminal p_is in ground arith
        | inr other ↦
            let p_current : p ≢ current = λ e. absurd (ground arith) in
            let old = f.only p p_lt (ground arith, ground arith) in
            let away : s.terminal p ≢ s.curr_terminal =
              λ e. p_current (pos_inj (sym old ∙ ap s.terminal_array e ∙ at)) in
            ground (arith, old, away)
      ];
      parents =
          λ p r p_lt a e. ground (arith, f.parents p r p_lt, f.one_child p current r p_lt c_lt);
      one_child = λ p p' r p_lt p_lt' a a' e e'. ground (arith, f.one_child p p' r p_lt p_lt');
    }

-- The tables as a switch of the timer to `next` leaves them.
abbrev pub switched : ℕ → Processes → Processes
switched next s = record s { curr_terminal = s.terminal next }

pub switched-Forest :
    (next : ℕ) (s : Processes) → Forest s → next < 6 → Active s next → Forest (switched next s)
switched-Forest next s f lt active = record {
  current = f.placed next lt active;
  placed = f.placed;
  front = f.front;
  only = f.only;
  parents = f.parents;
  one_child = f.one_child;
}
