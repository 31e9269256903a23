-- ===== src/Scheduler/Turns.antt =====
-- Whose turn it is: the processes take turns in the order of their numbers.
use ece391_mp.Base.{
  ℕ, zero, suc, ◌+◌, ◌%◌, ◌<◌, ◌≤◌, ◌≡◌, ◌≢◌, ◌⊎◌, Bool, inl, inr, refl, arith, true, false, some,
  ◌==◌, ◌∙◌, ap, Bool-cases, if◌then◌else◌,
}
use mathlib.Core.Path.{subst}
use ece391_mp.Base.Int.{pos}
use ece391_mp.Pic.{cli, send_eoi}
use ece391_mp.Paging.{change_process, user_process_index}
use ece391_mp.Scheduler.{Scheduler, is_leaf, find_leaf, next_leaf, pit_int, switch_to, pit_irq}

-- The process `e` numbers behind the one that follows `current`, in the circle of six.
abbrev pub turn : ℕ → ℕ → ℕ
turn current e = (current + 1 + e) % 6

-- Between the turns `d` and `e` nobody can run, and `e` is a process that can, or the end of the
-- circle, which is `current` itself.
pub record Chosen (s : Scheduler) (current d e : ℕ) : Type 0 where
  pub first : d ≤ e
  pub last : e ≤ 5
  pub runs : (e ≡ 5) ⊎ (is_leaf s (turn current e) ≡ true)
  pub skipped : (k : ℕ) → d ≤ k → k < e → is_leaf s (turn current k) ≡ false

find_leaf-here :
    (k : ℕ) (s : Scheduler) (current n : ℕ)
    → is_leaf s n ≡ true
    → find_leaf (suc k) s current n ≡ some n
unfolding find_leaf
find_leaf-here k s current n here = ground (arith, here)

find_leaf-next :
    (k : ℕ) (s : Scheduler) (current d : ℕ)
    → current < 6
    → d < 5
    → is_leaf s (turn current d) ≡ false
    → find_leaf (suc k) s current (turn current d) ≡ find_leaf k s current (turn current (d + 1))
unfolding find_leaf
find_leaf-next k s current d lt more idle =
    let other : (turn current d == current) ≡ false = ground arith in
    let e : (turn current d + 1) % 6 ≡ turn current (d + 1) = omega arith in
    rw (other, find_leaf) (rw (idle, find_leaf) (ap (λ n. find_leaf k s current n) e))

find_leaf-end :
    (k : ℕ) (s : Scheduler) (current : ℕ)
    → current < 6
    → find_leaf (suc k) s current (turn current 5) ≡ some (turn current 5)
unfolding find_leaf
find_leaf-end k s current lt =
    let same : (turn current 5 == current) ≡ true = ground arith in rw (same, find_leaf) refl

same_or_above : (d k : ℕ) → d ≤ k → (d ≡ k) ⊎ (d + 1 ≤ k)
same_or_above d k low = ground arith

find_leaf-Chosen :
    (r d : ℕ) (s : Scheduler) (current : ℕ)
    → current < 6
    → d + r ≡ 5
    → (e : ℕ) × (find_leaf (suc r) s current (turn current d) ≡ some (turn current e))
      × Chosen s current d e
find_leaf-Chosen zero d s current lt sum =
    let at : d ≡ 5 = omega arith in
    (
      d,
      rw at (find_leaf-end 0 s current lt),
      record {
        first = omega arith;
        last = omega arith;
        runs = inl at;
        skipped = λ k low high. absurd (omega arith);
      },
    )
find_leaf-Chosen (suc r) d s current lt sum = elim (Bool-cases (is_leaf s (turn current d))) [
  | inl here ↦ (
    d,
    find_leaf-here (suc r) s current (turn current d) here,
    record {
      first = omega arith;
      last = omega arith;
      runs = inr here;
      skipped = λ k low high. absurd (omega arith);
    },
  )
  | inr idle ↦
      let (e, found, rest) = find_leaf-Chosen r (d + 1) s current lt (omega arith) in
      (
        e,
        find_leaf-next (suc r) s current d lt (omega arith) idle ∙ found,
        record {
          first = omega (arith, rest.first);
          last = rest.last;
          runs = rest.runs;
          skipped = λ k low high. elim (same_or_above d k low) [
            | inl same ↦ subst (λ j. is_leaf s (turn current j) ≡ false) same idle
            | inr above ↦ rest.skipped k above high
          ];
        },
      )
]

-- The state in which the interrupt chooses.
abbrev pub entered : Scheduler → Scheduler
entered s = record s { ports = send_eoi pit_irq (cli s.ports) }

next_leaf-Chosen :
    (s : Scheduler) (current : ℕ)
    → current < 6
    → (e : ℕ) × (next_leaf s current ≡ some (turn current e)) × Chosen s current 0 e
unfolding next_leaf
next_leaf-Chosen s current lt =
    let (e, found, rest) = find_leaf-Chosen 5 0 s current lt (omega arith) in
    let start : (current + 1) % 6 ≡ turn current 0 = omega arith in
    (e, ap (λ n. find_leaf 6 s current n) start ∙ found, rest)

some_if : (b : Bool) (x y : Scheduler) → (if b then some x else some y) ≡ some (if b then x else y)
some_if true x y = refl
some_if false x y = refl

-- The timer's interrupt while a process runs: it always chooses, within one round of the six
-- process numbers. It switches to the first process behind the running one that is active and has no
-- child, and where there is none it goes on with the running one.
pub pit_int_lem :
    (s : Scheduler) (current : ℕ)
    → s.terminal_array s.curr_terminal ≡ pos current
    → current < 6
    → (e : ℕ) × Chosen (entered s) current 0 e
      × (pit_int s
          ≡ some (
              if turn current e == current
              then entered s
              else switch_to current (turn current e) (entered s)))
unfolding pit_int
pit_int_lem s current runs lt =
    let (e, found, rest) = next_leaf-Chosen (entered s) current lt in
    (e, rest, rw (runs, pit_int) (rw (found, pit_int) (some_if _ _ _)))

-- A process that is switched away from, to another one, and back to has its registers again,
-- whatever the other one did with them in between; its terminal is the current one and its page is
-- mapped as a switch to it alone would map it.
pub switch_to_again :
    (a b esp ebp : ℕ) (s : Scheduler)
    → a ≢ b
    → let away = record (switch_to a b s) { esp = esp; ebp = ebp } in
      let back = switch_to b a away in
      (back.esp ≡ s.esp)
      × (back.ebp ≡ s.ebp)
      × (back.curr_terminal ≡ s.terminal a)
      × (back.tables.page_directory user_process_index
          ≡ (change_process a s.tables).page_directory user_process_index)
unfolding switch_to change_process
switch_to_again a b esp ebp s other = (ground (arith, other), ground (arith, other), refl, refl)
