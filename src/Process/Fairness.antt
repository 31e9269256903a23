-- ===== src/Process/Fairness.antt =====
-- `timer`, again and again: each process that waits for the processor gets it.
use ece391_mp.Base.{ℕ, zero, suc, ◌≡◌, Option, none, some}
use ece391_mp.Base.Int.{pos}
use ece391_mp.Scheduler.{switch_to}
use ece391_mp.Scheduler.Turns.{entered}
use ece391_mp.Kernel.{Kernel}
use ece391_mp.Process.Halt.{timer}
use ece391_mp.Process.Ends.{ticked, ready}

-- `n` interrupts of the timer.
unfoldable pub interrupts : ℕ → Kernel → Option Kernel
interrupts zero k = some k
interrupts (suc n) k = elim (timer k) [ none ↦ none | some k' ↦ interrupts n k' ]

-- The process on the current terminal, which is the one that runs.
abbrev pub IsCurrent : ℕ → Kernel → Type 0
IsCurrent p k = k.scheduler.terminal_array k.scheduler.curr_terminal ≡ pos p

-- The state behind a switch.
abbrev moved : ℕ → ℕ → Kernel → Kernel
moved current next k = ticked k (switch_to current next (entered (ready k)))
