-- ===== src/Process/Next.antt =====
-- The choice of a process number for a new process.
use ece391_mp.Base.{ℕ, zero, suc, ◌+◌, ◌<◌, ◌≤◌, ◌≡◌, ◌≢◌, inl, inr, arith, Bool-cases, ◌==◌}
use ece391_mp.Scheduler.{Scheduler, max_open_processes}
use ece391_mp.Process.{next_pid_from, get_next_pid}

next_pid_from_lem :
    (n : ℕ) (a : ℕ → ℕ) (i : ℕ)
    → let pid = next_pid_from n a i in
      (i ≤ pid) × (pid ≤ i + n) × ((q : ℕ) → i ≤ q → q < pid → a q ≢ 0) × (pid < i + n → a pid ≡ 0)
unfolding next_pid_from
next_pid_from_lem zero a i =
    (omega arith, omega arith, λ q low high. absurd (omega arith), λ lt. absurd (omega arith))
next_pid_from_lem (suc n) a i = elim (Bool-cases (a i == 0)) [
  | inl free ↦
      rw (free, next_pid_from)
        (omega arith, omega arith, λ q low high. absurd (omega arith), λ lt. ground (arith, free))
  | inr taken ↦
      let (low, high, skipped, found) = next_pid_from_lem n a (i + 1) in
      rw (taken, next_pid_from)
        (
          omega (arith, low),
          omega (arith, high),
          λ q from to. elim (Bool-cases (q == i)) [
            | inl same ↦ ground (arith, taken, same)
            | inr other ↦ skipped q (ground (arith, other)) to
          ],
          λ lt. found (omega arith),
        )
]

-- `get_next_pid` returns the number of a process that is not active, or the number of places, 6, and
-- all processes with smaller numbers are active.
pub get_next_pid_lem :
    (s : Scheduler)
    → (get_next_pid s ≤ max_open_processes)
      × ((q : ℕ) → q < get_next_pid s → s.process_array q ≢ 0)
      × (get_next_pid s < max_open_processes → s.process_array (get_next_pid s) ≡ 0)
unfolding get_next_pid
get_next_pid_lem s =
    let (low, high, skipped, found) = next_pid_from_lem max_open_processes s.process_array 0 in
    (high, λ q lt. skipped q (omega arith) lt, found)
