-- ===== src/Descriptors/Table.antt =====
-- What every sequence of calls keeps of the descriptor tables.
use ece391_mp.Base.{
  ℕ, ◌≡◌, inl, inr, refl, arith, ap, sym, ◌∙◌, Option, some, Bool-cases, ◌==◌, ◌&&◌, if_true,
  if_false,
}
use mathlib.Core.Path.{subst}
use ece391_mp.Base.Int.{ℤ}
use ece391_mp.Kernel.{Kernel}
use ece391_mp.Descriptors.{sys_read, sys_write, sys_open, sys_close}
use ece391_mp.Descriptors.Changes.{
  AllSound, Changes, kept, put, result_of, sys_read-Changes, sys_write-Changes,
}
use ece391_mp.Descriptors.Opening.{sys_open-Changes, sys_close-Changes}

-- A system call on a descriptor, and what it returns.
pub data Call : Type 0 where
  reads writes : ℤ → ℕ → ℕ → Call
  opens : ℕ → Call
  closes : ℤ → Call

abbrev pub call : ℕ → Call → Kernel → Option (ℤ × Kernel)
call pid (reads fd buf n) k = sys_read pid fd buf n k
call pid (writes fd buf n) k = sys_write pid fd buf n k
call pid (opens filename) k = sys_open pid filename k
call pid (closes fd) k = some (sys_close pid fd k)

pub call-Changes :
    (pid : ℕ) (c : Call) (k : Kernel) {r : ℤ} {k' : Kernel}
    → call pid c k ≡ some (r, k')
    → Changes pid k k'
call-Changes pid (reads fd buf n) k e = sys_read-Changes pid fd buf n k e
call-Changes pid (writes fd buf n) k e = sys_write-Changes pid fd buf n k e
call-Changes pid (opens filename) k e = sys_open-Changes pid filename k e
call-Changes pid (closes fd) k {r} {k'} e =
    subst (Changes pid k) (sym (result_of e refl)) (sys_close-Changes pid fd k)

pub Changes-Sound : (pid : ℕ) {k k' : Kernel} → Changes pid k k' → AllSound k → AllSound k'
Changes-Sound pid (kept e) h p i = rw e (h p i)
Changes-Sound pid {k} {k'} (put fd f lt keeps e) h p i =
    let entry = ap (λ a. a p i) e in
    elim (Bool-cases ((p == pid) && (i == fd))) [
      | inl here ↦
          let p_is : p ≡ pid = ground (arith, here) in
          let i_is : i ≡ fd = ground (arith, here) in
          rw (entry ∙ if_true _ _ here) (keeps (rw (p_is, i_is) at (h p i)))
      | inr other ↦ rw (entry ∙ if_false _ _ other) (h p i)
    ]

-- What a sequence of calls, by any processes in any order, leads to.
pub data Runs (k : Kernel) : Kernel → Type 0 where
  here : Runs k k
  next :
      {k1 k2 : Kernel} (pid : ℕ) (c : Call) {r : ℤ}
      → Runs k k1
      → call pid c k1 ≡ some (r, k2)
      → Runs k k2

-- A sequence of calls on descriptors, by any processes in any order and whatever they return, keeps
-- every descriptor of every process sound: it is free, or its functions are those of its file type.
pub Runs-AllSound : {k k' : Kernel} → Runs k k' → AllSound k → AllSound k'
Runs-AllSound here sound = sound
Runs-AllSound (next pid c before e) sound =
    Changes-Sound pid (call-Changes pid c _ e) (Runs-AllSound before sound)
