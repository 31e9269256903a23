-- ===== src/Programs.antt =====
-- The user programs of syscalls/, over the system calls as an interface: a program is a function of
-- the state, and `none` is a run that does not end.
pub mod Files
pub mod Dialogue
pub mod Ball
pub mod Search
pub mod Matches
pub mod Errors
pub mod OnKernel
pub mod Refusals
pub mod Console
pub mod Lots
pub mod Prints
pub mod Verdicts
mod Tests
use Prim.Native.String.{String}
use ece391_mp.Base.{ℕ, ◌+◌, ◌-◌, Option, none, some}
pub use ece391_mp.Base.Act.{Act, ◌>>=◌, ◌>>◌, return, stuck}
use ece391_mp.Base.Int.{ℤ, pos, negsuc}
use ece391_mp.Base.Mem.{Mem, write}
use ece391_mp.Support.{ece391_strlen, ece391_fdputs}

-- The system calls, on a state `S`; `load` and `store` are the memory as the program sees it, and
-- `text` is where the compiler puts a literal.
pub record Calls (S : Type 0) : Type 0 where
  pub load : S → Mem
  pub store : Mem → S → S
  pub text : String → ℕ
  pub ece391_execute : ℕ → Act S ℤ
  pub ece391_read : ℤ → ℕ → ℤ → Act S ℤ
  pub ece391_write : ℤ → ℕ → ℤ → Act S ℤ
  pub ece391_open : ℕ → Act S ℤ
  pub ece391_close : ℤ → Act S ℤ
  pub ece391_getargs : ℕ → ℤ → Act S ℤ
  pub ece391_vidmap : ℕ → Act S ℤ
  pub ece391_set_handler : ℤ → ℕ → Act S ℤ
  pub call_sys : ℤ → Act S ℤ

-- `buf[i]`, as an address.
abbrev pub index : ℕ → ℤ → ℕ
index buf (pos n) = buf + n
index buf (negsuc n) = buf - (n + 1)

module _ {S : Type 0} (c : Calls S) where
  abbrev pub peek : ℕ → Act S ℕ
  peek a s = some (c.load s a, s)

  abbrev pub poke : ℕ → ℕ → Act S ℕ
  poke a v s = some (v, c.store (write (c.load s) a v) s)

  -- A function of the library on the memory, with its result.
  abbrev pub on_mem : {A : Type 0} → (Mem → Option A) → Act S A
  on_mem f s = elim (f (c.load s)) [ none ↦ none | some a ↦ some (a, s) ]

  -- A function of the library that changes the memory.
  abbrev pub change_mem : (Mem → Option Mem) → Act S ℕ
  change_mem f s = elim (f (c.load s)) [ none ↦ none | some m ↦ some (0, c.store m s) ]

  -- `ece391_fdputs (1, s)`
  unfoldable pub put_text : ℕ → Act S ℤ
  put_text a s =
      elim (ece391_fdputs (λ fd b n. c.ece391_write (pos fd) b (pos n) s) (c.load s) 1 a) [
        | none ↦ none
        | some r ↦ r
      ]
