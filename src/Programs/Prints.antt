-- ===== src/Programs/Prints.antt =====
-- Tests that print one line: the parts of the tests of syscalls/ece391syserr.c.
use Prim.Native.String.{String}
use ece391_mp.Base.{ℕ, zero, suc, ◌+◌, ◌<◌, ◌≤◌, ◌≡◌, refl, arith, ap, sym, some}
use mathlib.Core.Path.{subst}
use ece391_mp.Base.Int.{ℤ, pos}
use ece391_mp.Screen.{Screen}
use ece391_mp.Kernel.{Kernel}
use ece391_mp.Process.{Frame, new_fd}
use ece391_mp.Programs.{Act, ◌>>=◌, ◌>>◌, Calls}
use ece391_mp.Programs.OnKernel.{kernel_calls}
use ece391_mp.Programs.Errors.{expect, verdict, expect_each}
use ece391_mp.Programs.Console.{Console, screen_with, Shows, put_text-said}
use ece391_mp.Programs.Refusals.{Fresh, Refused, Passes}

module _ (pid t : ℕ) (k0 : Kernel) (text : String → ℕ) (f : Frame) (child : ℕ → Act Kernel ℤ)
    (sys_int_table : ℤ → Act Kernel ℤ) (console : Console text t k0) where
  abbrev c : Calls Kernel
  c = kernel_calls pid text f child sys_int_table

  abbrev said : String → Screen
  said s = screen_with t k0 text console s

  -- The result is 0, and the text `s` is printed.
  pub record Prints (s : String) (m : Act Kernel ℕ) : Type 0 where
    pub at :
        (k : Kernel)
        → Fresh pid k0 k
        → (k' : Kernel) × (m k ≡ some (0, k')) × (k'.keyboard.screen ≡ said s)

  bind-Passes :
      {m : Act Kernel ℕ} {g : ℕ → Act Kernel ℕ}
      → Passes pid k0 m
      → ((fail : ℕ) → fail ≡ 0 → Passes pid k0 (g fail))
      → Passes pid k0 (m >>= g)
  bind-Passes first second = record {
    at = λ k fresh.
        let (k1, run, fresh1) = first.at k fresh in
        let (k2, run', fresh2) = (second 0 refl).at k1 fresh1 in (k2, rw (run, ◌>>=◌) run', fresh2);
  }

  pub bind-Prints :
      {m : Act Kernel ℕ} {g : ℕ → Act Kernel ℕ} {s : String}
      → Passes pid k0 m
      → ((fail : ℕ) → fail ≡ 0 → Prints s (g fail))
      → Prints s (m >>= g)
  bind-Prints first second = record {
    at = λ k fresh.
        let (k1, run, fresh1) = first.at k fresh in
        let (k2, run', shown) = (second 0 refl).at k1 fresh1 in (k2, rw (run, ◌>>=◌) run', shown);
  }

  pub expect-Passes :
      {call : Act Kernel ℤ} (says : String) {fail : ℕ}
      → Refused pid k0 call
      → fail ≡ 0
      → Passes pid k0 (expect c call says fail)
  unfolding expect
  expect-Passes says refused e = record {
    at = λ k fresh.
        let (k', run, fresh') = refused.at k fresh in
        (k', rw (run, expect, ◌>>=◌) (ap (λ r. some (r, k')) e), fresh');
  }

  pub expect_each-Passes :
      (n : ℕ) (call : ℤ → Act Kernel ℤ) (says : String) (i fail : ℕ)
      → ((j : ℕ) → i ≤ j → j < i + n → Refused pid k0 (call (pos j)))
      → fail ≡ 0
      → Passes pid k0 (expect_each c n call says i fail)
  unfolding expect_each
  expect_each-Passes zero call says i fail refused e = record {
    at = λ k fresh. (k, ap (λ r. some (r, k)) e, fresh);
  }
  expect_each-Passes (suc n) call says i fail refused e =
      bind-Passes (expect-Passes says (refused i (omega arith) (omega arith)) e) (λ fail' e'.
        expect_each-Passes n call says (i + 1) fail'
          (λ j low high. refused j (omega arith) (omega arith)) e')

  pub verdict-Prints :
      (passes fails : String) {fail : ℕ} → fail ≡ 0 → Prints passes (verdict c passes fails fail)
  unfolding verdict new_fd
  verdict-Prints passes fails {fail} e =
      subst (λ r. Prints passes (verdict c passes fails r)) (sym e)
        (record {
          at = λ k fresh.
              let shows : Shows pid k0 k = record {
                screen = fresh.screen;
                scheduler = fresh.scheduler;
                image = fresh.image;
                output = fresh.tables 1 (omega arith);
              } in
              let (k', run, shown) =
                put_text-said pid t k0 text f child sys_int_table console passes k shows in
              (k', rw (run, verdict, ◌>>◌, ◌>>=◌) refl, shown);
        })
