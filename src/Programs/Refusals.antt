-- ===== src/Programs/Refusals.antt =====
-- What the kernel refuses to a new process, and the tests of syscalls/ece391syserr.c on that.
use ece391_mp.Base.{
  ℕ, zero, suc, ◌<◌, ◌≡◌, ◌≢◌, ◌⊎◌, inl, inr, refl, arith, ap, sym, ◌∙◌, Bool-cases, some, ◌==◌,
  leb, ◌||◌, ◌&&◌, if_true, if_false, if◌then◌else◌,
}
use mathlib.Core.Path.{subst}
use ece391_mp.Base.Int.{ℤ, pos, negsuc, eqb_ℤ, pattern32}
use ece391_mp.Pic.{sti}
use ece391_mp.Kernel.{Driver, nofunc, std_in, std_out, Fd, Kernel, user}
use ece391_mp.Terminal.{terminal_close}
use ece391_mp.Descriptors.{
  max_open_files, set_fd, read_driver, write_driver, sys_read, sys_write, sys_close, close_driver,
}
use ece391_mp.Descriptors.Changes.{moved, sys_read-driver}
use ece391_mp.Process.{new_fd}
use ece391_mp.Programs.{Act}

-- `k` is `k0` but for descriptors of `pid` that refuse what those of a new process refuse, and for
-- the flag of the interrupts.
pub record Fresh (pid : ℕ) (k0 k : Kernel) : Type 0 where
  pub screen : k.keyboard.screen ≡ k0.keyboard.screen
  pub scheduler : k.scheduler ≡ k0.scheduler
  pub image : k.boot_block ≡ k0.boot_block
  pub tables : (fd : ℕ) → fd < 8 → (k.file_array pid fd).fop_jump_table ≡ (new_fd fd).fop_jump_table
  pub nulls : (fd : ℕ) → fd < 8 → (k.file_array pid fd).inode ≡ 0

-- A call that is refused.
pub record Refused (pid : ℕ) (k0 : Kernel) (call : Act Kernel ℤ) : Type 0 where
  pub at :
      (k : Kernel)
      → Fresh pid k0 k
      → (k' : Kernel) × (call k ≡ some (negsuc 0, k')) × Fresh pid k0 k'

-- A part of a test whose result is 0.
pub record Passes (pid : ℕ) (k0 : Kernel) (m : Act Kernel ℕ) : Type 0 where
  pub at : (k : Kernel) → Fresh pid k0 k → (k' : Kernel) × (m k ≡ some (0, k')) × Fresh pid k0 k'

refuses_write :
    (d : Driver) (i a n : ℕ) (k : Kernel)
    → (d ≡ std_in) ⊎ (d ≡ nofunc)
    → write_driver d i a n k ≡ some (negsuc 0, k)
unfolding write_driver
refuses_write d i a n k (inl e) = rw (e, write_driver) refl
refuses_write d i a n k (inr e) = rw (e, write_driver) refl

refuses_read :
    (d : Driver) (i a n q : ℕ) (k : Kernel)
    → (d ≡ std_out) ⊎ (d ≡ nofunc)
    → read_driver d i a n q k ≡ some (negsuc 0, k)
unfolding read_driver
refuses_read d i a n q k (inl e) = rw (e, read_driver) refl
refuses_read d i a n q k (inr e) = rw (e, read_driver) refl

new_fd-large : (n : ℕ) → (new_fd (suc (suc n))).fop_jump_table ≡ nofunc
unfolding new_fd
new_fd-large n = ground arith

not_output : (fd : ℕ) → fd ≢ 1 → let d = (new_fd fd).fop_jump_table in (d ≡ std_in) ⊎ (d ≡ nofunc)
unfolding new_fd
not_output zero other = inl refl
not_output (suc zero) other = absurd (other refl)
not_output (suc (suc n)) other = inr (new_fd-large n)

not_input : (fd : ℕ) → fd ≢ 0 → let d = (new_fd fd).fop_jump_table in (d ≡ std_out) ⊎ (d ≡ nofunc)
unfolding new_fd
not_input zero other = absurd (other refl)
not_input (suc zero) other = inl refl
not_input (suc (suc n)) other = inr (new_fd-large n)

new_closes : (fd : ℕ) (d : Driver) → d ≡ (new_fd fd).fop_jump_table → close_driver d 0 ≡ negsuc 0
unfolding close_driver new_fd terminal_close
new_closes zero d e = rw (e, close_driver) refl
new_closes (suc zero) d e = rw (e, close_driver) refl
new_closes (suc (suc n)) d e = rw (e ∙ new_fd-large n, close_driver) refl

module _ {pid : ℕ} {k0 : Kernel} where
  pub unchanged-Refused :
      (call : Act Kernel ℤ)
      → ((k : Kernel) → Fresh pid k0 k → call k ≡ some (negsuc 0, k))
      → Refused pid k0 call
  unchanged-Refused call h = record { at = λ k fresh. (k, h k fresh, fresh) }

  pub write-Refused : (fd buf n : ℕ) → fd ≢ 1 → Refused pid k0 (λ k. sys_write pid (pos fd) buf n k)
  unfolding sys_write
  write-Refused fd buf n other = unchanged-Refused _ (λ k fresh.
      elim (Bool-cases (leb max_open_files fd || (buf == 0))) [
        | inl no_file ↦ ground (arith, no_file)
        | inr ok ↦
            let f = k.file_array pid fd in
            let lt : fd < 8 = ground (arith, ok) in
            rw (ok, sys_write)
              (refuses_write f.fop_jump_table f.inode (user k buf) n k (
                subst (λ d. (d ≡ std_in) ⊎ (d ≡ nofunc)) (sym (fresh.tables fd lt))
                  (not_output fd other)))
      ])

  -- A descriptor that keeps its row of the table.
  set_fd-Fresh :
      (fd : ℕ) (f : Fd) (k : Kernel)
      → Fresh pid k0 k
      → f.fop_jump_table ≡ (k.file_array pid fd).fop_jump_table
      → f.inode ≡ 0
      → Fresh pid k0 (set_fd pid fd f k)
  set_fd-Fresh fd f k fresh same null = record {
    screen = fresh.screen;
    scheduler = fresh.scheduler;
    image = fresh.image;
    tables = λ j lt. elim (Bool-cases ((pid == pid) && (j == fd))) [
      | inl here ↦
          ap (λ x. x.fop_jump_table) (if_true f (k.file_array pid j) here)
          ∙ same
          ∙ ap (λ x. (k.file_array pid x).fop_jump_table) (ground (arith, here))
          ∙ fresh.tables j lt
      | inr other ↦
          ap (λ x. x.fop_jump_table) (if_false f (k.file_array pid j) other) ∙ fresh.tables j lt
    ];
    nulls = λ j lt. elim (Bool-cases ((pid == pid) && (j == fd))) [
      | inl here ↦ ap (λ x. x.inode) (if_true f (k.file_array pid j) here) ∙ null
      | inr other ↦ ap (λ x. x.inode) (if_false f (k.file_array pid j) other) ∙ fresh.nulls j lt
    ];
  }

  pub read-Refused :
      (fd buf n : ℕ)
      → fd ≢ 0
      → fd < 8
      → buf ≢ 0
      → Refused pid k0 (λ k. sys_read pid (pos fd) buf n k)
  read-Refused fd buf n other lt there = record {
    at = λ k fresh.
        let f = k.file_array pid fd in
        let ready = record k { keyboard = record (k.keyboard) { ports = sti k.keyboard.ports } } in
        let fresh' : Fresh pid k0 ready = record {
          screen = fresh.screen;
          scheduler = fresh.scheduler;
          image = fresh.image;
          tables = fresh.tables;
          nulls = fresh.nulls;
        } in
        let row =
          subst (λ d. (d ≡ std_out) ⊎ (d ≡ nofunc)) (sym (fresh.tables fd lt))
            (not_input fd other) in
        let done =
          refuses_read f.fop_jump_table f.inode (user k buf) n (pattern32 f.file_position) ready
            row in
        let fails : (if (f.flags == 0) && eqb_ℤ (negsuc 0) (pos 1) then negsuc 0 else negsuc 0)
            ≡ negsuc 0 =
          ground arith in
        let k' = set_fd pid fd (moved f (negsuc 0)) ready in
        (
          k',
          sys_read-driver pid fd buf n k done lt there ∙ ap (λ r. some (r, k')) fails,
          set_fd-Fresh fd (moved f (negsuc 0)) ready fresh' refl (fresh.nulls fd lt),
        );
  }

  pub close-Refused : (fd : ℕ) → Refused pid k0 (λ k. some (sys_close pid (pos fd) k))
  unfolding sys_close
  close-Refused fd = record {
    at = λ k fresh. elim (Bool-cases (leb max_open_files fd)) [
      | inl large ↦ (k, rw (large, sys_close) refl, fresh)
      | inr ok ↦
          let f = k.file_array pid fd in
          let lt : fd < 8 = ground (arith, ok) in
          elim (Bool-cases (f.flags == 0)) [
            | inl free ↦ (k, rw (ok, sys_close) (rw free refl), fresh)
            | inr used ↦
                let f' = record f {
                  inode = 0;
                  file_type = negsuc 0;
                  file_position = pos 0;
                  flags = 0;
                } in
                let k' = set_fd pid fd f' k in
                let r : close_driver f.fop_jump_table f.inode ≡ negsuc 0 =
                  ap (close_driver f.fop_jump_table) (fresh.nulls fd lt)
                  ∙ new_closes fd f.fop_jump_table (fresh.tables fd lt) in
                (
                  k',
                  rw (ok, sys_close) (rw used (ap (λ x. some (x, k')) r)),
                  set_fd-Fresh fd f' k fresh refl refl,
                )
          ]
    ];
  }
