-- ===== src/Programs/Lots.antt =====
-- Test 3 of syscalls/ece391syserr.c on the kernel: a process opens all the files that it can.
use Prim.Native.String.{String}
use ece391_mp.Base.{
  ℕ, zero, suc, ◌+◌, ◌-◌, ◌<◌, ◌≤◌, ◌≡◌, ◌≢◌, inl, inr, refl, arith, ap, sym, ◌∙◌, Bool-cases, some,
  false, ◌==◌, ◌&&◌, leb, if_true, if_false,
}
use mathlib.Core.Path.{subst}
use ece391_mp.Base.Int.{ℤ, pos, negsuc, eqb_ℤ}
use ece391_mp.FileSystem.{found, file_type, read_dentry_by_name}
use ece391_mp.Kernel.{Driver, Fd, Kernel, mem_of, physical, user}
use ece391_mp.Descriptors.{max_open_files, set_fd, file_table, sys_open, sys_close}
use ece391_mp.Descriptors.Opening.{opened}
use ece391_mp.Descriptors.Open.{FirstFree, sys_open_lem, sys_open_fails}
use ece391_mp.Process.{Frame, new_fd}
use ece391_mp.Base.Act.{bind_run, then_run}
use ece391_mp.Programs.{Act, ◌>>=◌, ◌>>◌, return, Calls, put_text}
use ece391_mp.Programs.OnKernel.{kernel_calls}
use ece391_mp.Programs.Console.{Console, screen_with, Shows, put_text-said}
use ece391_mp.Programs.Errors.{open_lots, close_lots, err_open_lots}

-- The descriptors of `pid` below `j` are in use, and the others are free.
pub record Taken (pid : ℕ) (k0 : Kernel) (j : ℕ) (k : Kernel) : Type 0 where
  pub shows : Shows pid k0 k
  pub used : (l : ℕ) → l < j → (k.file_array pid l).flags ≢ 0
  pub free : (l : ℕ) → j ≤ l → l < 8 → (k.file_array pid l).flags ≡ 0

-- A directory or a file of the name `name`.
pub record Has (k0 : Kernel) (name : ℕ) : Type 0 where
  pub entry : ℕ
  pub driver : Driver
  pub hit : read_dentry_by_name (mem_of k0) k0.boot_block (user k0 name) 1 ≡ some (found entry)
  pub row : file_table (file_type (mem_of k0) entry) ≡ some driver

module _ {pid : ℕ} {k0 : Kernel} where
  set_fd-Shows :
      (j : ℕ) (g : Fd) (k : Kernel) → 2 ≤ j → Shows pid k0 k → Shows pid k0 (set_fd pid j g k)
  set_fd-Shows j g k two shows =
      let other : ((pid == pid) && (1 == j)) ≡ false = ground (arith, two) in
      record {
        screen = shows.screen;
        scheduler = shows.scheduler;
        image = shows.image;
        output = ap (λ x. x.fop_jump_table) (if_false g (k.file_array pid 1) other) ∙ shows.output;
      }

  set_fd-Taken :
      (j : ℕ) (g : Fd) (k : Kernel)
      → 2 ≤ j
      → g.flags ≡ 1
      → Taken pid k0 j k
      → Taken pid k0 (j + 1) (set_fd pid j g k)
  set_fd-Taken j g k two on taken = record {
    shows = set_fd-Shows j g k two taken.shows;
    used = λ l lt. elim (Bool-cases ((pid == pid) && (l == j))) [
      | inl here ↦
          let entry = ap (λ x. x.flags) (if_true g (k.file_array pid l) here) in
          λ e. absurd (omega (arith, entry, on, e))
      | inr other ↦
          let entry = ap (λ x. x.flags) (if_false g (k.file_array pid l) other) in
          let below : l < j = ground (arith, other, lt) in λ e. taken.used l below (sym entry ∙ e)
    ];
    free = λ l low high.
        let other : ((pid == pid) && (l == j)) ≡ false = ground (arith, low) in
        ap (λ x. x.flags) (if_false g (k.file_array pid l) other) ∙ taken.free l (omega arith) high;
  }

  -- The look-up does not depend on the descriptors.
  has-found :
      (name : ℕ) (has : Has k0 name) (k : Kernel)
      → Shows pid k0 k
      → (read_dentry_by_name (mem_of k) k.boot_block (user k name) 1 ≡ some (found has.entry))
        × (file_table (file_type (mem_of k) has.entry) ≡ some has.driver)
  has-found name has k shows = (
    (λ i.
          read_dentry_by_name (shows.screen i).mem (shows.image i)
            (physical (shows.scheduler i).tables.page_directory name) 1)
        ∙ has.hit,
    ap (λ s. file_table (file_type s.mem has.entry)) shows.screen ∙ has.row,
  )

  open-Taken :
      (name j : ℕ) (k : Kernel)
      → Has k0 name
      → name ≢ 0
      → 2 ≤ j
      → j < 8
      → Taken pid k0 j k
      → (k' : Kernel) × (sys_open pid name k ≡ some (pos j, k')) × Taken pid k0 (j + 1) k'
  open-Taken name j k has there two lt taken =
      let (hit, row) = has-found name has k taken.shows in
      let first : FirstFree (k.file_array pid) 0 max_open_files j = record {
        from = omega arith;
        below = lt;
        free = taken.free j (omega arith) lt;
        first = λ l low high. taken.used l high;
      } in
      let g = opened has.driver has.entry k in
      (
        set_fd pid j g k,
        sys_open_lem pid name k there hit row first,
        set_fd-Taken j g k two refl taken,
      )

  open-full :
      (name : ℕ) (k : Kernel)
      → Has k0 name
      → Taken pid k0 8 k
      → sys_open pid name k ≡ some (negsuc 0, k)
  open-full name k has taken =
      let (hit, row) = has-found name has k taken.shows in
      sys_open_fails pid name k (inr (inr (hit, taken.used)))

  close-Shows :
      (fd : ℕ) (k : Kernel) → 2 ≤ fd → Shows pid k0 k → Shows pid k0 (sys_close pid (pos fd) k).1
  unfolding sys_close
  close-Shows fd k two shows = elim (Bool-cases (leb max_open_files fd)) [
    | inl large ↦ rw (large, sys_close) shows
    | inr ok ↦ elim (Bool-cases ((k.file_array pid fd).flags == 0)) [
      | inl free ↦ rw (ok, sys_close) (rw free shows)
      | inr used ↦ rw (ok, sys_close) (rw used (set_fd-Shows fd _ k two shows))
    ]
  ]

module _ (pid t : ℕ) (k0 : Kernel) (text : String → ℕ) (f : Frame) (child : ℕ → Act Kernel ℤ)
    (sys_int_table : ℤ → Act Kernel ℤ) (console : Console text t k0) where
  abbrev c : Calls Kernel
  c = kernel_calls pid text f child sys_int_table

  -- With `m` descriptors left, the opens behind the `m`-th one fail.
  open_lots-Taken :
      (n m cnt j : ℕ) (k : Kernel)
      → Has k0 (text ".")
      → 2 ≤ j
      → j + m ≡ 8
      → Taken pid k0 j k
      → (k' : Kernel) × (open_lots c n cnt k ≡ some (cnt + (n - m), k')) × Shows pid k0 k'
  unfolding open_lots
  open_lots-Taken zero m cnt j k has two full taken =
      (k, ap (λ r. some (r, k)) (omega arith), taken.shows)
  open_lots-Taken (suc n) zero cnt j k has two full taken =
      let all : Taken pid k0 8 k = subst (λ i. Taken pid k0 i k) (omega (arith, full)) taken in
      let (k', run, shows) = open_lots-Taken n zero (cnt + 1) j k has two full taken in
      (
        k',
        rw (open-full (text ".") k has all, open_lots, ◌>>=◌)
            (run ∙ ap (λ r. some (r, k')) (omega arith)),
        shows,
      )
  open_lots-Taken (suc n) (suc m) cnt j k has two full taken =
      let (k1, opens, taken1) =
        open-Taken (text ".") j k has (console.placed ".").0 two (omega (arith, full)) taken in
      let (k', run, shows) =
        open_lots-Taken n m cnt (j + 1) k1 has (omega arith) (omega (arith, full)) taken1 in
      let opened_well : eqb_ℤ (pos j) (negsuc 0) ≡ false = ground arith in
      (
        k',
        rw (opens, open_lots, ◌>>=◌) (rw opened_well (run ∙ ap (λ r. some (r, k')) (omega arith))),
        shows,
      )

  close_lots-Shows :
      (n i : ℕ) (k : Kernel)
      → 2 ≤ i
      → Shows pid k0 k
      → (k' : Kernel) × (close_lots c n i k ≡ some (pos 0, k')) × Shows pid k0 k'
  unfolding close_lots
  close_lots-Shows zero i k two shows = (k, refl, shows)
  close_lots-Shows (suc n) i k two shows =
      close_lots-Shows n (i + 1) (sys_close pid (pos i) k).1 (omega arith)
        (close-Shows i k two shows)

  -- With descriptors 2 to 7 free, six of the seven opens succeed.
  pub err_open_lots_passes :
      (k : Kernel)
      → Has k0 (text ".")
      → Taken pid k0 2 k
      → (k' : Kernel) × (err_open_lots c k ≡ some (0, k'))
        × (k'.keyboard.screen ≡ screen_with t k0 text console "err_open_lots: PASS\n")
  unfolding err_open_lots
  err_open_lots_passes k has taken =
      let (k1, opens, shows1) = open_lots-Taken 7 6 0 2 k has (omega arith) refl taken in
      let (k2, closes, shows2) = close_lots-Shows 6 2 k1 (omega arith) shows1 in
      let (k3, run, shown) =
        put_text-said pid t k0 text f child sys_int_table console "err_open_lots: PASS\n" k2
          shows2 in
      (
        k3,
        bind_run (open_lots c 7 0) _ k opens
            ∙ (then_run (close_lots c 6 2) (put_text c (text "err_open_lots: PASS\n") >> return 0)
                  k1 closes
                ∙ then_run (put_text c (text "err_open_lots: PASS\n")) (return 0) k2 run),
        shown,
      )

-- A descriptor at the position 0.
abbrev pub at_start : Fd → Fd
at_start f = record f { file_position = pos 0 }

-- A new process has its descriptors from 2 on free.
pub new-Taken :
    (pid : ℕ) (k0 : Kernel)
    → ((fd : ℕ) → fd < 8 → at_start (k0.file_array pid fd) ≡ new_fd fd)
    → Taken pid k0 2 k0
unfolding new_fd
new-Taken pid k0 new = record {
  shows = record {
    screen = refl;
    scheduler = refl;
    image = refl;
    output = ap (λ x. x.fop_jump_table) (new 1 (omega arith));
  };
  used = λ l lt.
      let flags = ap (λ x. x.flags) (new l (omega (arith, lt))) in
      λ e. absurd (ground (arith, lt, flags, e));
  free = λ l low high. ap (λ x. x.flags) (new l high) ∙ ground (arith, low);
}
