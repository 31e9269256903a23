-- ===== src/Descriptors/Opening.antt =====
-- What `open` and `close` may change in the descriptor tables.
use ece391_mp.Base.{
  ℕ, zero, suc, ◌+◌, ◌<◌, ◌≡◌, ◌⊎◌, inl, inr, refl, arith, ap, Option, none, some, Option-cases,
  Bool-cases, leb, ◌==◌,
}
use ece391_mp.Base.Int.{ℤ, pos, negsuc, signed32}
use ece391_mp.FileSystem.{Lookup, found, missing, file_type, inode_num, read_dentry_by_name}
use ece391_mp.Kernel.{Driver, rtc, dir, file, Fd, Kernel, mem_of, user}
use ece391_mp.Descriptors.{
  max_open_files, set_fd, file_table, free_fd, open_driver, install, sys_open, sys_close,
}
use ece391_mp.Descriptors.Changes.{Changes, kept, put, result_of, type_of}

pub free_fd-lt :
    (n : ℕ) (files : ℕ → Fd) (i : ℕ) → (free_fd n files i < i + n) ⊎ (free_fd n files i ≡ i + n)
unfolding free_fd
free_fd-lt zero files i = ground arith
free_fd-lt (suc n) files i = ground (arith, free_fd-lt n files (i + 1))

file_table-type : (t : ℕ) {d : Driver} → file_table t ≡ some d → signed32 t ≡ type_of d
unfolding file_table
file_table-type zero e = let same : rtc ≡ _ = cc in ap type_of same
file_table-type (suc zero) e = let same : dir ≡ _ = cc in ap type_of same
file_table-type (suc (suc zero)) e = let same : file ≡ _ = cc in ap type_of same
file_table-type (suc (suc (suc n))) e = cc

-- The descriptor that `open` puts in.
abbrev pub opened : Driver → ℕ → Kernel → Fd
opened d dentry k = record {
  fop_jump_table = d;
  inode = inode_num (mem_of k) dentry;
  file_type = signed32 (file_type (mem_of k) dentry);
  file_position = pos 0;
  flags = 1;
}

-- The descriptor that `close` leaves.
abbrev pub closed : Fd → Fd
closed f = record f { inode = 0; file_type = negsuc 0; file_position = pos 0; flags = 0 }

install-Changes :
    (pid i dentry filename : ℕ) (k : Kernel) {r : ℤ} {k' : Kernel}
    → i < max_open_files
    → install pid i dentry filename k ≡ some (r, k')
    → Changes pid k k'
unfolding install
install-Changes pid i dentry filename k lt e =
    elim (Option-cases (file_table (file_type (mem_of k) dentry))) [
      | inl no_row ↦ absurd (cc (rw (no_row, install) at e))
      | inr (d, row) ↦
          let k1 = set_fd pid i (opened d dentry k) k in
          let e1 = rw (row, install) at e in
          elim (Option-cases (open_driver d filename k1)) [
            | inl waits ↦ absurd (cc (rw waits at e1))
            | inr (v, done) ↦
                let e2 = rw done at e1 in
                put i (opened d dentry k) lt
                  (λ h. inr (refl, file_table-type (file_type (mem_of k) dentry) row))
                  (ap (λ x. x.file_array) (result_of e2 refl))
          ]
    ]

pub sys_close-Changes : (pid : ℕ) (fd : ℤ) (k : Kernel) → Changes pid k (sys_close pid fd k).1
unfolding sys_close
sys_close-Changes pid (negsuc n) k = kept refl
sys_close-Changes pid (pos fd) k = elim (Bool-cases (leb max_open_files fd)) [
  | inl no_file ↦ kept (rw no_file refl)
  | inr ok ↦ elim (Bool-cases ((k.file_array pid fd).flags == 0)) [
    | inl free ↦ kept (rw (ok, free) refl)
    | inr used ↦
        put fd (closed (k.file_array pid fd)) (ground (arith, ok)) (λ h. inl refl)
          (rw (ok, used) refl)
  ]
]

pub Lookup-cases :
    (o : Option Lookup) → (o ≡ none) ⊎ ((o ≡ some missing) ⊎ ((e : ℕ) × (o ≡ some (found e))))
Lookup-cases none = inl refl
Lookup-cases (some missing) = inr (inl refl)
Lookup-cases (some (found e)) = inr (inr (e, refl))

pub sys_open-Changes :
    (pid filename : ℕ) (k : Kernel) {r : ℤ} {k' : Kernel}
    → sys_open pid filename k ≡ some (r, k')
    → Changes pid k k'
unfolding sys_open
sys_open-Changes pid filename k e = elim (Bool-cases (filename == 0)) [
  | inl null ↦ kept (ap (λ x. x.file_array) (result_of (rw (null, sys_open) at e) refl))
  | inr there ↦
      let e1 = rw (there, sys_open) at e in
      elim (Lookup-cases (read_dentry_by_name (mem_of k) k.boot_block (user k filename) 1)) [
        | inl endless ↦ absurd (cc (rw (endless, sys_open) at e1))
        | inr (inl nowhere) ↦
            kept (ap (λ x. x.file_array) (result_of (rw (nowhere, sys_open) at e1) refl))
        | inr (inr (entry, hit)) ↦
            let e2 = rw (hit, sys_open) at e1 in
            elim (Bool-cases (free_fd max_open_files (k.file_array pid) 0 == max_open_files)) [
              | inl full ↦
                  kept (ap (λ x. x.file_array) (result_of (rw (full, sys_open) at e2) refl))
              | inr room ↦
                  install-Changes pid (free_fd max_open_files (k.file_array pid) 0) entry
                    (user k filename) k
                    (ground (arith, room, free_fd-lt max_open_files (k.file_array pid) 0))
                    (rw (room, sys_open) at e2)
            ]
      ]
]
