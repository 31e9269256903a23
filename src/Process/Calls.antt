-- ===== src/Process/Calls.antt =====
-- The calls on descriptors leave the process tables.
use ece391_mp.Base.{
  ℕ, ◌≡◌, inl, inr, refl, arith, ap, ◌∙◌, Bool-cases, Option-cases, ◌||◌, leb, ◌==◌, some,
}
use ece391_mp.Base.Int.{ℤ, pos, negsuc, pattern32}
use ece391_mp.Pic.{sti}
use ece391_mp.FileSystem.{read_dentry_by_name}
use ece391_mp.Kernel.{Driver, nofunc, std_in, std_out, rtc, dir, file, Kernel, mem_of, user}
use ece391_mp.Descriptors.{
  max_open_files, read_driver, sys_read, write_driver, sys_write, sys_open, free_fd, install,
}
use ece391_mp.Descriptors.Changes.{result_of, sys_read_refused, sys_read_blocked, sys_read-driver}
use ece391_mp.Descriptors.Opening.{Lookup-cases}
use ece391_mp.Descriptors.Table.{Call, reads, writes, opens, closes, call}
use ece391_mp.Process.Tree.{processes}
use ece391_mp.Process.Ends.{sys_close-processes}

read_driver-processes :
    (d : Driver) (inode buf n p : ℕ) (k : Kernel) {r : ℤ} {k' : Kernel}
    → read_driver d inode buf n p k ≡ some (r, k')
    → processes k' ≡ processes k
unfolding read_driver
read_driver-processes nofunc inode buf n p k e = cc
read_driver-processes std_in inode buf n p k e = ground arith
read_driver-processes std_out inode buf n p k e = cc
read_driver-processes rtc inode buf n p k e = ground arith
read_driver-processes dir inode buf n p k e = ground arith
read_driver-processes file inode buf n p k e = ground arith

write_driver-processes :
    (d : Driver) (inode buf n : ℕ) (k : Kernel) {r : ℤ} {k' : Kernel}
    → write_driver d inode buf n k ≡ some (r, k')
    → processes k' ≡ processes k
unfolding write_driver
write_driver-processes nofunc inode buf n k e = cc
write_driver-processes std_in inode buf n k e = cc
write_driver-processes std_out inode buf n k e = ground arith
write_driver-processes rtc inode buf n k e = ground arith
write_driver-processes dir inode buf n k e = cc
write_driver-processes file inode buf n k e = cc

install-processes :
    (pid i dentry filename : ℕ) (k : Kernel) {r : ℤ} {k' : Kernel}
    → install pid i dentry filename k ≡ some (r, k')
    → processes k' ≡ processes k
unfolding install
install-processes pid i dentry filename k e = ground arith

sys_read-processes :
    (pid fd buf n : ℕ) (k : Kernel) {r : ℤ} {k' : Kernel}
    → sys_read pid (pos fd) buf n k ≡ some (r, k')
    → processes k' ≡ processes k
sys_read-processes pid fd buf n k e = elim (Bool-cases (leb max_open_files fd || (buf == 0))) [
  | inl no_file ↦ ap processes (result_of e (sys_read_refused pid fd buf n k no_file))
  | inr ok ↦
      let f = k.file_array pid fd in
      let ready = record k { keyboard = record (k.keyboard) { ports = sti k.keyboard.ports } } in
      elim (Option-cases
        (read_driver f.fop_jump_table f.inode (user k buf) n (pattern32 f.file_position) ready)) [
          | inl waits ↦ absurd (cc (e, sys_read_blocked pid fd buf n k waits ok))
          | inr ((retval, k0), done) ↦
              ap processes (
                result_of e
                  (sys_read-driver pid fd buf n k done (ground (arith, ok)) (ground (arith, ok))))
              ∙ read_driver-processes f.fop_jump_table f.inode (user k buf) n
                  (pattern32 f.file_position) ready done
        ]
]

sys_write-processes :
    (pid fd buf n : ℕ) (k : Kernel) {r : ℤ} {k' : Kernel}
    → sys_write pid (pos fd) buf n k ≡ some (r, k')
    → processes k' ≡ processes k
unfolding sys_write
sys_write-processes pid fd buf n k e =
    let f = k.file_array pid fd in
    elim (Bool-cases (leb max_open_files fd || (buf == 0))) [
      | inl no_file ↦ ap processes (result_of (rw no_file at e) refl)
      | inr ok ↦ write_driver-processes f.fop_jump_table f.inode (user k buf) n k (rw ok at e)
    ]

sys_open-processes :
    (pid filename : ℕ) (k : Kernel) {r : ℤ} {k' : Kernel}
    → sys_open pid filename k ≡ some (r, k')
    → processes k' ≡ processes k
unfolding sys_open
sys_open-processes pid filename k e = elim (Bool-cases (filename == 0)) [
  | inl null ↦ ap processes (result_of (rw (null, sys_open) at e) refl)
  | inr there ↦
      let i = free_fd max_open_files (k.file_array pid) 0 in
      let e1 = rw (there, sys_open) at e in
      elim (Lookup-cases (read_dentry_by_name (mem_of k) k.boot_block (user k filename) 1)) [
        | inl endless ↦ absurd (cc (rw (endless, sys_open) at e1))
        | inr (inl nowhere) ↦ ap processes (result_of (rw (nowhere, sys_open) at e1) refl)
        | inr (inr (entry, hit)) ↦
            let e2 = rw (hit, sys_open) at e1 in
            elim (Bool-cases (i == max_open_files)) [
              | inl full ↦ ap processes (result_of (rw full at e2) refl)
              | inr free ↦ install-processes pid i entry (user k filename) k (rw free at e2)
            ]
      ]
]

-- A call on a descriptor leaves the process tables.
pub call-processes :
    (pid : ℕ) (c : Call) (k : Kernel) {r : ℤ} {k' : Kernel}
    → call pid c k ≡ some (r, k')
    → processes k' ≡ processes k
unfolding sys_read sys_write
call-processes pid (reads (negsuc i) buf n) k e = ap processes (result_of e refl)
call-processes pid (reads (pos fd) buf n) k e = sys_read-processes pid fd buf n k e
call-processes pid (writes (negsuc i) buf n) k e = ap processes (result_of e refl)
call-processes pid (writes (pos fd) buf n) k e = sys_write-processes pid fd buf n k e
call-processes pid (opens filename) k e = sys_open-processes pid filename k e
call-processes pid (closes fd) k e = ap processes (result_of e refl) ∙ sys_close-processes pid fd k
