-- ===== src/Descriptors/Open.antt =====
-- What `open` gives, and how `close` takes it back.
use ece391_mp.Base.{
  ℕ, zero, suc, ◌+◌, ◌<◌, ◌≤◌, ◌≡◌, ◌≢◌, ◌⊎◌, inl, inr, refl, arith, ap, some, false, Bool-cases,
  leb, ◌==◌,
}
use ece391_mp.Base.Int.{pos, negsuc}
use ece391_mp.FileSystem.{
  found, missing, file_type, read_dentry_by_name, inode_num, dir_open, file_open, dir_close,
  file_close,
}
use ece391_mp.Rtc.{rtc_open, rtc_close}
use mathlib.Core.Path.{subst}
use ece391_mp.Kernel.{Driver, file, dir, rtc, Fd, Kernel, mem_of, user}
use ece391_mp.Descriptors.{
  max_open_files, set_fd, file_table, free_fd, open_driver, close_driver, install, sys_open,
  sys_close,
}
use ece391_mp.Descriptors.Opening.{opened, closed}
use ece391_mp.Descriptors.Stream.{set_fd-entry}

-- The first place of `files` from `i` up to `e` whose flags are 0.
pub record FirstFree (files : ℕ → Fd) (i e j : ℕ) : Type 0 where
  pub from : i ≤ j
  pub below : j < e
  pub free : (files j).flags ≡ 0
  pub first : (l : ℕ) → i ≤ l → l < j → (files l).flags ≢ 0

free_fd-FirstFree :
    (n : ℕ) (files : ℕ → Fd) (i j : ℕ) → FirstFree files i (i + n) j → free_fd n files i ≡ j
unfolding free_fd
free_fd-FirstFree zero files i j h = absurd (omega (arith, h.from, h.below))
free_fd-FirstFree (suc n) files i j h = elim (Bool-cases ((files i).flags == 0)) [
  | inl here ↦ elim (Bool-cases (i == j)) [
    | inl same ↦ rw (here, free_fd) (ground (arith, same))
    | inr other ↦
        absurd (h.first i (omega arith) (ground (arith, other, h.from)) (ground (arith, here)))
  ]
  | inr used ↦
      let rest : FirstFree files (i + 1) (i + 1 + n) j = record {
        from = ground (arith, used, h.from, h.free);
        below = omega (arith, h.below);
        free = h.free;
        first = λ l low high. h.first l (omega arith) high;
      } in
      rw (used, free_fd) (free_fd-FirstFree n files (i + 1) j rest)
]

free_fd-full :
    (n : ℕ) (files : ℕ → Fd) (i : ℕ)
    → ((l : ℕ) → i ≤ l → l < i + n → (files l).flags ≢ 0)
    → free_fd n files i ≡ i + n
unfolding free_fd
free_fd-full zero files i full = omega arith
free_fd-full (suc n) files i full =
    ground (
      arith,
      full i,
      free_fd-full n files (i + 1) (λ l low high. full l (omega arith) (omega arith)),
    )

open_driver-rtc : (filename : ℕ) (k : Kernel) → open_driver rtc filename k ≡ some (pos 0)
unfolding open_driver rtc_open
open_driver-rtc filename k = refl

open_driver-dir :
    (filename : ℕ) (k : Kernel) {e : ℕ}
    → read_dentry_by_name (mem_of k) k.boot_block filename 1 ≡ some (found e)
    → open_driver dir filename k ≡ some (pos 0)
unfolding open_driver dir_open
open_driver-dir filename k hit = rw (hit, dir_open) refl

open_driver-file :
    (filename : ℕ) (k : Kernel) {e : ℕ}
    → read_dentry_by_name (mem_of k) k.boot_block filename 1 ≡ some (found e)
    → open_driver file filename k ≡ some (pos 0)
unfolding open_driver file_open
open_driver-file filename k hit = rw (hit, file_open) refl

open_driver-found :
    (t : ℕ) {d : Driver} {e : ℕ} (filename : ℕ) (k : Kernel)
    → file_table t ≡ some d
    → read_dentry_by_name (mem_of k) k.boot_block filename 1 ≡ some (found e)
    → open_driver d filename k ≡ some (pos 0)
unfolding file_table
open_driver-found zero {d} filename k row hit =
    let is_rtc : rtc ≡ d = cc in
    subst (λ d. open_driver d filename k ≡ some (pos 0)) is_rtc (open_driver-rtc filename k)
open_driver-found (suc zero) {d} filename k row hit =
    let is_dir : dir ≡ d = cc in
    subst (λ d. open_driver d filename k ≡ some (pos 0)) is_dir (open_driver-dir filename k hit)
open_driver-found (suc (suc zero)) {d} filename k row hit =
    let is_file : file ≡ d = cc in
    subst (λ d. open_driver d filename k ≡ some (pos 0)) is_file (open_driver-file filename k hit)
open_driver-found (suc (suc (suc n))) filename k row hit = cc

install_lem :
    (pid j e filename : ℕ) (k : Kernel) {d : Driver}
    → file_table (file_type (mem_of k) e) ≡ some d
    → read_dentry_by_name (mem_of k) k.boot_block filename 1 ≡ some (found e)
    → install pid j e filename k ≡ some (pos j, set_fd pid j (opened d e k) k)
unfolding install
install_lem pid j e filename k {d} row hit =
    let done =
      open_driver-found (file_type (mem_of k) e) filename (set_fd pid j (opened d e k) k) row hit in
    rw (row, install) (rw done refl)

-- `open` of a name that the directory has, while the process has a free descriptor: it returns the
-- lowest free descriptor, which is then in use, at the start of the file that was found, with the
-- functions of its type; nothing else changes.
pub sys_open_lem :
    (pid filename : ℕ) {j e : ℕ} (k : Kernel) {d : Driver}
    → filename ≢ 0
    → read_dentry_by_name (mem_of k) k.boot_block (user k filename) 1 ≡ some (found e)
    → file_table (file_type (mem_of k) e) ≡ some d
    → FirstFree (k.file_array pid) 0 max_open_files j
    → sys_open pid filename k ≡ some (pos j, set_fd pid j (opened d e k) k)
unfolding sys_open
sys_open_lem pid filename {j} {e} k {d} there hit row free =
    let null : (filename == 0) ≡ false = ground arith in
    let place = free_fd-FirstFree max_open_files (k.file_array pid) 0 j free in
    let room : (j == max_open_files) ≡ false = ground (arith, free.below) in
    rw (null, sys_open)
      (rw (hit, sys_open)
        (rw (place, sys_open)
          (rw (room, sys_open) (install_lem pid j e (user k filename) k row hit))))

-- `open` fails, and changes nothing, for NULL, for a name that the directory does not have, and
-- while all eight descriptors are in use.
pub sys_open_fails :
    (pid filename : ℕ) (k : Kernel) {e : ℕ}
    → (filename ≡ 0)
      ⊎ ((read_dentry_by_name (mem_of k) k.boot_block (user k filename) 1 ≡ some missing)
          ⊎ ((read_dentry_by_name (mem_of k) k.boot_block (user k filename) 1 ≡ some (found e))
              × ((l : ℕ) → l < max_open_files → (k.file_array pid l).flags ≢ 0)))
    → sys_open pid filename k ≡ some (negsuc 0, k)
unfolding sys_open
sys_open_fails pid filename k (inl null) = ground (arith, null)
sys_open_fails pid filename k (inr (inl nowhere)) = ground (arith, nowhere)
sys_open_fails pid filename k (inr (inr (hit, full))) =
    let place = free_fd-full max_open_files (k.file_array pid) 0 (λ l low high. full l high) in
    elim (Bool-cases (filename == 0)) [
      | inl null ↦ ground (arith, null)
      | inr there ↦ rw (there, sys_open) (rw (hit, sys_open) (rw (place, sys_open) refl))
    ]

closes :
    (inode : ℕ)
    → (close_driver rtc inode ≡ pos 0)
      × (close_driver dir inode ≡ pos 0)
      × (close_driver file inode ≡ pos 0)
unfolding close_driver rtc_close dir_close file_close
closes inode = (refl, refl, refl)

close_driver-table :
    (t inode : ℕ) {d : Driver} → file_table t ≡ some d → close_driver d inode ≡ pos 0
unfolding file_table
close_driver-table zero inode {d} row =
    let is_rtc : rtc ≡ d = cc in subst (λ d. close_driver d inode ≡ pos 0) is_rtc (closes inode).0
close_driver-table (suc zero) inode {d} row =
    let is_dir : dir ≡ d = cc in subst (λ d. close_driver d inode ≡ pos 0) is_dir (closes inode).1
close_driver-table (suc (suc zero)) inode {d} row =
    let is_file : file ≡ d = cc in
    subst (λ d. close_driver d inode ≡ pos 0) is_file (closes inode).2
close_driver-table (suc (suc (suc n))) inode row = cc

sys_close-opened :
    (pid j e : ℕ) (k : Kernel) (t : ℕ) {d : Driver}
    → file_table t ≡ some d
    → j < max_open_files
    → sys_close pid (pos j) (set_fd pid j (opened d e k) k)
      ≡ (pos 0, set_fd pid j (closed (opened d e k)) (set_fd pid j (opened d e k) k))
unfolding sys_close
sys_close-opened pid j e k t {d} row lt =
    let k1 = set_fd pid j (opened d e k) k in
    let entry : k1.file_array pid j ≡ opened d e k = set_fd-entry pid j (opened d e k) k in
    let in_range : leb max_open_files j ≡ false = ground arith in
    rw (in_range, sys_close)
      (rw (entry, sys_close)
        (ap (λ r. (r, set_fd pid j (closed (opened d e k)) k1))
          (close_driver-table t (inode_num (mem_of k) e) row)))

-- Opening a file and closing the descriptor that `open` returned: `close` succeeds, the descriptor is
-- the lowest free one again, and all other descriptors are as they were.
pub open_close :
    (pid filename : ℕ) {j e : ℕ} (k : Kernel) {d : Driver}
    → filename ≢ 0
    → read_dentry_by_name (mem_of k) k.boot_block (user k filename) 1 ≡ some (found e)
    → file_table (file_type (mem_of k) e) ≡ some d
    → FirstFree (k.file_array pid) 0 max_open_files j
    → (k1 : Kernel) × (k2 : Kernel) × (sys_open pid filename k ≡ some (pos j, k1))
      × (sys_close pid (pos j) k1 ≡ (pos 0, k2))
      × FirstFree (k2.file_array pid) 0 max_open_files j
      × ((p i : ℕ) → (p ≢ pid) ⊎ (i ≢ j) → k2.file_array p i ≡ k.file_array p i)
open_close pid filename {j} {e} k {d} there hit row free =
    let k1 = set_fd pid j (opened d e k) k in
    let k2 = set_fd pid j (closed (opened d e k)) k1 in
    (
      k1,
      k2,
      sys_open_lem pid filename k there hit row free,
      sys_close-opened pid j e k (file_type (mem_of k) e) row free.below,
      record {
        from = free.from;
        below = free.below;
        free = ground arith;
        first = λ l low high. ground (arith, free.first l low high);
      },
      λ p i other. ground (arith, other),
    )
