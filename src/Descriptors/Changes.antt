-- ===== src/Descriptors/Changes.antt =====
-- What each call may change in the descriptor tables.
use ece391_mp.Base.{
  ℕ, ◌<◌, ◌≡◌, ◌≢◌, ◌⊎◌, inl, inr, refl, arith, ap, ◌∙◌, Option, none, some, Option-cases,
  Bool-cases, true, false, leb, ◌==◌, ◌||◌, ◌&&◌, if◌then◌else◌,
}
use ece391_mp.Base.Int.{ℤ, pos, negsuc, ◌+ℤ◌, ltb_ℤ, eqb_ℤ, pattern32}
use ece391_mp.Pic.{sti}
use ece391_mp.Kernel.{Driver, nofunc, std_in, std_out, rtc, dir, file, Fd, Kernel, user}
use ece391_mp.Descriptors.{max_open_files, set_fd, read_driver, sys_read, write_driver, sys_write}

-- The file type that goes with a row of the tables; the terminal has none, -1.
abbrev pub type_of : Driver → ℤ
type_of nofunc = negsuc 0
type_of std_in = negsuc 0
type_of std_out = negsuc 0
type_of rtc = pos 0
type_of dir = pos 1
type_of file = pos 2

-- A descriptor is free, or it is in use and its functions are those of its file type.
abbrev pub IsSound : Fd → Type 0
IsSound f = (f.flags ≡ 0) ⊎ ((f.flags ≡ 1) × (f.file_type ≡ type_of f.fop_jump_table))

abbrev pub AllSound : Kernel → Type 0
AllSound k = (pid fd : ℕ) → IsSound (k.file_array pid fd)

read_driver-files :
    (d : Driver) (inode buf n p : ℕ) (k : Kernel) {r : ℤ} {k' : Kernel}
    → read_driver d inode buf n p k ≡ some (r, k')
    → k'.file_array ≡ k.file_array
unfolding read_driver
read_driver-files nofunc inode buf n p k e = cc
read_driver-files std_in inode buf n p k e = ground arith
read_driver-files std_out inode buf n p k e = cc
read_driver-files rtc inode buf n p k e = ground arith
read_driver-files dir inode buf n p k e = ground arith
read_driver-files file inode buf n p k e = ground arith

write_driver-files :
    (d : Driver) (inode buf n : ℕ) (k : Kernel) {r : ℤ} {k' : Kernel}
    → write_driver d inode buf n k ≡ some (r, k')
    → k'.file_array ≡ k.file_array
unfolding write_driver
write_driver-files nofunc inode buf n k e = cc
write_driver-files std_in inode buf n k e = cc
write_driver-files std_out inode buf n k e = ground arith
write_driver-files rtc inode buf n k e = ground arith
write_driver-files dir inode buf n k e = cc
write_driver-files file inode buf n k e = cc

-- What a call of process `pid` may do to the tables: it leaves them, or it puts a sound descriptor
-- into one of the eight places of its own.
pub data Changes (pid : ℕ) (k k' : Kernel) : Type 0 where
  kept : k'.file_array ≡ k.file_array → Changes pid k k'
  put :
      (fd : ℕ) (f : Fd)
      → fd < max_open_files
      → ((IsSound (k.file_array pid fd)) → IsSound f)
      → k'.file_array ≡ (λ p i. if (p == pid) && (i == fd) then f else k.file_array p i)
      → Changes pid k k'

-- The descriptor behind a read that returned `retval`.
abbrev pub moved : Fd → ℤ → Fd
moved f retval = record f {
  file_position =
      f.file_position
      +ℤ (if eqb_ℤ f.file_type (pos 1)
          then (if ltb_ℤ (pos 0) retval then pos 1 else pos 0)
          else retval);
}

pub set_fd-files :
    (pid fd : ℕ) (f : Fd) (k k0 : Kernel)
    → k0.file_array ≡ k.file_array
    → (set_fd pid fd f k0).file_array
      ≡ (λ p i. if (p == pid) && (i == fd) then f else k.file_array p i)
set_fd-files pid fd f k k0 e = ap (λ a p i. if (p == pid) && (i == fd) then f else a p i) e

-- The call with `done`, what the driver returned.
pub sys_read-driver :
    (pid fd buf n : ℕ) (k : Kernel) {retval : ℤ} {k0 : Kernel}
    → let f = k.file_array pid fd in
      let ready = record k { keyboard = record (k.keyboard) { ports = sti k.keyboard.ports } } in
      read_driver f.fop_jump_table f.inode (user k buf) n (pattern32 f.file_position) ready
        ≡ some (retval, k0)
      → fd < max_open_files
      → buf ≢ 0
      → sys_read pid (pos fd) buf n k
        ≡ some (
          if (f.flags == 0) && eqb_ℤ retval (pos 1) then negsuc 0 else retval,
          set_fd pid fd (moved f retval) k0,
        )
unfolding sys_read
sys_read-driver pid fd buf n k e lt there = ground (arith, e)

pub sys_read_refused :
    (pid fd buf n : ℕ) (k : Kernel)
    → (leb max_open_files fd || (buf == 0)) ≡ true
    → sys_read pid (pos fd) buf n k ≡ some (negsuc 0, k)
unfolding sys_read
sys_read_refused pid fd buf n k e = ground (arith, e)

pub sys_read_blocked :
    (pid fd buf n : ℕ) (k : Kernel)
    → let f = k.file_array pid fd in
      let ready = record k { keyboard = record (k.keyboard) { ports = sti k.keyboard.ports } } in
      read_driver f.fop_jump_table f.inode (user k buf) n (pattern32 f.file_position) ready ≡ none
      → (leb max_open_files fd || (buf == 0)) ≡ false
      → sys_read pid (pos fd) buf n k ≡ none
unfolding sys_read
sys_read_blocked pid fd buf n k e ok = ground (arith, e)

-- Two results of one call are one.
pub result_of :
    {c : Option (ℤ × Kernel)} {r s : ℤ} {k' k'' : Kernel}
    → c ≡ some (r, k')
    → c ≡ some (s, k'')
    → k' ≡ k''
result_of e e' = cc

pub sys_read-Changes :
    (pid : ℕ) (fd : ℤ) (buf n : ℕ) (k : Kernel) {r : ℤ} {k' : Kernel}
    → sys_read pid fd buf n k ≡ some (r, k')
    → Changes pid k k'
unfolding sys_read
sys_read-Changes pid (negsuc i) buf n k e = kept (ap (λ x. x.file_array) (result_of e refl))
sys_read-Changes pid (pos fd) buf n k {r} {k'} e =
    elim (Bool-cases (leb max_open_files fd || (buf == 0))) [
      | inl no_file ↦
          kept (ap (λ x. x.file_array) (result_of e (sys_read_refused pid fd buf n k no_file)))
      | inr ok ↦
          let f = k.file_array pid fd in
          let ready = record k {
            keyboard = record (k.keyboard) { ports = sti k.keyboard.ports };
          } in
          let lt : fd < max_open_files = ground (arith, ok) in
          let there : buf ≢ 0 = ground (arith, ok) in
          elim (Option-cases (
            read_driver f.fop_jump_table f.inode (user k buf) n (pattern32 f.file_position)
              ready)) [
                | inl waits ↦ absurd (cc (e, sys_read_blocked pid fd buf n k waits ok))
                | inr ((retval, k0), done) ↦
                    let same =
                      read_driver-files f.fop_jump_table f.inode (user k buf) n
                        (pattern32 f.file_position) ready done in
                    put fd (moved f retval) lt (λ h. h)
                      (ap (λ x. x.file_array)
                          (result_of e (sys_read-driver pid fd buf n k done lt there))
                        ∙ set_fd-files pid fd (moved f retval) k k0 same)
              ]
    ]

pub sys_write-Changes :
    (pid : ℕ) (fd : ℤ) (buf n : ℕ) (k : Kernel) {r : ℤ} {k' : Kernel}
    → sys_write pid fd buf n k ≡ some (r, k')
    → Changes pid k k'
unfolding sys_write
sys_write-Changes pid (negsuc i) buf n k e = kept (ap (λ x. x.file_array) (result_of e refl))
sys_write-Changes pid (pos fd) buf n k e =
    let f = k.file_array pid fd in
    elim (Bool-cases (leb max_open_files fd || (buf == 0))) [
      | inl no_file ↦ kept (ap (λ x. x.file_array) (result_of (rw no_file at e) refl))
      | inr ok ↦ kept (write_driver-files f.fop_jump_table f.inode (user k buf) n k (rw ok at e))
    ]
