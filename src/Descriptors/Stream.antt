-- ===== src/Descriptors/Stream.antt =====
-- Reading a file through its descriptor.
use ece391_mp.Base.{
  ℕ, ◌+◌, ◌-◌, ◌^◌, ◌<◌, ◌≤◌, ◌≡◌, ◌≢◌, inl, inr, refl, arith, ap, sym, ◌∙◌, some, true, false, leb,
  ltb, ◌==◌, ◌&&◌, if◌then◌else◌, Bool-cases, if_true,
}
use mathlib.Core.Path.{subst}
use ece391_mp.Base.Int.{pos, negsuc, eqb_ℤ, eqb_ℤ→eq, pattern32}
use ece391_mp.Str.Copy.{Apart}
use ece391_mp.FileSystem.{file_read, inode_length, inode_at, name_size}
use ece391_mp.FileSystem.Image.{HasFile, file_byte}
use ece391_mp.FileSystem.Read.{available}
use ece391_mp.FileSystem.Files.{file_read_lem}
use ece391_mp.Kernel.{Driver, file, Fd, Kernel, mem_of, with_mem, user}
use ece391_mp.Pic.{sti}
use ece391_mp.Descriptors.{max_open_files, read_driver, set_fd, sys_read, sys_close}
use ece391_mp.Descriptors.Changes.{moved, sys_read-driver}
use ece391_mp.Descriptors.Opening.{closed}

-- A descriptor with the functions of a regular file, on a file in use, at byte `p` of it.
pub record IsFile (k : Kernel) (size : ℕ) (f : Fd) (p : ℕ) : Type 0 where
  pub driver : f.fop_jump_table ≡ file
  pub typed : f.file_type ≢ pos 1
  pub at : f.file_position ≡ pos p
  pub used : HasFile (mem_of k) k.boot_block size f.inode
  pub within : p ≤ inode_length (mem_of k) (inode_at k.boot_block f.inode)

read_driver-file :
    (d : Driver) (inode a n q p : ℕ) (k : Kernel)
    → d ≡ file
    → q ≡ p
    → let (r, m) = file_read (mem_of k) k.boot_block inode a n p in
      read_driver d inode a n q k ≡ some (r, with_mem m k)
unfolding read_driver
read_driver-file d inode a n q p k e e' = rw (e, read_driver) (rw e' refl)

inside :
    (a i count : ℕ) (byte : ℕ → ℕ) (other : ℕ)
    → i < count
    → (if leb a (a + i) && ltb (a + i) (a + count) then byte (a + i - a) else other) ≡ byte i
inside a i count byte other lt =
    if_true {b = leb a (a + i) && ltb (a + i) (a + count)} _ _ (ground arith)
    ∙ ap byte (omega arith)

moved_file :
    (pid fd p count : ℕ) (f : Fd) (k : Kernel)
    → f.file_type ≢ pos 1
    → f.file_position ≡ pos p
    → ((set_fd pid fd (moved f (pos count)) k).file_array pid fd).file_position ≡ pos (p + count)
moved_file pid fd p count f k other at =
    let not_dir : eqb_ℤ f.file_type (pos 1) ≡ false =
      elim (Bool-cases (eqb_ℤ f.file_type (pos 1))) [
        | inl is_dir ↦ absurd (other (eqb_ℤ→eq _ _ is_dir))
        | inr e ↦ e
      ] in
    let here : ((pid == pid) && (fd == fd)) ≡ true = ground arith in
    ap (λ x. x.file_position) (if_true (moved f (pos count)) (k.file_array pid fd) here)
    ∙ rw (not_dir, at) (ground arith)

-- What a read of `n` bytes does at byte `p` of the file of `f`, which is descriptor `fd`: it puts the
-- bytes of the file from `p` on into the buffer, as many as are asked for and there, and the position
-- is behind them. The result is their number, but -1 for one byte where the descriptor is free.
abbrev pub Delivered : ℕ → ℕ → ℕ → ℕ → ℕ → Kernel → Fd → Type 0
Delivered pid fd buf n p k f =
    let count = available (mem_of k) k.boot_block f.inode p n in
    (k' : Kernel) × (sys_read pid (pos fd) buf n k
      ≡ some (if (f.flags == 0) && eqb_ℤ (pos count) (pos 1) then negsuc 0 else pos count, k'))
    × ((k'.file_array pid fd).file_position ≡ pos (p + count))
    × ((i : ℕ)
        → i < count
        → mem_of k' (user k buf + i) ≡ file_byte (mem_of k) k.boot_block f.inode (p + i))

-- Reading through the descriptor of a regular file, with `p` as its position, into a buffer beside
-- the image: the call returns, -1 for one byte where the descriptor is free, and has delivered the bytes of the file from `p` on, as
-- many as are asked for and there, and the position is behind them.
pub sys_read_file :
    {pid fd buf n size p : ℕ} {k : Kernel}
    → IsFile k size (k.file_array pid fd) p
    → fd < max_open_files
    → n < 2 ^ 31
    → buf ≢ 0
    → user k buf ≢ 0
    → Apart k.boot_block size (user k buf) (n + name_size)
    → Delivered pid fd buf n p k (k.file_array pid fd)
sys_read_file {pid} {fd} {buf} {n} {size} {p} {k} h lt short there there' apart =
    let f = k.file_array pid fd in
    let count = available (mem_of k) k.boot_block f.inode p n in
    let a = user k buf in
    let ready = record k { keyboard = record (k.keyboard) { ports = sti k.keyboard.ports } } in
    let q : pattern32 f.file_position ≡ p =
      ap pattern32 h.at ∙ omega (arith, h.within, h.used.short) in
    let (r, bytes) =
      file_read_lem (mem_of k) k.boot_block size f.inode p a n h.used h.within short there' apart in
    let (c, small, stops, stored) = bytes in
    let done =
      read_driver-file f.fop_jump_table f.inode a n (pattern32 f.file_position) p ready h.driver
        q in
    let call = sys_read-driver pid fd buf n k done lt there in
    let k0 = with_mem (file_read (mem_of k) k.boot_block f.inode a n p).1 ready in
    (
      set_fd pid fd (moved f (pos count)) k0,
      rw r at call,
      moved_file pid fd p count f k0 h.typed h.at,
      λ i below.
          stored (a + i)
          ∙ inside a i count (λ x. file_byte (mem_of k) k.boot_block f.inode (p + x)) _ below,
    )

pub set_fd-entry : (pid fd : ℕ) (f : Fd) (k : Kernel) → (set_fd pid fd f k).file_array pid fd ≡ f
set_fd-entry pid fd f k = ground arith

sys_close-used :
    (pid fd : ℕ) (k : Kernel)
    → fd < max_open_files
    → (k.file_array pid fd).flags ≢ 0
    → (sys_close pid (pos fd) k).1 ≡ set_fd pid fd (closed (k.file_array pid fd)) k
unfolding sys_close
sys_close-used pid fd k lt used = ground arith

many :
    (count : ℕ)
    → 2 ≤ count
    → (if eqb_ℤ (pos count) (pos 1) then negsuc 0 else pos count) ≡ pos count
many count two = ground arith

-- `fd` is free in `k1`, and yet a read through it delivers `count` bytes of the file with inode 0.
abbrev pub Reads : ℕ → ℕ → ℕ → ℕ → Kernel → Kernel → ℕ → Type 0
Reads pid fd buf n k k1 count =
    ((k1.file_array pid fd).flags ≡ 0)
    × ((k' : Kernel) × (sys_read pid (pos fd) buf n k1 ≡ some (pos count, k'))
        × ((i : ℕ)
            → i < count
            → mem_of k' (user k buf + i) ≡ file_byte (mem_of k) k.boot_block 0 i))

-- A free descriptor that `close` has left still reads: of a closed regular file, `read` returns bytes
-- of the file with inode 0 from its start, where there are two or more of them.
pub sys_read_closed :
    (pid fd buf n : ℕ) {size : ℕ} (k : Kernel)
    → fd < max_open_files
    → (k.file_array pid fd).flags ≢ 0
    → (k.file_array pid fd).fop_jump_table ≡ file
    → HasFile (mem_of k) k.boot_block size 0
    → n < 2 ^ 31
    → buf ≢ 0
    → user k buf ≢ 0
    → Apart k.boot_block size (user k buf) (n + name_size)
    → 2 ≤ available (mem_of k) k.boot_block 0 0 n
    → Reads pid fd buf n k (sys_close pid (pos fd) k).1 (available (mem_of k) k.boot_block 0 0 n)
sys_read_closed pid fd buf n {size} k lt used driver has short there there' apart two =
    let f = k.file_array pid fd in
    let k2 = set_fd pid fd (closed f) k in
    let is_file : IsFile k2 size (closed f) 0 = record {
      driver = driver;
      typed = λ e. cc;
      at = refl;
      used = has;
      within = omega arith;
    } in
    let count = available (mem_of k) k.boot_block 0 0 n in
    let delivered : Delivered pid fd buf n 0 k2 (closed f) =
      subst (Delivered pid fd buf n 0 k2) (set_fd-entry pid fd (closed f) k) (
        sys_read_file {pid = pid} {fd = fd} {buf = buf} {n = n} {size = size} {p = 0} {k = k2}
          (subst (λ g. IsFile k2 size g 0) (sym (set_fd-entry pid fd (closed f) k)) is_file) lt
          short there there' apart) in
    subst (λ k1. Reads pid fd buf n k k1 count) (sym (sys_close-used pid fd k lt used))
      (
        ap (λ x. x.flags) (set_fd-entry pid fd (closed f) k),
        (
          delivered.0,
          delivered.1 ∙ ap (λ r. some (r, delivered.0)) (many count two),
          λ i below. delivered.3 i below ∙ ap (file_byte (mem_of k) k.boot_block 0) (omega arith),
        ),
      )
