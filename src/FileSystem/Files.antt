-- ===== src/FileSystem/Files.antt =====
-- `file_read`, `load_program` and `dir_read`: the helpers that clear the buffer first.
use ece391_mp.Base.{
  ℕ, zero, suc, ◌+◌, ◌-◌, ◌^◌, ◌<◌, ◌≤◌, ◌≡◌, ◌⊎◌, refl, arith, true, false, leb, ltb, ◌&&◌, ◌==◌,
  inl, inr, min, Bool-cases, if◌then◌else◌, ◌≢◌, ◌∙◌, ap, some,
}
use ece391_mp.Base.Int.{pos, signed32, eq→eqb_ℤ}
use ece391_mp.Base.Mem.{Mem, write}
use ece391_mp.Str.{strncpy}
use ece391_mp.Str.Length.{IsStr, IsStr-same, strlen-IsStr}
use ece391_mp.Str.Copy.{Apart, strncpy_lem}
use ece391_mp.FileSystem.{
  inode_at, inode_length, name_size, clear_loop, file_read, dir_read, load_program, success,
  failure, num_dentries, dentry_at, read_dentry_by_index,
}
use ece391_mp.FileSystem.Image.{
  HasFile, file_byte, inode_length-same, inode_length-write, file_byte-write, HasFile-write,
}
use ece391_mp.FileSystem.Read.{available, read_data_lem}

-- The `c` bytes that the loop clears: up to the first NUL, at most those of a name.
record Clears (m m' : Mem) (k buf i c : ℕ) : Type 0 where
  few : c ≤ k
  clears : (x : ℕ) → m' x ≡ (if leb (buf + i) x && ltb x (buf + i + c) then 0 else m x)
  stops : (c ≡ k) ⊎ (m (buf + i + c) ≡ 0)

clear_loop-Clears :
    (k : ℕ) (m : Mem) (buf i : ℕ) → (c : ℕ) × Clears m (clear_loop k m buf i) k buf i c
unfolding clear_loop
clear_loop-Clears zero m buf i =
    (0, record { few = omega arith; clears = λ x. ground arith; stops = inl refl })
clear_loop-Clears (suc k) m buf i = elim (Bool-cases (m (buf + i) == 0)) [
  | inl end ↦ (
    0,
    rw (end, clear_loop)
        (record { few = omega arith; clears = λ x. ground arith; stops = ground arith }),
  )
  | inr more ↦
      let (c, rest) = clear_loop-Clears k (write m (buf + i) 0) buf (i + 1) in
      (
        suc c,
        rw (more, clear_loop)
            (record {
              few = omega (arith, rest.few);
              clears = λ x. ground (arith, rest.clears x);
              stops = ground (arith, rest.stops);
            }),
      )
]

-- What clearing beside the image keeps of a file.
record Keeps (m m' : Mem) (boot_block size n : ℕ) : Type 0 where
  file : HasFile m' boot_block size n
  same_length : inode_length m' (inode_at boot_block n) ≡ inode_length m (inode_at boot_block n)
  same_bytes :
      (k : ℕ)
      → k < inode_length m (inode_at boot_block n)
      → file_byte m' boot_block n k ≡ file_byte m boot_block n k

clear_loop-Keeps :
    (k : ℕ) (m : Mem) (boot_block size n buf i : ℕ)
    → HasFile m boot_block size n
    → Apart boot_block size (buf + i) k
    → Keeps m (clear_loop k m buf i) boot_block size n
unfolding clear_loop
clear_loop-Keeps zero m boot_block size n buf i file apart = record {
  file = file;
  same_length = refl;
  same_bytes = λ k lt. refl;
}
clear_loop-Keeps (suc k) m boot_block size n buf i file apart =
    elim (Bool-cases (m (buf + i) == 0)) [
      | inl end ↦
          rw (end, clear_loop)
            (record { file = file; same_length = refl; same_bytes = λ k lt. refl })
      | inr more ↦
          let out : (buf + i < boot_block) ⊎ (boot_block + size ≤ buf + i) = omega arith in
          let same = inode_length-write file 0 out in
          let rest =
            clear_loop-Keeps k (write m (buf + i) 0) boot_block size n buf (i + 1)
              (HasFile-write file 0 out) (omega arith) in
          rw (more, clear_loop)
            (record {
              file = rest.file;
              same_length = rest.same_length ∙ same;
              same_bytes = λ j lt. rest.same_bytes j (rw same lt) ∙ file_byte-write file 0 out j lt;
            })
    ]

-- `file_read` of a file in use, within its length, into a buffer beside the image. It returns the
-- number of bytes that are asked for and there, and stores those bytes of the file. Beyond them it
-- has also cleared the buffer up to its first NUL, or 32 bytes, whatever `nbytes` is.
pub file_read_lem :
    (m : Mem) (boot_block size n offset buf nbytes : ℕ)
    → HasFile m boot_block size n
    → offset ≤ inode_length m (inode_at boot_block n)
    → nbytes < 2 ^ 31
    → buf ≢ 0
    → Apart boot_block size buf (nbytes + name_size)
    → let count = available m boot_block n offset nbytes in
      ((file_read m boot_block n buf nbytes offset).0 ≡ pos count)
      × ((c : ℕ) × (c ≤ name_size)
          × ((c ≡ name_size) ⊎ (m (buf + c) ≡ 0))
          × ((x : ℕ)
              → (file_read m boot_block n buf nbytes offset).1 x ≡ (
                  if leb buf x && ltb x (buf + count)
                  then file_byte m boot_block n (offset + (x - buf))
                  else if leb buf x && ltb x (buf + c)
                  then 0
                  else m x)))
unfolding file_read
file_read_lem m boot_block size n offset buf nbytes file le short nonnull apart =
    let cleared = clear_loop name_size m buf 0 in
    let keeps = clear_loop-Keeps name_size m boot_block size n buf 0 file (omega arith) in
    let (c, clears) = clear_loop-Clears name_size m buf 0 in
    let (count, bytes) =
      read_data_lem cleared boot_block size n offset buf nbytes keeps.file
        (omega (arith, keeps.same_length)) short nonnull (omega arith) in
    (
      ground (arith, count, keeps.same_length),
      (
        c,
        clears.few,
        ground (arith, clears.stops),
        λ x. ground (
          arith,
          bytes x,
          clears.clears x,
          keeps.same_length,
          keeps.same_bytes (offset + (x - buf)),
        ),
      ),
    )

-- `load_program` of a file in use succeeds, and puts the whole file at `addr`, which is not NULL and
-- lies beside the image with room for the file and 32 bytes more.
pub load_program_lem :
    (m : Mem) (boot_block size n addr : ℕ)
    → HasFile m boot_block size n
    → addr ≢ 0
    → Apart boot_block size addr (inode_length m (inode_at boot_block n) + name_size)
    → ((load_program m boot_block n addr).0 ≡ success)
      × ((k : ℕ)
          → k < inode_length m (inode_at boot_block n)
          → (load_program m boot_block n addr).1 (addr + k) ≡ file_byte m boot_block n k)
unfolding load_program
load_program_lem m boot_block size n addr file nonnull apart =
    let len = inode_length m (inode_at boot_block n) in
    let (count, (c, few, stops, bytes)) =
      file_read_lem m boot_block size n 0 addr len file (omega arith) (omega (arith, file.short))
        nonnull apart in
    let m' = (file_read m boot_block n addr len 0).1 in
    let same : inode_length m' (inode_at boot_block n) ≡ len =
      inode_length-same m m' boot_block size n file.inode_in (λ x ge lt. ground (arith, bytes x)) in
    let small : ltb len (2 ^ 31) ≡ true = ground (arith, file.short) in
    let counted : (file_read m boot_block n addr len 0).0 ≡ signed32 len =
      rw (count, small) (ap pos (omega arith)) in
    (rw same (rw (eq→eqb_ℤ _ _ counted)), λ k lt. ground (arith, bytes (addr + k)))

-- `dir_read` of entry `i` below 63, whose name is a string of `len` bytes apart from the buffer and the
-- 32 bytes behind it, and of fewer than 2^31 bytes, returns the smaller of `len` and `nbytes`, with
-- that many bytes of the name in the buffer.
pub dir_read_lem :
    (m : Mem) (boot_block i fd buf nbytes len : ℕ)
    → i < num_dentries
    → IsStr m (dentry_at boot_block i) len
    → nbytes < 2 ^ 31
    → Apart (dentry_at boot_block i) (len + 1) buf (nbytes + name_size)
    → let count = min nbytes len in
      (m' : Mem) × (dir_read m boot_block fd buf nbytes i ≡ some (pos count, m'))
      × ((k : ℕ) → k < count → m' (buf + k) ≡ m (dentry_at boot_block i + k))
unfolding dir_read read_dentry_by_index
dir_read_lem m boot_block i fd buf nbytes len lt name short apart =
    let e = dentry_at boot_block i in
    let cleared = clear_loop name_size m buf 0 in
    let (c, clears) = clear_loop-Clears name_size m buf 0 in
    let same : (x : ℕ) → e ≤ x → x ≤ e + len → cleared x ≡ m x =
      λ x ge le. ground (arith, clears.clears x, clears.few) in
    let name' = IsStr-same cleared name same in
    let n = if ltb len nbytes then len else nbytes in
    let n_is : n ≡ min nbytes len = ground arith in
    let within : leb num_dentries i ≡ false = ground arith in
    let small : ltb n (2 ^ 31) ≡ true = ground arith in
    let copied = strncpy_lem cleared buf e n len name' (omega arith) in
    (
      strncpy cleared buf e n,
      rw (within, dir_read)
          (rw (strlen-IsStr name', dir_read)
            (rw small (ap (λ k. some (pos k, strncpy cleared buf e n)) n_is))),
      λ k below. ground (arith, copied (buf + k), same (e + k)),
    )

-- `dir_read` fails behind the last slot of the directory.
pub dir_read_fails :
    (m : Mem) (boot_block fd buf nbytes i : ℕ)
    → num_dentries ≤ i
    → dir_read m boot_block fd buf nbytes i ≡ some (failure, clear_loop name_size m buf 0)
unfolding dir_read read_dentry_by_index
dir_read_fails m boot_block fd buf nbytes i le =
    let behind : leb num_dentries i ≡ true = ground arith in rw (behind, dir_read)
