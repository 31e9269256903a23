-- ===== src/Programs/Files.antt =====
-- `cat` and `ls`: syscalls/ece391cat.c and syscalls/ece391ls.c. `buf` is the address of the array.
use ece391_mp.Base.{ℕ, zero, suc, if◌then◌else◌}
use ece391_mp.Base.Int.{ℤ, pos, negsuc, ◌+ℤ◌, eqb_ℤ}
use ece391_mp.Programs.{Act, ◌>>=◌, ◌>>◌, return, stuck, Calls, index, poke, put_text}

module _ {S : Type 0} (c : Calls S) where
  open c use {text, ece391_read, ece391_write, ece391_open, ece391_getargs}

  -- The loop of `cat`, with the rounds that are left.
  unfoldable pub cat_loop : ℕ → ℕ → ℤ → Act S ℤ
  unfolding put_text
  cat_loop zero buf fd = stuck
  cat_loop (suc k) buf fd = do
    cnt ← ece391_read fd buf (pos 1024)
    if eqb_ℤ cnt (pos 0)
        then return (pos 0)
        else if eqb_ℤ cnt (negsuc 0)
        then (put_text c (text "file read failed\n") >> return (pos 3))
        else do
          r ← ece391_write (pos 1) buf cnt
          if eqb_ℤ r (negsuc 0) then return (pos 3) else cat_loop k buf fd

  -- `cat`, behind the arguments.
  unfoldable pub cat_file : ℕ → ℕ → Act S ℤ
  unfolding put_text cat_loop
  cat_file k buf = do
    fd ← ece391_open buf
    if eqb_ℤ fd (negsuc 0)
        then (put_text c (text "file not found\n") >> return (pos 2))
        else cat_loop k buf fd

  unfoldable pub cat : ℕ → ℕ → Act S ℤ
  unfolding put_text cat_file
  cat k buf = do
    r ← ece391_getargs buf (pos 1024)
    if eqb_ℤ r (pos 0)
        then cat_file k buf
        else (put_text c (text "could not read arguments\n") >> return (pos 3))

  -- The loop of `ls`, with the rounds that are left.
  unfoldable pub ls_loop : ℕ → ℕ → ℤ → Act S ℤ
  unfolding put_text
  ls_loop zero buf fd = stuck
  ls_loop (suc k) buf fd = do
    cnt ← ece391_read fd buf (pos 32)
    if eqb_ℤ cnt (pos 0)
        then return (pos 0)
        else if eqb_ℤ cnt (negsuc 0)
        then (put_text c (text "directory entry read failed\n") >> return (pos 3))
        else do
          poke c (index buf cnt) b'\n'
          r ← ece391_write (pos 1) buf (cnt +ℤ pos 1)
          if eqb_ℤ r (negsuc 0) then return (pos 3) else ls_loop k buf fd

  unfoldable pub ls : ℕ → ℕ → Act S ℤ
  unfolding put_text ls_loop
  ls k buf = do
    fd ← ece391_open (text ".")
    if eqb_ℤ fd (negsuc 0)
        then (put_text c (text "directory open failed\n") >> return (pos 2))
        else ls_loop k buf fd
