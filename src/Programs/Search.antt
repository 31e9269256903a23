-- ===== src/Programs/Search.antt =====
-- `grep`: syscalls/ece391grep.c. `bytes`, `buf` and `search` are the addresses of its arrays `data`,
-- `buf` and `search`.
use ece391_mp.Base.{
  ℕ, zero, suc, ◌+◌, ◌-◌, Bool, true, false, not, ◌&&◌, some, leb, ◌==◌, if◌then◌else◌,
}
use ece391_mp.Base.Int.{ℤ, pos, negsuc, eqb_ℤ}
use ece391_mp.Base.Mem.{Mem}
use ece391_mp.Support.{ece391_strlen, ece391_strcpy, ece391_strncmp}
use ece391_mp.Programs.{
  Act, ◌>>=◌, ◌>>◌, return, stuck, Calls, index, peek, poke, on_mem, change_mem, put_text,
}

-- `while (line_end < last && '\n' != bytes[line_end]) line_end++;`, with the rounds that are left.
unfoldable pub find_end : ℕ → Mem → ℕ → ℕ → ℕ
find_end zero m bytes line_end = line_end
find_end (suc k) m bytes line_end = elim (m (bytes + line_end) == b'\n') [
  | true ↦ line_end
  | false ↦ find_end k m bytes (line_end + 1)
]

-- Whether the loop over `check` finds the text, with the rounds that are left.
unfoldable pub has_match : ℕ → Mem → ℕ → ℕ → ℕ → ℕ → Bool
has_match zero m bytes s s_len check = false
has_match (suc k) m bytes s s_len check =
    elim ((m s == m (bytes + check)) && eqb_ℤ (ece391_strncmp m (bytes + check) s s_len) (pos 0)) [
      | true ↦ true
      | false ↦ has_match k m bytes s s_len (check + 1)
    ]

module _ {S : Type 0} (c : Calls S) where
  open c use {text, ece391_read, ece391_open, ece391_close, ece391_getargs}

  -- The line of a match, behind the name of the file.
  unfoldable pub show_match : ℕ → ℕ → Act S ℤ
  unfolding put_text
  show_match fname line = do
    put_text c fname
    put_text c (text ":")
    put_text c line
    put_text c (text "\n")

  -- The inner loop of `do_one_file`, with the rounds that are left: the new value of `last`.
  unfoldable pub scan_lines : ℕ → ℕ → ℕ → ℕ → ℕ → ℕ → ℕ → ℕ → Act S ℕ
  unfolding find_end has_match show_match
  scan_lines zero bytes s s_len fname cnt line_start last = stuck
  scan_lines (suc k) bytes s s_len fname cnt line_start last = do
    line_end ← on_mem c (λ m. some (find_end (last - line_start) m bytes line_start))
    ending ← peek c (bytes + line_end)
    poke c (bytes + line_end) 0
    if not (ending == b'\n') && not (cnt == 0) && not (line_start == 0)
        then (change_mem c (λ m. ece391_strcpy m bytes (bytes + line_start))
            >> return (last - line_start))
        else do
          found ←
              on_mem c (λ m. some (has_match (line_end - line_start) m bytes s s_len line_start))
          if found then show_match fname (bytes + line_start) else return (pos 0)
          if leb last (line_end + 1)
              then return 0
              else scan_lines k bytes s s_len fname cnt (line_end + 1) last

  -- The outer loop, with the rounds that are left, for reads that return -1 or more.
  unfoldable pub read_lines : ℕ → ℕ → ℕ → ℕ → ℕ → ℤ → ℕ → Act S ℤ
  unfolding scan_lines put_text
  read_lines zero bytes s s_len fname fd last = stuck
  read_lines (suc k) bytes s s_len fname fd last = do
    cnt ← ece391_read fd (bytes + last) (pos (1024 - last))
    elim cnt [
      | negsuc n ↦ put_text c (text "file read failed\n") >> return (negsuc 0)
      | pos n ↦ do
        rest ← scan_lines (last + n + 1) bytes s s_len fname n 0 (last + n)
        if n == 0 then return (pos 0) else read_lines k bytes s s_len fname fd rest
    ]

  unfoldable pub do_one_file : ℕ → ℕ → ℕ → ℕ → Act S ℤ
  unfolding read_lines put_text
  do_one_file k bytes s fname = do
    s_len ← on_mem c (λ m. ece391_strlen m s)
    fd ← ece391_open fname
    if eqb_ℤ fd (negsuc 0)
        then (put_text c (text "file open failed\n") >> return (negsuc 0))
        else do
          r ← read_lines k bytes s s_len fname fd 0
          if eqb_ℤ r (negsuc 0) then return (negsuc 0) else do
            closed ← ece391_close fd
            if eqb_ℤ closed (negsuc 0)
                then (put_text c (text "file close failed\n") >> return (negsuc 0))
                else return (pos 0)

  -- The loop of `main`, with the rounds that are left.
  unfoldable pub grep_loop : ℕ → ℕ → ℕ → ℕ → ℤ → Act S ℤ
  unfolding do_one_file put_text
  grep_loop zero bytes buf search fd = stuck
  grep_loop (suc k) bytes buf search fd = do
    cnt ← ece391_read fd buf (pos 32)
    if eqb_ℤ cnt (pos 0)
        then return (pos 0)
        else if eqb_ℤ cnt (negsuc 0)
        then (put_text c (text "directory entry read failed\n") >> return (pos 3))
        else do
          first ← peek c buf
          if first == b'.' then grep_loop k bytes buf search fd else do
            poke c (index buf cnt) 0
            r ← do_one_file k bytes search buf
            if eqb_ℤ r (pos 0) then grep_loop k bytes buf search fd else return (pos 3)

  -- `main`, behind the argument.
  unfoldable pub grep_directory : ℕ → ℕ → ℕ → ℕ → Act S ℤ
  unfolding grep_loop put_text
  grep_directory k bytes buf search = do
    fd ← ece391_open (text ".")
    if eqb_ℤ fd (negsuc 0)
        then (put_text c (text "directory open failed\n") >> return (pos 2))
        else grep_loop k bytes buf search fd

  unfoldable pub grep : ℕ → ℕ → ℕ → ℕ → Act S ℤ
  unfolding grep_directory put_text
  grep k bytes buf search = do
    r ← ece391_getargs search (pos 1024)
    if eqb_ℤ r (pos 0)
        then grep_directory k bytes buf search
        else (put_text c (text "could not read argument\n") >> return (pos 3))
