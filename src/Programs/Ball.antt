-- ===== src/Programs/Ball.antt =====
-- `pingpong`: syscalls/ece391pingpong.c. `buf`, `ret_val` and `garbage` are addresses.
use ece391_mp.Base.{ℕ, zero, suc, ◌+◌, ◌-◌, some, ◌==◌, if◌then◌else◌}
use ece391_mp.Base.Int.{ℤ, pos, pattern32}
use ece391_mp.Process.Args.{store32}
use ece391_mp.Base.Mem.{Mem, write}
use ece391_mp.Programs.{Act, ◌>>=◌, ◌>>◌, return, stuck, Calls, change_mem, put_text}

-- SCREENWIDTH is 79 and BUFMAX is 79+2, but the macros have no parentheses: LOOPMAX is 79+2-2-1.
abbrev pub buf_max : ℕ
buf_max = 81

abbrev pub start_loop : ℕ
start_loop = 2

abbrev pub loop_max : ℕ
loop_max = 78

-- `for (i = from; i < to; i++) buf[i] = ' ';`, with the rounds that are left.
unfoldable pub blank : ℕ → Mem → ℕ → ℕ → Mem
blank zero m buf i = m
blank (suc k) m buf i = blank k (write m (buf + i) b' ') buf (i + 1)

-- The buffer in front of the loop.
unfoldable pub walls : Mem → ℕ → Mem
unfolding blank
walls m buf =
    write
      (write (write (write (blank buf_max m buf 0) (buf + 80) 0) (buf + 79) b'\n') (buf + 78) b'|')
      (buf + 1) b'|'

-- The world with the character at `j`.
unfoldable pub world : Mem → ℕ → ℕ → ℕ → Mem
unfolding blank
world m buf j curchar = write (blank (loop_max - start_loop) m buf start_loop) (buf + j) curchar

module _ {S : Type 0} (c : Calls S) where
  open c use {text, ece391_open, ece391_read, ece391_write}

  -- The body of the two inner loops.
  unfoldable pub draw : ℕ → ℕ → ℤ → ℕ → ℕ → Act S ℤ
  unfolding put_text world
  draw buf garbage rtc_fd j curchar = do
    change_mem c (λ m. some (world m buf j curchar))
    put_text c buf
    ece391_read rtc_fd garbage (pos 4)

  -- `for (j = STARTLOOP; j < LOOPMAX; j++)`, and `for (j = LOOPMAX - 1; j >= STARTLOOP; j--)`.
  unfoldable pub move_out : ℕ → ℕ → ℕ → ℤ → ℕ → ℕ → Act S ℤ
  unfolding draw
  move_out zero buf garbage rtc_fd j curchar = return (pos 0)
  move_out (suc k) buf garbage rtc_fd j curchar = do
    draw buf garbage rtc_fd j curchar
    move_out k buf garbage rtc_fd (j + 1) curchar

  unfoldable pub move_back : ℕ → ℕ → ℕ → ℤ → ℕ → ℕ → Act S ℤ
  unfolding draw
  move_back zero buf garbage rtc_fd j curchar = return (pos 0)
  move_back (suc k) buf garbage rtc_fd j curchar = do
    draw buf garbage rtc_fd j curchar
    move_back k buf garbage rtc_fd (j - 1) curchar

  -- `while(1)`, with the rounds that are left; the loop has no end.
  unfoldable pub bounce : ℕ → ℕ → ℕ → ℤ → ℕ → Act S ℤ
  unfolding move_out move_back
  bounce zero buf garbage rtc_fd curchar = stuck
  bounce (suc k) buf garbage rtc_fd curchar = do
    move_out (loop_max - start_loop) buf garbage rtc_fd start_loop curchar
    move_back (loop_max - start_loop) buf garbage rtc_fd (loop_max - 1) curchar
    bounce k buf garbage rtc_fd (if curchar == b'Z' then b'A' else curchar + 1)

  unfoldable pub pingpong : ℕ → ℕ → ℕ → ℕ → Act S ℤ
  unfolding bounce walls
  pingpong k buf ret_val garbage = do
    change_mem c (λ m. some (walls m buf))
    rtc_fd ← ece391_open (text "rtc")
    change_mem c (λ m. some (store32 m ret_val 32))
    r ← ece391_write rtc_fd ret_val (pos 4)
    change_mem c (λ m. some (store32 m ret_val (pattern32 r)))
    bounce k buf garbage rtc_fd b'A'
