-- ===== src/Programs/Dialogue.antt =====
-- The programs that talk to the keyboard: the shell, `hello`, `counter` and `testprint`, of
-- syscalls/ece391shell.c, ece391hello.c, ece391counter.c and ece391testprint.c.
-- `buf` is the address of the array.
use ece391_mp.Base.{ℕ, zero, suc, ◌+◌, ◌&&◌, ◌||◌, ltb, ◌==◌, if◌then◌else◌}
use ece391_mp.Base.Int.{ℤ, pos, negsuc, ◌-ℤ◌, ltb_ℤ, eqb_ℤ}
use ece391_mp.Support.{ece391_strlen, ece391_strcmp, ece391_itoa}
use ece391_mp.Programs.{
  Act, ◌>>=◌, ◌>>◌, return, stuck, Calls, index, peek, poke, on_mem, change_mem, put_text,
}

module _ {S : Type 0} (c : Calls S) where
  open c use {text, ece391_read, ece391_execute}

  unfoldable pub testprint : Act S ℤ
  unfolding put_text
  testprint = do
    put_text c (text "Hello, if this ran, the program was correct. Yay!\n")
    return (pos 0)

  unfoldable pub hello : ℕ → Act S ℤ
  unfolding put_text
  hello buf = do
    put_text c (text "Hi, what's your name? ")
    cnt ← ece391_read (pos 0) buf (pos 1023)
    if eqb_ℤ cnt (negsuc 0)
        then (put_text c (text "Can't read name from keyboard.\n") >> return (pos 3))
        else do
          poke c (index buf cnt) 0
          put_text c (text "Hello, ")
          put_text c buf
          return (pos 0)

  -- What the shell says of the result of a command.
  unfoldable pub report : ℤ → Act S ℤ
  unfolding put_text
  report rval =
      if eqb_ℤ rval (negsuc 0)
      then put_text c (text "no such command\n")
      else if eqb_ℤ rval (pos 256)
      then put_text c (text "program terminated by exception\n")
      else if eqb_ℤ rval (pos 0)
      then return (pos 0)
      else put_text c (text "program terminated abnormally\n")

  -- `if (cnt > 0 && '\n' == buf[cnt - 1]) cnt--; buf[cnt] = '\0';`
  unfoldable pub end_line : ℕ → ℤ → Act S ℕ
  end_line buf cnt = do
    last ← peek c (index buf (cnt -ℤ pos 1))
    let short = ltb_ℤ (pos 0) cnt && (last == b'\n')
    poke c (index buf (if short then cnt -ℤ pos 1 else cnt)) 0

  -- What the shell does with what was read; `again` is the rest of the loop.
  unfoldable pub obey : Act S ℤ → ℕ → ℤ → Act S ℤ
  obey again buf cnt = do
    end_line buf cnt
    r ← on_mem c (λ m. ece391_strcmp m buf (text "exit"))
    if eqb_ℤ r (pos 0) then return (pos 0) else do
      first ← peek c buf
      if first == 0
          then (put_text c (text "this is a test\n") >> again)
          else do rval ← ece391_execute buf; report rval; again

  -- The loop of the shell, with the rounds that are left.
  unfoldable pub shell_loop : ℕ → ℕ → Act S ℤ
  shell_loop zero buf = stuck
  shell_loop (suc k) buf = do
    put_text c (text "391OS> ")
    cnt ← ece391_read (pos 0) buf (pos 1023)
    if eqb_ℤ cnt (negsuc 0)
        then (put_text c (text "read from keyboard failed\n") >> return (pos 3))
        else obey (shell_loop k buf) buf cnt

  unfoldable pub shell : ℕ → ℕ → Act S ℤ
  unfolding put_text shell_loop
  shell k buf = do put_text c (text "Starting 391 Shell\n"); shell_loop k buf

  -- `for (i = 0; i < max; i++)`, with the rounds that are left.
  unfoldable pub count_loop : ℕ → ℕ → ℕ → Act S ℤ
  unfolding put_text
  count_loop zero i buf = return (pos 0)
  count_loop (suc k) i buf = do
    change_mem c (λ m. ece391_itoa m (i + 1) buf 10)
    put_text c buf
    put_text c (text "\n")
    count_loop k (i + 1) buf

  -- `max`, by the first character of the answer.
  unfoldable pub choice : ℕ → ℕ
  choice first =
      if first == b'0'
      then 100
      else if first == b'1'
      then 10000
      else if first == b'2'
      then 100000
      else 0

  -- `cnt` is an `uint32_t`; the comparison with -1 converts that to one.
  unfoldable pub counter : ℕ → Act S ℤ
  unfolding put_text count_loop choice
  counter buf = do
    put_text c (text "Enter the Test Number: (0): 100, (1): 10000, (2): 100000\n")
    cnt ← ece391_read (pos 0) buf (pos 1023)
    if eqb_ℤ cnt (negsuc 0)
        then (put_text c (text "Can't read the number from keyboard.\n") >> return (pos 3))
        else do
          poke c (index buf cnt) 0
          length ← on_mem c (λ m. ece391_strlen m buf)
          first ← peek c buf
          if ltb 2 length || ((length == 2) && (ltb first b'0' || ltb b'2' first))
              then (put_text c (text "Wrong Choice!\n") >> return (pos 0))
              else count_loop (choice first) 0 buf
