-- ===== src/Programs/Errors.antt =====
-- `syserr`: syscalls/ece391syserr.c, which tests what the system calls refuse. `buf` is the address of
-- the array of a test.
use Prim.Native.String.{String}
use ece391_mp.Base.{ℕ, zero, suc, ◌+◌, ◌==◌, if◌then◌else◌}
use ece391_mp.Base.Int.{ℤ, pos, negsuc, eqb_ℤ}
use ece391_mp.Programs.{Act, ◌>>=◌, ◌>>◌, return, Calls, peek, put_text}

abbrev pub neg_num : ℤ
neg_num = negsuc 1073741822

abbrev pub big_num : ℤ
big_num = pos 1073741823

module _ {S : Type 0} (c : Calls S) where
  open c use {text, ece391_read, ece391_write, ece391_open, ece391_close, ece391_vidmap, call_sys}

  -- `if (-1 != call) { fail = 2; ece391_fdputs (1, says); }`: the new value of `fail`.
  unfoldable pub expect : Act S ℤ → String → ℕ → Act S ℕ
  unfolding put_text
  expect call says fail = do
    r ← call
    if eqb_ℤ r (negsuc 0) then return fail else (put_text c (text says) >> return 2)

  -- The end of a test.
  unfoldable pub verdict : String → String → ℕ → Act S ℕ
  unfolding put_text
  verdict passes fails fail = put_text c (text (if fail == 0 then passes else fails)) >> return fail

  unfoldable pub err_neg_fd : ℕ → Act S ℕ
  unfolding expect verdict
  err_neg_fd buf = do
    f1 ← expect (ece391_read neg_num buf (pos 31)) "read fail\n" 0
    f2 ← expect (ece391_write neg_num buf (pos 31)) "write fail\n" f1
    f3 ← expect (ece391_close neg_num) "close fail\n" f2
    verdict "err_neg_fd: PASS\n" "err_neg_fd: FAIL\n" f3

  unfoldable pub err_big_fd : ℕ → Act S ℕ
  unfolding expect verdict
  err_big_fd buf = do
    f1 ← expect (ece391_read big_num buf (pos 31)) "read fail\n" 0
    f2 ← expect (ece391_write big_num buf (pos 31)) "write fail\n" f1
    f3 ← expect (ece391_close big_num) "close fail\n" f2
    verdict "err_big_fd: PASS\n" "err_big_fd: FAIL\n" f3

  -- The first loop of `err_open_lots`, with the rounds that are left: the number of failures.
  unfoldable pub open_lots : ℕ → ℕ → Act S ℕ
  open_lots zero cnt = return cnt
  open_lots (suc k) cnt = do
    r ← ece391_open (text ".")
    open_lots k (if eqb_ℤ r (negsuc 0) then cnt + 1 else cnt)

  -- `for(i = from; i < 8; i++) ece391_close(i);`, with the rounds that are left.
  unfoldable pub close_lots : ℕ → ℕ → Act S ℤ
  close_lots zero i = return (pos 0)
  close_lots (suc k) i = ece391_close (pos i) >> close_lots k (i + 1)

  unfoldable pub err_open_lots : Act S ℕ
  unfolding open_lots close_lots put_text
  err_open_lots = do
    cnt ← open_lots 7 0
    close_lots 6 2
    if cnt == 1
        then (put_text c (text "err_open_lots: PASS\n") >> return 0)
        else (put_text c (text "err_open_lots: FAIL\n") >> return 2)

  unfoldable pub err_open : Act S ℕ
  unfolding expect verdict
  err_open = do
    f1 ← expect (ece391_open (text "helloo")) "'helloo' fail\n" 0
    f2 ← expect (ece391_open (text "shel")) "'shel' fail\n" f1
    f3 ← expect (ece391_open (text "")) "empty string fail\n" f2
    verdict "err_open: PASS\n" "err_open: FAIL\n" f3

  -- A loop of `expect` over the descriptors from `i` on, with the rounds that are left.
  unfoldable pub expect_each : ℕ → (ℤ → Act S ℤ) → String → ℕ → ℕ → Act S ℕ
  unfolding expect
  expect_each zero call says i fail = return fail
  expect_each (suc k) call says i fail = do
    f ← expect (call (pos i)) says fail
    expect_each k call says (i + 1) f

  unfoldable pub err_unopened : ℕ → Act S ℕ
  unfolding expect_each verdict
  err_unopened buf = do
    f1 ← expect_each 8 ece391_close "close unopened or invalid fd fail\n" 0 0
    f2 ← expect_each 6 (λ i. ece391_read i buf (pos 31)) "read from unopened fd fail\n" 2 f1
    f3 ← expect_each 6 (λ i. ece391_write i buf (pos 31)) "write to unopened fd fail\n" 2 f2
    verdict "err_unopened: PASS\n" "err_unopened: FAIL\n" f3

  unfoldable pub err_vidmap : Act S ℕ
  unfolding expect verdict
  err_vidmap = do
    f1 ← expect (ece391_vidmap 0) "Null pointer fail\n" 0
    f2 ← expect (ece391_vidmap 0x400000) "Kernel pointer fail fail\n" f1
    verdict "err_vidmap: PASS\n" "err_vidmap: FAIL\n" f2

  unfoldable pub err_stdin_out : ℕ → Act S ℕ
  unfolding expect verdict
  err_stdin_out buf = do
    f1 ← expect (ece391_write (pos 0) buf (pos 31)) "write to stdin fail\n" 0
    f2 ← expect (ece391_read (pos 1) buf (pos 31)) "read from stdout fail\n" f1
    verdict "err_stdin_out: PASS\n" "err_stdin_out: FAIL\n" f2

  unfoldable pub err_syscall_num : Act S ℕ
  unfolding expect verdict
  err_syscall_num = do
    f1 ← expect (call_sys big_num) "syscall 0 fail\n" 0
    f2 ← expect (call_sys neg_num) "big num syscall fail\n" f1
    f3 ← expect (call_sys (pos 0)) "neg num syscall fail\n" f2
    verdict "err_syscall_num: PASS\n" "err_syscall_num: FAIL\n" f3

  -- Case 0 of `main`.
  unfoldable pub all_tests : ℕ → Act S ℕ
  unfolding err_neg_fd err_big_fd err_open_lots err_open err_unopened err_vidmap err_stdin_out
      err_syscall_num put_text
  all_tests buf = do
    f1 ← err_neg_fd buf
    f2 ← err_big_fd buf
    f3 ← err_open_lots
    f4 ← err_open
    f5 ← err_unopened buf
    f6 ← err_vidmap
    f7 ← err_stdin_out buf
    f8 ← err_syscall_num
    let fail = f1 + f2 + f3 + f4 + f5 + f6 + f7 + f8
    put_text c (text (if fail == 0 then "\nOverall Tests: PASS\n" else "\nOverall Tests: FAIL\n"))
    return fail

  -- The `switch` of `main`, on the character that was read.
  unfoldable pub one_test : ℕ → ℕ → Act S ℕ
  unfolding all_tests
  one_test buf first =
      if first == b'0'
      then all_tests buf
      else if first == b'1'
      then err_neg_fd buf
      else if first == b'2'
      then err_big_fd buf
      else if first == b'3'
      then err_open_lots
      else if first == b'4'
      then err_open
      else if first == b'5'
      then err_unopened buf
      else if first == b'6'
      then err_vidmap
      else if first == b'7'
      then err_stdin_out buf
      else if first == b'8'
      then err_syscall_num
      else (put_text c (text "Invalid test number. Choose from tests 1-8 or 0") >> return 0)

  -- `buf` is the array of `main`, and `tested` that of a test.
  unfoldable pub syserr : ℕ → ℕ → Act S ℕ
  unfolding one_test put_text
  syserr buf tested = do
    put_text c (text "Choose from tests 1-8. 0 to run all: ")
    cnt ← ece391_read (pos 0) buf (pos 127)
    if eqb_ℤ cnt (negsuc 0)
        then (put_text c (text "Can't read test #\n") >> return 2)
        else do first ← peek c buf; one_test tested first
