-- ===== src/Terminal.antt =====
-- student-distrib/keyboard.c: the terminal driver that reads the lines of the keyboard and prints.
-- `kbrd_buf` and `kbrd_read_buf` are the addresses of the static arrays of that name.
pub mod Transfer
pub mod Reading
pub mod Delivery
pub mod Writing
mod Tests
use ece391_mp.Base.{
  ℕ, zero, suc, ◌+◌, ◌-◌, ◌*◌, ◌/◌, ◌%◌, Bool, true, false, not, ◌&&◌, ◌||◌, Option, none, some,
  List, [], ◌∷◌, ltb, leb, ◌==◌, get_or, if◌then◌else◌,
}
use ece391_mp.Base.Int.{ℤ, pos, negsuc}
use ece391_mp.Base.Mem.{Mem, write}
use ece391_mp.Block.{memcpy, memmove, memset}
use ece391_mp.Pic.{Ports, cli, sti, enable_irq, send_eoi}
use ece391_mp.Screen.{Screen, putc, puts, reset, backspace_helper, update_curr_term, update_vidmem}
use ece391_mp.Keyboard.{Keyboard, kbrd_buf_length_max, row, set_mem, kbrd_int}

-- `while(!is_enter[pcb_term])`: the list holds the interrupts of the keyboard, one between each two
-- tests; `none` is a process that still waits at its end.
unfoldable pub terminal_wait : ℕ → ℕ → List (ℕ × ℕ) → Keyboard → Option (Keyboard × List (ℕ × ℕ))
terminal_wait kbrd_buf pcb_term [] k = if k.is_enter pcb_term == 0 then none else some (k, [])
terminal_wait kbrd_buf pcb_term ((status, scancode) ∷ events) k = elim (k.is_enter pcb_term == 0) [
  | true ↦ elim (kbrd_int kbrd_buf status scancode k) [
    | none ↦ none
    | some k' ↦ terminal_wait kbrd_buf pcb_term events k'
  ]
  | false ↦ some (k, (status, scancode) ∷ events)
]

-- The loop that copies `kbrd_buf[current_terminal]` into `kbrd_read_buf`.
unfoldable pub copy_line : ℕ → Mem → ℕ → ℕ → ℕ → Mem
copy_line zero m from to i = m
copy_line (suc n) m from to i = copy_line n (write m (to + i) (m (from + i))) from to (i + 1)

-- The branches of `terminal_read`: `n` is `nbytes` in one and `KBRD_BUF_LENGTH` in the other.
unfoldable pub take_line : ℕ → ℕ → ℕ → ℕ → ℕ → Keyboard → Keyboard
unfolding copy_line
take_line kbrd_buf kbrd_read_buf buf n write_bytes k =
    let from = row kbrd_buf k.current_terminal in
    let copied = copy_line (n - 1) k.screen.mem from kbrd_read_buf 0 in
    let ended = write copied (kbrd_read_buf + n - 1) 10 in
    let given = memcpy ended buf kbrd_read_buf n in
    let moved = memmove given from (from + n - 1) write_bytes in
    record (set_mem (memset moved (from + write_bytes) 0 n) k) {
      line_marker = write k.line_marker k.current_terminal (write_bytes % 256);
    }

-- `terminal_read` behind its wait, for `nbytes` of at least 0.
unfoldable pub finish_read : ℕ → ℕ → ℕ → ℕ → Keyboard → ℤ × Keyboard
finish_read kbrd_buf kbrd_read_buf buf nbytes k =
    let t = k.current_terminal in
    let marker = k.line_marker t in
    let write_bytes = if ltb marker nbytes then 0 else marker + 1 - nbytes in
    let n = if ltb nbytes kbrd_buf_length_max then nbytes else kbrd_buf_length_max in
    let k1 =
      take_line kbrd_buf kbrd_read_buf buf n write_bytes (record k { ports = cli k.ports }) in
    (
      pos n,
      record k1 {
        ports = sti k1.ports;
        read_lock = write k1.read_lock t 0;
        is_enter = write k1.is_enter t 0;
      },
    )

-- `pcb_term` is what `get_curr_pcb_term` returns, the terminal of the process that reads.
unfoldable pub terminal_read :
    ℕ → ℕ → ℕ → ℕ → ℕ → List (ℕ × ℕ) → Keyboard → Option ((ℤ × Keyboard) × List (ℕ × ℕ))
unfolding terminal_wait
terminal_read kbrd_buf kbrd_read_buf pcb_term buf nbytes events k =
    let t = k.current_terminal in
    let waiting = record k { read_lock = write k.read_lock t 1; is_enter = write k.is_enter t 0 } in
    if buf == 0
    then some ((negsuc 0, k), events)
    else elim (terminal_wait kbrd_buf pcb_term events waiting) [
      | none ↦ none
      | some (k', rest) ↦ some (finish_read kbrd_buf kbrd_read_buf buf nbytes k', rest)
    ]

unfoldable pub write_loop : ℕ → ℕ → ℕ → ℕ → Screen → Screen
write_loop zero pcb_term buf i s = s
write_loop (suc n) pcb_term buf i s =
    write_loop n pcb_term buf (i + 1) (putc (s.mem (buf + i)) pcb_term s)

-- For `nbytes` of at least 0.
unfoldable pub terminal_write : ℕ → ℕ → ℕ → Keyboard → ℤ × Keyboard
unfolding write_loop
terminal_write pcb_term buf nbytes k = if buf == 0 then (negsuc 0, k) else (
  pos nbytes,
  record k { screen = write_loop nbytes pcb_term buf 0 k.screen; ports = sti (cli k.ports) },
)

unfoldable pub terminal_open : ℕ → ℤ
terminal_open filename = pos 0

unfoldable pub terminal_close : ℕ → ℤ
terminal_close fd = if fd == 0 then negsuc 0 else pos 0
