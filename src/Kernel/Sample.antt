-- ===== src/Kernel/Sample.antt =====
-- A kernel for the tests: the file system at 0x500000 has one file, "shell", of the 4 bytes of an
-- executable's head; a shell runs on each of the three terminals.
use ece391_mp.Base.{ℕ, ◌+◌, ◌∷◌, [], List, get_or, true, ltb, leb, ◌-◌, ◌&&◌, ◌==◌, if◌then◌else◌}
use ece391_mp.Base.Int.{pos, negsuc}
use ece391_mp.Base.Mem.{Mem}
use ece391_mp.Kernel.{std_in, std_out, nofunc, file, Fd, Kernel}

-- The bytes of a text at `a`, and 0 elsewhere.
abbrev pub text_at : ℕ → List ℕ → ℕ → ℕ
text_at a text x = if leb a x then get_or text (x - a) 0 else 0

-- The name of the file is also at 0x850000, and in the constant at 0x430000.
abbrev pub sample_mem : Mem
sample_mem a =
    if a == 0x500004
    then 1
    else if a == 0x500060
    then 2
    else if a == 0x501000
    then 4
    else if leb a 0x4FFFFF
    then text_at 0x430000 (0x7F ∷ b'E' ∷ b'L' ∷ b'F' ∷ []) a
    else if leb a 0x501FFF
    then text_at 0x500040 (b's' ∷ b'h' ∷ b'e' ∷ b'l' ∷ b'l' ∷ []) a
    else if leb a 0x84FFFF
    then text_at 0x502000 (0x7F ∷ b'E' ∷ b'L' ∷ b'F' ∷ []) a
    else text_at 0x850000 (b's' ∷ b'h' ∷ b'e' ∷ b'l' ∷ b'l' ∷ []) a

-- Descriptor 2 of process 0 is the file.
abbrev sample_fd : ℕ → ℕ → Fd
sample_fd p i = record {
  fop_jump_table =
      if i == 0
      then std_in
      else if i == 1
      then std_out
      else if (i == 2) && (p == 0)
      then file
      else nofunc;
  inode = 0;
  file_type = if (i == 2) && (p == 0) then pos 2 else negsuc 0;
  file_position = pos 0;
  flags = if ltb i (if p == 0 then 3 else 2) then 1 else 0;
}

abbrev pub sample : Kernel
sample = record {
  scheduler = record {
    process_array = λ p. if ltb p 3 then 1 else 0;
    terminal_array = λ t. pos t;
    curr_terminal = 0;
    leaf = λ p. 1;
    terminal = λ p. p;
    saved_esp = λ p. 0x7F0000 + p;
    saved_ebp = λ p. 0x7F1000 + p;
    esp = 0x7FFF00;
    ebp = 0x7FFF80;
    tss_esp0 = 0x7FFFFC;
    tables = record {
      page_directory = λ i. 0x800087;
      vid_page_table = λ i. 0;
      user_vid_page_table = λ i. 0;
    };
    ports = record { master_mask = 0xF8; slave_mask = 0xFE; interrupts = true; out = [] };
  };
  file_array = sample_fd;
  parent_pid = λ p. negsuc 0;
  parent_esp = λ p. 0;
  parent_ebp = λ p. 0;
  keyboard = record {
    read_lock = λ t. 0;
    kbrd_buf_length = λ t. 0;
    is_enter = λ t. 0;
    is_shift = λ t. 0;
    is_caps = λ t. 0;
    is_ctrl = λ t. 0;
    is_alt = λ t. 0;
    line_marker = λ t. 0;
    current_terminal = 0;
    screen = record {
      screen_x = λ t. pos 0;
      screen_y = λ t. pos 0;
      curr_terminal = 0;
      mem = sample_mem;
      cursor_out = [];
    };
    ports = record { master_mask = 0xF8; slave_mask = 0xFE; interrupts = true; out = [] };
  };
  read_flag = true;
  boot_block = 0x500000;
  kbrd_buf = 0x400000;
  kbrd_read_buf = 0x400200;
  keys = [];
  ticks = [];
  register_a = 0;
}
