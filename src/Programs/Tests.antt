-- ===== src/Programs/Tests.antt =====
-- `syserr` on the sample kernel, and the search of `grep` on a line.
use Prim.Native.String.{String}
use package.text.Mathlib.Text.{◌==◌ as str_eq}
use ece391_mp.Base.{
  ℕ, ◌<◌, ◌≡◌, ◌≢◌, ◌≤◌, ◌+◌, ◌↔◌, leb, Bool, true, false, ◌==◌, if◌then◌else◌, refl, arith, [],
  ◌∷◌, some,
}
use ece391_mp.Base.Int.{pos}
use ece391_mp.Str.{scan_limit, strlen, strncmp}
use ece391_mp.FileSystem.{read_dentry_by_name, found, file_type}
use ece391_mp.Kernel.{Kernel, file, mem_of, physical, user, get_curr_pcb_term}
use ece391_mp.Kernel.Sample.{sample, text_at}
use ece391_mp.Support.{ece391_strlen}
use ece391_mp.Process.{Frame}
use ece391_mp.Base.Mem.{Mem, load32}
use ece391_mp.Descriptors.{file_table}
use ece391_mp.Programs.{Calls}
use ece391_mp.Programs.Console.{Console, c}
use ece391_mp.Str.Length.{IsStr}
use ece391_mp.Programs.Search.{has_match}
use ece391_mp.Programs.Matches.{Same, has_match_iff}
use ece391_mp.Programs.Lots.{Has}

-- "." is at a string that the file system has as a file, and each other literal at the end of it.
abbrev text : String → ℕ
text s = if str_eq s "." then 0x08050000 else 0x08050001

abbrev text_size : String → ℕ
text_size s = if str_eq s "." then 5 else 4

abbrev frame : Frame
frame = record {
  fname = 0x7FF000;
  buf = 0x7FF040;
  args = 0x7FF100;
  elf = 0x430000;
  sorry_text = 0x430100;
  conv_buf = 0x7FF800;
}

-- Process 1 has read a line of two bytes: the number of a test.
abbrev asked : Kernel
asked = record sample {
  file_array =
      λ p fd. record (sample.file_array p fd) { file_position = if fd == 0 then pos 2 else pos 0 };
}

abbrev seen : Mem
seen a = mem_of asked (user asked a)

literals :
    (dot : Bool)
    → ece391_strlen seen (if dot then 0x08050000 else 0x08050001) ≡ some (if dot then 5 else 4)
unfolding ece391_strlen physical
literals true = refl
literals false = refl

front_terminal : get_curr_pcb_term asked.scheduler ≡ some 0
unfolding get_curr_pcb_term
front_terminal = refl

places :
    (dot : Bool)
    → (◌≢◌ {A = ℕ} (if dot then 0x08050000 else 0x08050001) 0)
      × (user asked (if dot then 0x08050000 else 0x08050001) ≢ 0)
unfolding physical
places true = (λ e. absurd (omega (arith, e)), λ e. absurd (omega (arith, e)))
places false = (λ e. absurd (omega (arith, e)), λ e. absurd (omega (arith, e)))

abbrev console : Console text 0 asked
console = record {
  size = text_size;
  front = front_terminal;
  literal = λ s. literals (str_eq s ".");
  placed = λ s. places (str_eq s ".");
}

found_name :
    read_dentry_by_name (mem_of asked) asked.boot_block (user asked 0x08050000) 1
    ≡ some (found 0x500040)
unfolding read_dentry_by_name physical strlen strncmp
found_name = refl

is_file : file_table (file_type (mem_of asked) 0x500040) ≡ some file
unfolding file_table file_type load32
is_file = refl

abbrev has_name : Has asked 0x08050000
has_name = record { entry = 0x500040; driver = file; hit = found_name; row = is_file }

abbrev given : Calls Kernel
given = c 1 0 asked text frame (λ eip k. some (pos 0, k)) (λ num k. some (pos 0, k)) console

-- The line "hello" at 0, and the text "ll" at 0x100.
abbrev line_mem : Mem
line_mem a =
    if leb a 0xFF
    then text_at 0 (b'h' ∷ b'e' ∷ b'l' ∷ b'l' ∷ b'o' ∷ []) a
    else text_at 0x100 (b'l' ∷ b'l' ∷ []) a

ll-IsStr : IsStr line_mem 0x100 2
unfolding scan_limit
ll-IsStr = record { nonzero = λ i lt. ground arith; nul = refl; small = omega arith }

has_match_iff_example :
    (has_match 5 line_mem 0 0x100 2 0 ≡ true)
    ↔ ((i : ℕ) × (0 ≤ i) × (i < 0 + 5) × Same line_mem (0 + i) 0x100 2)
has_match_iff_example = has_match_iff 5 line_mem 0 0x100 2 0 ll-IsStr (omega arith)
