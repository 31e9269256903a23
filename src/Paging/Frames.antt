-- ===== src/Paging/Frames.antt =====
-- What the entries of the page directory map, and that processes do not share memory.
use Prim.Native.Nat.{bit_or}
use ece391_mp.Base.{
  ℕ, zero, suc, ◌+◌, ◌-◌, ◌*◌, ◌/◌, ◌%◌, ◌^◌, ◌<◌, ◌≤◌, ◌≡◌, arith, ◌==◌, if◌then◌else◌, leb, ltb,
  ◌&&◌,
}
use ece391_mp.Base.Bits.{bit, bit_or-field}
use ece391_mp.Paging.{
  Table, Tables, store, fill_page_directory, init_paging, change_process, table_size, kernel_loc,
  user_process_index, user_vid_pt_index, process_loc, default_pte, pde_ps, pde_us, pde_rw, pde_p,
}

-- The fields of a directory entry for a 4 MB page.
abbrev pub frame : ℕ → ℕ
frame e = e / 2 ^ 22

abbrev pub present : ℕ → ℕ
present e = bit e 0

abbrev pub writable : ℕ → ℕ
writable e = bit e 1

abbrev pub user : ℕ → ℕ
user e = bit e 2

abbrev pub large : ℕ → ℕ
large e = bit e 7

-- The entry that `change_process` writes.
process_entry :
    (pid : ℕ)
    → pid < 6
    → bit_or (bit_or (bit_or (bit_or (process_loc pid % 2 ^ 32) pde_ps) pde_us) pde_rw) pde_p
      ≡ (pid + 2) * 2 ^ 22 + 0x87
process_entry pid lt =
    let loc : process_loc pid % 2 ^ 32 ≡ (pid + 2) * 2 ^ 22 + 0 = omega arith in
    rw loc (
      rw (bit_or-field 22 (pid + 2) 0 pde_ps (omega arith)) (
        rw (bit_or-field 22 (pid + 2) 0x80 pde_us (omega arith)) (
          rw (bit_or-field 22 (pid + 2) 0x84 pde_rw (omega arith))
            (bit_or-field 22 (pid + 2) 0x86 pde_p (omega arith)))))

-- `change_process` maps the program page to the 4 MB frame `pid + 2`, behind the kernel's, for user
-- code to read and write, and leaves all other entries.
pub change_process_lem :
    (pid : ℕ) (s : Tables) (i : ℕ)
    → pid < 6
    → (change_process pid s).page_directory i
      ≡ (if i == user_process_index then (pid + 2) * 2 ^ 22 + 0x87 else s.page_directory i)
unfolding change_process
change_process_lem pid s i lt = ground (arith, process_entry pid lt)

-- Two of the six processes have the same frame at the program page only if they are one, and none
-- has a frame of the first 8 MB, where the kernel is; the page is present, writable, large, and
-- open to user code.
pub process_isolation :
    (pid other : ℕ) (s t : Tables)
    → pid < 6
    → other < 6
    → let e = (change_process pid s).page_directory user_process_index in
      let e' = (change_process other t).page_directory user_process_index in
      (frame e ≡ frame e' → pid ≡ other)
      × (2 ≤ frame e)
      × (present e ≡ 1)
      × (writable e ≡ 1)
      × (user e ≡ 1)
      × (large e ≡ 1)
process_isolation pid other s t lt lt' =
    let e = change_process_lem pid s user_process_index lt in
    let e' = change_process_lem other t user_process_index lt' in rw (e, e') (omega arith)

directory_entry :
    (i : ℕ) → i < 1024 → bit_or (bit_or (i * 2 ^ 22 % 2 ^ 32) pde_ps) pde_rw ≡ i * 2 ^ 22 + 0x82
directory_entry i lt =
    let loc : i * 2 ^ 22 % 2 ^ 32 ≡ i * 2 ^ 22 + 0 = omega arith in
    rw loc
      (rw (bit_or-field 22 i 0 pde_ps (omega arith)) (bit_or-field 22 i 0x80 pde_rw (omega arith)))

fill_page_directory_lem :
    (k i j : ℕ) (t : Table)
    → i + k ≤ 1024
    → fill_page_directory k i t j ≡ (if leb i j && ltb j (i + k) then j * 2 ^ 22 + 0x82 else t j)
unfolding fill_page_directory
fill_page_directory_lem zero i j t le = ground arith
fill_page_directory_lem (suc k) i j t le = ground (
  arith,
  directory_entry i,
  fill_page_directory_lem k (i + 1) j
      (store t i (bit_or (bit_or (i * 2 ^ 22 % 2 ^ 32) pde_ps) pde_rw)),
)

bit_or_plain : (v c : ℕ) → c < 2 ^ 12 → bit_or (v * 2 ^ 12) c ≡ v * 2 ^ 12 + bit_or 0 c
bit_or_plain v c lt =
    let e : v * 2 ^ 12 + 0 ≡ v * 2 ^ 12 = omega arith in rw e at (bit_or-field 12 v 0 c lt)

low_table_entry : (v : ℕ) → bit_or (bit_or (v * 2 ^ 12) pde_rw) pde_p ≡ v * 2 ^ 12 + 3
low_table_entry v =
    rw (bit_or_plain v pde_rw (omega arith)) (bit_or-field 12 v 2 pde_p (omega arith))

user_table_entry :
    (u : ℕ) → bit_or (bit_or (bit_or (u * 2 ^ 12) pde_us) pde_rw) pde_p ≡ u * 2 ^ 12 + 7
user_table_entry u =
    rw (bit_or_plain u pde_us (omega arith))
      (rw (bit_or-field 12 u 4 pde_rw (omega arith)) (bit_or-field 12 u 6 pde_p (omega arith)))

-- The page directory that `init_paging` sets up, for page tables at 4 KB boundaries: the first 4 MB
-- and the user's video page through tables, the kernel in one present 4 MB page closed to user code,
-- and every other page not present.
pub init_paging_directory :
    (v u i : ℕ) (s : Tables)
    → i < table_size
    → let e = (init_paging (v * 2 ^ 12) (u * 2 ^ 12) s).page_directory i in
      e ≡ (
        if i == user_vid_pt_index
        then u * 2 ^ 12 + 7
        else if i == 0
        then v * 2 ^ 12 + 3
        else if i == 1
        then kernel_loc + 0x83
        else i * 2 ^ 22 + 0x82)
unfolding init_paging
init_paging_directory v u i s lt =
    let low = store s.page_directory 0 (bit_or (bit_or (v * 2 ^ 12) pde_rw) pde_p) in
    let kernel = store low 1 (bit_or (bit_or kernel_loc pde_ps) default_pte) in
    ground (
      arith,
      low_table_entry v,
      user_table_entry u,
      fill_page_directory_lem (table_size - 2) 2 i kernel,
    )
