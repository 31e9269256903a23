-- ===== src/Entry/Info.antt =====
-- The part of `entry` of student-distrib/kernel.c that prints the multiboot information, and finds the
-- file system in it. `text` is where the compiler puts a literal, `conv_buf` is the array of `printf`,
-- and `mbi`, `mod_at` and `mmap` are addresses. A loop has the rounds that are left as an argument.
use Prim.Native.String.{String}
use ece391_mp.Base.{
  ℕ, zero, suc, ◌+◌, ◌/◌, ◌%◌, ◌^◌, Bool, true, false, not, ◌&&◌, none, some, List, ◌∷◌, [], ltb,
  ◌==◌, if◌then◌else◌,
}
use ece391_mp.Base.Act.{Act, ◌>>=◌, ◌>>◌, return, stuck}
use ece391_mp.Base.Int.{ℤ, pattern32, signed8}
use ece391_mp.Base.Mem.{load32}
use ece391_mp.Printf.{printf}
use ece391_mp.FileSystem.{init_file_system}
use ece391_mp.Kernel.{Kernel, mem_of}

-- `CHECK_FLAG (flags, bit)`
abbrev pub check_flag : ℕ → ℕ → Bool
check_flag flags bit = not (flags / 2 ^ bit % 2 == 0)

-- The word at `a`.
unfoldable pub word : ℕ → Act Kernel ℕ
word a k = some (load32 (mem_of k) a, k)

-- The file system's image is from `mod_start` on; `entry` does not look at the result.
unfoldable pub find_file_system : ℕ → Act Kernel ℤ
find_file_system mod_start k =
    let (r, at) = init_file_system (mem_of k) k.boot_block mod_start in
    some (r, record k { boot_block = at })

module _ (text : String → ℕ) (conv_buf : ℕ) where
  unfoldable pub print : String → List ℕ → Act Kernel ℕ
  print format args k = elim (printf conv_buf (text format) args k.keyboard.screen) [
    | none ↦ none
    | some (r, s) ↦ some (r, record k { keyboard = record (k.keyboard) { screen = s } })
  ]

  -- A `char` is signed.
  unfoldable pub print_byte : ℕ → Act Kernel ℕ
  unfolding print
  print_byte a k = print "0x%x " (pattern32 (signed8 (mem_of k a)) ∷ []) k

  unfoldable pub print_bytes : ℕ → ℕ → Act Kernel ℕ
  unfolding print_byte
  print_bytes zero a = return 0
  print_bytes (suc n) a = do print_byte a; print_bytes n (a + 1)

  unfoldable pub print_module : ℕ → ℕ → Act Kernel ℕ
  unfolding print print_bytes word
  print_module mod_count mod_at = do
    mod_start ← word mod_at
    mod_end ← word (mod_at + 4)
    print "Module %d loaded at address: 0x%#x\n" (mod_count ∷ mod_start ∷ [])
    print "Module %d ends at address: 0x%#x\n" (mod_count ∷ mod_end ∷ [])
    print "First few bytes of module:\n" []
    print_bytes 16 mod_start
    print "\n" []

  unfoldable pub print_modules : ℕ → ℕ → ℕ → ℕ → Act Kernel ℕ
  unfolding print_module word
  print_modules zero mbi mod_count mod_at = stuck
  print_modules (suc n) mbi mod_count mod_at = do
    mods_count ← word (mbi + 20)
    if ltb mod_count mods_count
        then (print_module mod_count mod_at >> print_modules n mbi (mod_count + 1) (mod_at + 16))
        else return 0

  unfoldable pub take_modules : ℕ → Act Kernel ℕ
  unfolding print_modules find_file_system word
  take_modules mbi = do
    mod_at ← word (mbi + 24)
    mod_start ← word mod_at
    find_file_system mod_start
    print_modules (2 ^ 32) mbi 0 mod_at

  unfoldable pub print_elf : ℕ → Act Kernel ℕ
  unfolding print word
  print_elf mbi = do
    num ← word (mbi + 28)
    size ← word (mbi + 32)
    addr ← word (mbi + 36)
    shndx ← word (mbi + 40)
    print "elf_sec: num = %u, size = 0x%#x, addr = 0x%#x, shndx = 0x%#x\n"
        (num ∷ size ∷ addr ∷ shndx ∷ [])

  unfoldable pub print_range : ℕ → Act Kernel ℕ
  unfolding print word
  print_range mmap = do
    size ← word mmap
    base_addr_low ← word (mmap + 4)
    base_addr_high ← word (mmap + 8)
    length_low ← word (mmap + 12)
    length_high ← word (mmap + 16)
    type ← word (mmap + 20)
    print "    size = 0x%x, base_addr = 0x%#x%#x\n    type = 0x%x,  length    = 0x%#x%#x\n"
        (size ∷ base_addr_high ∷ base_addr_low ∷ type ∷ length_high ∷ length_low ∷ [])

  -- The sums are of `uint32_t`.
  unfoldable pub print_map : ℕ → ℕ → ℕ → Act Kernel ℕ
  unfolding print_range word
  print_map zero mbi mmap = stuck
  print_map (suc n) mbi mmap = do
    mmap_length ← word (mbi + 44)
    mmap_addr ← word (mbi + 48)
    if not (ltb mmap ((mmap_addr + mmap_length) % 2 ^ 32))
        then return 0
        else do print_range mmap; size ← word mmap; print_map n mbi ((mmap + size + 4) % 2 ^ 32)

  unfoldable pub print_maps : ℕ → Act Kernel ℕ
  unfolding print print_map word
  print_maps mbi = do
    mmap_length ← word (mbi + 44)
    mmap_addr ← word (mbi + 48)
    print "mmap_addr = 0x%#x, mmap_length = 0x%x\n" (mmap_addr ∷ mmap_length ∷ [])
    print_map (2 ^ 32) mbi mmap_addr

  unfoldable pub print_memory : ℕ → Act Kernel ℕ
  unfolding print word
  print_memory mbi = do
    mem_lower ← word (mbi + 4)
    mem_upper ← word (mbi + 8)
    print "mem_lower = %uKB, mem_upper = %uKB\n" (mem_lower ∷ mem_upper ∷ [])

  unfoldable pub print_device : ℕ → Act Kernel ℕ
  unfolding print word
  print_device mbi = do
    boot_device ← word (mbi + 12)
    print "boot_device = 0x%#x\n" (boot_device ∷ [])

  unfoldable pub print_cmdline : ℕ → Act Kernel ℕ
  unfolding print word
  print_cmdline mbi = do cmdline ← word (mbi + 16); print "cmdline = %s\n" (cmdline ∷ [])

  -- `if (CHECK_FLAG (mbi->flags, bit)) ...`
  unfoldable pub if_flag : ℕ → ℕ → Act Kernel ℕ → Act Kernel ℕ
  unfolding word
  if_flag mbi bit body = do flags ← word mbi; if check_flag flags bit then body else return 0

  -- Whether `entry` goes on behind the tests of the flags.
  unfoldable pub print_info : ℕ → Act Kernel Bool
  unfolding print print_memory print_device print_cmdline take_modules print_elf print_maps if_flag
      word
  print_info mbi = do
    flags ← word mbi
    print "flags = 0x%#x\n" (flags ∷ [])
    if_flag mbi 0 (print_memory mbi)
    if_flag mbi 1 (print_device mbi)
    if_flag mbi 2 (print_cmdline mbi)
    if_flag mbi 3 (take_modules mbi)
    flags' ← word mbi
    if check_flag flags' 4 && check_flag flags' 5
        then (print "Both bits 4 and 5 are set.\n" [] >> return false)
        else do if_flag mbi 5 (print_elf mbi); if_flag mbi 6 (print_maps mbi); return true
