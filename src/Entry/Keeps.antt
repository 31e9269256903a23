-- ===== src/Entry/Keeps.antt =====
-- The multiboot information is printed with the process tables as they are.
use Prim.Native.String.{String}
use ece391_mp.Base.{
  ℕ, zero, suc, ◌+◌, ◌≡◌, inl, inr, ◌∙◌, Bool, true, false, List, [], ◌∷◌, some, Option-cases, ltb,
  not, ◌%◌, ◌^◌, ◌&&◌, if◌then◌else◌,
}
use ece391_mp.Base.Act.{Act, ◌>>=◌, ◌>>◌, return, stuck}
use ece391_mp.Printf.{printf}
use ece391_mp.Kernel.{Kernel}
use ece391_mp.Process.Tree.{processes}
use ece391_mp.Entry.Info.{
  check_flag, word, find_file_system, print, print_byte, print_bytes, print_module, print_modules,
  take_modules, print_elf, print_range, print_map, print_maps, print_memory, print_device,
  print_cmdline, if_flag, print_info,
}

-- A step that leaves the process tables as they are.
pub record Keeps {A : Type 0} (m : Act Kernel A) : Type 0 where
  pub keeps : (k k' : Kernel) (a : A) → m k ≡ some (a, k') → processes k' ≡ processes k

pub Keeps-bind :
    {A B : Type 0} {m : Act Kernel A} {f : A → Act Kernel B}
    → Keeps m
    → ((a : A) → Keeps (f a))
    → Keeps (m >>= f)
Keeps-bind {A} {B} {m} {f} h rest = record {
  keeps = λ k k' b e. elim (Option-cases (m k)) [
    | inl endless ↦ absurd (cc (rw (endless, ◌>>=◌) at e))
    | inr ((a, k1), first) ↦ (rest a).keeps k1 k' b (rw (first, ◌>>=◌) at e) ∙ h.keeps k k1 a first
  ];
}

Keeps-if :
    {A : Type 0} (b : Bool) {m n : Act Kernel A} → Keeps m → Keeps n → Keeps (if b then m else n)
Keeps-if true h h' = h
Keeps-if false h h' = h'

return-Keeps : {A : Type 0} (a : A) → Keeps (return {S = Kernel} a)
return-Keeps a = record { keeps = λ k k' b e. cc }

stuck-Keeps : {A : Type 0} → Keeps {A = A} stuck
stuck-Keeps = record { keeps = λ k k' b e. absurd (cc) }

word-Keeps : (a : ℕ) → Keeps (word a)
unfolding word
word-Keeps a = record { keeps = λ k k' b e. cc }

find_file_system-Keeps : (a : ℕ) → Keeps (find_file_system a)
unfolding find_file_system
find_file_system-Keeps a = record { keeps = λ k k' b e. cc }

module _ (text : String → ℕ) (conv_buf : ℕ) where
  pub print-Keeps : (format : String) (args : List ℕ) → Keeps (print text conv_buf format args)
  unfolding print
  print-Keeps format args = record {
    keeps = λ k k' b e. elim (Option-cases (printf conv_buf (text format) args k.keyboard.screen)) [
      | inl endless ↦ absurd (cc (rw (endless, print) at e))
      | inr ((r, s), done) ↦ cc (rw (done, print) at e)
    ];
  }

  print_byte-Keeps : (a : ℕ) → Keeps (print_byte text conv_buf a)
  unfolding print_byte
  print_byte-Keeps a = record { keeps = λ k k' b e. (print-Keeps "0x%x " _).keeps k k' b e }

  ruleset keeps_rules = (Keeps-bind, Keeps-if, return-Keeps, stuck-Keeps, word-Keeps, print-Keeps)

  print_bytes-Keeps : (n a : ℕ) → Keeps (print_bytes text conv_buf n a)
  unfolding print_bytes
  print_bytes-Keeps zero a = return-Keeps 0
  print_bytes-Keeps (suc n) a = Keeps-bind (print_byte-Keeps a) (λ r. print_bytes-Keeps n (a + 1))

  print_module-Keeps : (n a : ℕ) → Keeps (print_module text conv_buf n a)
  unfolding print_module
  print_module-Keeps n a = search (keeps_rules, print_bytes-Keeps) depth 12

  print_modules-Keeps : (n mbi i a : ℕ) → Keeps (print_modules text conv_buf n mbi i a)
  unfolding print_modules
  print_modules-Keeps zero mbi i a = stuck-Keeps
  print_modules-Keeps (suc n) mbi i a = Keeps-bind (word-Keeps (mbi + 20)) (λ count.
      Keeps-if (ltb i count)
        (Keeps-bind (print_module-Keeps i a) (λ r. print_modules-Keeps n mbi (i + 1) (a + 16)))
        (return-Keeps 0))

  print_range-Keeps : (a : ℕ) → Keeps (print_range text conv_buf a)
  unfolding print_range
  print_range-Keeps a = search (keeps_rules) depth 12

  print_map-Keeps : (n mbi a : ℕ) → Keeps (print_map text conv_buf n mbi a)
  unfolding print_map
  print_map-Keeps zero mbi a = stuck-Keeps
  print_map-Keeps (suc n) mbi a = Keeps-bind (word-Keeps (mbi + 44)) (λ length.
      Keeps-bind (word-Keeps (mbi + 48)) (λ start.
        Keeps-if (not (ltb a ((start + length) % 2 ^ 32))) (return-Keeps 0) (
          Keeps-bind (print_range-Keeps a) (λ r.
            Keeps-bind (word-Keeps a) (λ size. print_map-Keeps n mbi ((a + size + 4) % 2 ^ 32))))))

  take_modules-Keeps : (mbi : ℕ) → Keeps (take_modules text conv_buf mbi)
  unfolding take_modules
  take_modules-Keeps mbi = search (keeps_rules, find_file_system-Keeps, print_modules-Keeps)

  print_elf-Keeps : (mbi : ℕ) → Keeps (print_elf text conv_buf mbi)
  unfolding print_elf
  print_elf-Keeps mbi = search keeps_rules

  print_maps-Keeps : (mbi : ℕ) → Keeps (print_maps text conv_buf mbi)
  unfolding print_maps
  print_maps-Keeps mbi = search (keeps_rules, print_map-Keeps)

  print_memory-Keeps : (mbi : ℕ) → Keeps (print_memory text conv_buf mbi)
  unfolding print_memory
  print_memory-Keeps mbi = search keeps_rules

  print_device-Keeps : (mbi : ℕ) → Keeps (print_device text conv_buf mbi)
  unfolding print_device
  print_device-Keeps mbi = search keeps_rules

  print_cmdline-Keeps : (mbi : ℕ) → Keeps (print_cmdline text conv_buf mbi)
  unfolding print_cmdline
  print_cmdline-Keeps mbi = search keeps_rules

  if_flag-Keeps : (mbi n : ℕ) {m : Act Kernel ℕ} → Keeps m → Keeps (if_flag text conv_buf mbi n m)
  unfolding if_flag
  if_flag-Keeps mbi n h =
      Keeps-bind (word-Keeps mbi) (λ flags. Keeps-if (check_flag flags n) h (return-Keeps 0))

  last-Keeps :
      (mbi flags : ℕ)
      → Keeps (
          if check_flag flags 4 && check_flag flags 5
          then (print text conv_buf "Both bits 4 and 5 are set.\n" [] >> return false)
          else (if_flag text conv_buf mbi 5 (print_elf text conv_buf mbi)
              >> (if_flag text conv_buf mbi 6 (print_maps text conv_buf mbi) >> return true)))
  last-Keeps mbi flags =
      Keeps-if (check_flag flags 4 && check_flag flags 5)
        (Keeps-bind (print-Keeps "Both bits 4 and 5 are set.\n" []) (λ r. return-Keeps false))
        (Keeps-bind (if_flag-Keeps mbi 5 (print_elf-Keeps mbi))
          (λ r. Keeps-bind (if_flag-Keeps mbi 6 (print_maps-Keeps mbi)) (λ r'. return-Keeps true)))

  pub print_info-Keeps : (mbi : ℕ) → Keeps (print_info text conv_buf mbi)
  unfolding print_info
  print_info-Keeps mbi = Keeps-bind (word-Keeps mbi) (λ flags.
      Keeps-bind (print-Keeps "flags = 0x%#x\n" (flags ∷ [])) (λ r.
        Keeps-bind (if_flag-Keeps mbi 0 (print_memory-Keeps mbi)) (λ r0.
          Keeps-bind (if_flag-Keeps mbi 1 (print_device-Keeps mbi)) (λ r1.
            Keeps-bind (if_flag-Keeps mbi 2 (print_cmdline-Keeps mbi)) (λ r2.
              Keeps-bind (if_flag-Keeps mbi 3 (take_modules-Keeps mbi))
                (λ r3. Keeps-bind (word-Keeps mbi) (λ flags'. last-Keeps mbi flags')))))))
