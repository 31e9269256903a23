-- ===== src/Idt/Tests.antt =====
-- The table with all entry points at 0x401000, from an empty one.
use ece391_mp.Base.{ℕ, ◌<◌, ◌≡◌, arith, ◌==◌, if◌then◌else◌}
use ece391_mp.Idt.{Idt, Entry, num_vec, setup_idt, initialize_idt}
use ece391_mp.Idt.Gates.{vector, is_present, address_in, initialize_idt_lem}

abbrev empty : Idt
empty i = record {
  offset_15_00 = 0;
  seg_selector = 0;
  reserved4 = 0;
  reserved3 = 0;
  reserved2 = 0;
  reserved1 = 0;
  size = 0;
  reserved0 = 0;
  dpl = 0;
  present = 0;
  offset_31_16 = 0;
}

initialize_idt_lem_example :
    let t = initialize_idt (λ h. 0x401000) (setup_idt empty) in
    ((h : Entry) → address_in (t (vector h)) ≡ 0x401000)
    × ((i : ℕ)
        → i < num_vec
        → ((t i).present ≡ (if is_present i then 1 else 0))
          × ((t i).dpl ≡ (if i == 0x80 then 3 else 0))
          × ((t i).seg_selector ≡ 0x10))
    × (address_in (t 15) ≡ address_in (empty 15))
initialize_idt_lem_example = initialize_idt_lem (λ h. 0x401000) empty (λ h. omega arith)
