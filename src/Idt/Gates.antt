-- ===== src/Idt/Gates.antt =====
-- What the table holds behind `setup_idt` and `initialize_idt`.
use ece391_mp.Base.{
  ℕ, zero, suc, ◌+◌, ◌*◌, ◌%◌, ◌^◌, ◌<◌, ◌≤◌, ◌≡◌, inl, inr, refl, arith, ap, sym, ◌∙◌, Bool-cases,
  true, false, Bool, leb, ◌||◌, List, [], ◌∷◌, Option, Option-cases, none, some, ◌==◌,
  if◌then◌else◌, if_true, if_false,
}
use mathlib.Core.Path.{subst}
use ece391_mp.Keyboard.{kbrd_irq}
use ece391_mp.Rtc.{rtc_irq}
use ece391_mp.Scheduler.{pit_irq}
use ece391_mp.Idt.{
  IdtDesc, Idt, Entry, divide_error_ex_w, debug_ex_w, nmi_int_ex_w, breakpoint_ex_w, overflow_ex_w,
  bound_range_exceeded_ex_w, opcode_invalid_ex_w, no_device_ex_w, double_fault_ex_w,
  coprocessor_segment_overrun_ex_w, tss_invalid_ex_w, no_segment_ex_w, stack_fault_ex_w,
  gp_fault_ex_w, page_fault_ex_w, fpu_ex_w, alignment_check_ex_w, machine_check_ex_w, simd_ex_w,
  pit_int_w, kbrd_int_w, rtc_int_w, sys_int_w, num_vec, int_syscall, is_used, setup_entry, set_desc,
  setup_from, setup_idt, set_idt_entry, entries, set_entries, initialize_idt,
}

set_desc-here : (i : ℕ) (d : IdtDesc) (idt : Idt) (j : ℕ) → (j == i) ≡ true → set_desc i d idt j ≡ d
set_desc-here i d idt j e = if_true _ _ e

set_desc-other :
    (i : ℕ) (d : IdtDesc) (idt : Idt) (j : ℕ) → (j == i) ≡ false → set_desc i d idt j ≡ idt j
set_desc-other i d idt j e = if_false _ _ e

setup_from-below : (n i : ℕ) (idt : Idt) (j : ℕ) → j < i → setup_from n i idt j ≡ idt j
unfolding setup_from
setup_from-below zero i idt j lt = refl
setup_from-below (suc n) i idt j lt =
    setup_from-below n (i + 1) (set_desc i (setup_entry i (idt i)) idt) j (omega arith)
    ∙ set_desc-other i (setup_entry i (idt i)) idt j (ground arith)

setup_from_lem :
    (n i : ℕ) (idt : Idt) (j : ℕ) → i ≤ j → j < i + n → setup_from n i idt j ≡ setup_entry j (idt j)
unfolding setup_from
setup_from_lem zero i idt j low high = absurd (omega arith)
setup_from_lem (suc n) i idt j low high =
    let idt1 = set_desc i (setup_entry i (idt i)) idt in
    elim (Bool-cases (j == i)) [
      | inl here ↦
          let same : i ≡ j = ground (arith, here) in
          setup_from-below n (i + 1) idt1 j (omega (arith, same))
          ∙ set_desc-here i (setup_entry i (idt i)) idt j here
          ∙ ap (λ x. setup_entry x (idt x)) same
      | inr other ↦
          setup_from_lem n (i + 1) idt1 j (ground (arith, other, low)) (omega arith)
          ∙ ap (setup_entry j) (set_desc-other i (setup_entry i (idt i)) idt j other)
    ]

-- The entry point that a list of calls gives to a vector: that of the last one for it.
unfoldable pub entry_of : List (ℕ × Entry) → ℕ → Option Entry
entry_of [] j = none
entry_of ((i, h) ∷ rest) j = elim (entry_of rest j) [
  | some h' ↦ some h'
  | none ↦ if j == i then some h else none
]

-- The fields of a gate that are not its address.
abbrev Rights : IdtDesc → IdtDesc → Type 0
Rights d d' = (d'.present ≡ d.present) × (d'.dpl ≡ d.dpl) × (d'.seg_selector ≡ d.seg_selector)

-- The 32-bit address that the processor takes from a gate.
abbrev pub address_in : IdtDesc → ℕ
address_in d = d.offset_31_16 * 0x10000 + d.offset_15_00

set_desc-Rights :
    (i handler : ℕ) (idt : Idt) (j : ℕ)
    → Rights (idt j) (set_desc i (set_idt_entry handler (idt i)) idt j)
unfolding set_idt_entry
set_desc-Rights i handler idt j = elim (Bool-cases (j == i)) [
  | inl here ↦
      let same : i ≡ j = ground (arith, here) in
      subst (λ d. Rights (idt j) d)
        (sym (set_desc-here i (set_idt_entry handler (idt i)) idt j here))
        (subst (λ x. Rights (idt x) (set_idt_entry handler (idt i))) same (refl, refl, refl))
  | inr other ↦
      subst (λ d. Rights (idt j) d)
        (sym (set_desc-other i (set_idt_entry handler (idt i)) idt j other)) (refl, refl, refl)
]

set_idt_entry-address :
    (handler : ℕ) (d : IdtDesc) → address_in (set_idt_entry handler d) ≡ handler % 2 ^ 32
unfolding set_idt_entry
set_idt_entry-address handler d = ground arith

set_entries-Rights :
    (address : Entry → ℕ) (es : List (ℕ × Entry)) (idt : Idt) (j : ℕ)
    → Rights (idt j) (set_entries address es idt j)
unfolding set_entries set_idt_entry
set_entries-Rights address [] idt j = (refl, refl, refl)
set_entries-Rights address ((i, h) ∷ rest) idt j =
    let idt1 = set_desc i (set_idt_entry (address h) (idt i)) idt in
    let (a, b, c) = set_entries-Rights address rest idt1 j in
    let (a', b', c') = set_desc-Rights i (address h) idt j in (a ∙ a', b ∙ b', c ∙ c')

set_entries-address :
    (address : Entry → ℕ) (es : List (ℕ × Entry)) (idt : Idt) (j : ℕ)
    → address_in (set_entries address es idt j)
      ≡ (elim (entry_of es j) [ none ↦ address_in (idt j) | some h ↦ address h % 2 ^ 32 ])
unfolding set_entries set_idt_entry entry_of
set_entries-address address [] idt j = refl
set_entries-address address ((i, h) ∷ rest) idt j =
    let idt1 = set_desc i (set_idt_entry (address h) (idt i)) idt in
    let before = set_entries-address address rest idt1 j in
    elim (Option-cases (entry_of rest j)) [
      | inr (h', later) ↦ before ∙ rw later refl
      | inl last ↦ elim (Bool-cases (j == i)) [
        | inl here ↦
            rw (last, here)
              (rw last at before
                ∙ ap address_in (set_desc-here i (set_idt_entry (address h) (idt i)) idt j here)
                ∙ set_idt_entry-address (address h) (idt i))
        | inr other ↦
            rw (last, other)
              (rw last at before
                ∙ ap address_in (set_desc-other i (set_idt_entry (address h) (idt i)) idt j other))
      ]
    ]

setup_idt-entry : (idt : Idt) (i : ℕ) → i < num_vec → setup_idt idt i ≡ setup_entry i (idt i)
unfolding setup_idt
setup_idt-entry idt i lt = setup_from_lem num_vec 0 idt i (omega arith) lt

setup_entry-Rights :
    (i : ℕ) (d : IdtDesc)
    → ((setup_entry i d).present ≡ (if is_used i then 1 else 0))
      × ((setup_entry i d).dpl ≡ (if i == int_syscall then 3 else 0))
      × ((setup_entry i d).seg_selector ≡ 0x10)
unfolding setup_entry is_used
setup_entry-Rights i d = (ground arith, ground arith, ground arith)

setup_entry-address : (i : ℕ) (d : IdtDesc) → address_in (setup_entry i d) ≡ address_in d
unfolding setup_entry
setup_entry-address i d = ground arith

set_entries_lem :
    (address : Entry → ℕ) (es : List (ℕ × Entry)) (idt : Idt) (i : ℕ) (d : IdtDesc)
    → idt i ≡ setup_entry i d
    → let d' = set_entries address es idt i in
      (d'.present ≡ (if is_used i then 1 else 0))
      × (d'.dpl ≡ (if i == int_syscall then 3 else 0))
      × (d'.seg_selector ≡ 0x10)
      × ((h : Entry) → entry_of es i ≡ some h → address h < 2 ^ 32 → address_in d' ≡ address h)
set_entries_lem address es idt i d setup =
    let (present, dpl, selector) = set_entries-Rights address es idt i in
    let (is_present, is_dpl, is_selector) = setup_entry-Rights i d in
    (
      present ∙ ap (λ x. x.present) setup ∙ is_present,
      dpl ∙ ap (λ x. x.dpl) setup ∙ is_dpl,
      selector ∙ ap (λ x. x.seg_selector) setup ∙ is_selector,
      λ h given small. rw given at (set_entries-address address es idt i) ∙ omega arith,
    )

-- The vector of an entry point: for an exception its number in the processor; the lines 0, 1 and 8 of
-- the interrupt controllers, which are mapped from 0x20 on; and 0x80 for the system calls.
unfoldable pub vector : Entry → ℕ
vector divide_error_ex_w = 0
vector debug_ex_w = 1
vector nmi_int_ex_w = 2
vector breakpoint_ex_w = 3
vector overflow_ex_w = 4
vector bound_range_exceeded_ex_w = 5
vector opcode_invalid_ex_w = 6
vector no_device_ex_w = 7
vector double_fault_ex_w = 8
vector coprocessor_segment_overrun_ex_w = 9
vector tss_invalid_ex_w = 10
vector no_segment_ex_w = 11
vector stack_fault_ex_w = 12
vector gp_fault_ex_w = 13
vector page_fault_ex_w = 14
vector fpu_ex_w = 16
vector alignment_check_ex_w = 17
vector machine_check_ex_w = 18
vector simd_ex_w = 19
vector pit_int_w = 0x20 + pit_irq
vector kbrd_int_w = 0x20 + kbrd_irq
vector rtc_int_w = 0x20 + rtc_irq
vector sys_int_w = 0x80

vector-entries : (h : Entry) → (entry_of entries (vector h) ≡ some h) × (vector h < num_vec)
unfolding entry_of entries vector
vector-entries divide_error_ex_w = (refl, omega arith)
vector-entries debug_ex_w = (refl, omega arith)
vector-entries nmi_int_ex_w = (refl, omega arith)
vector-entries breakpoint_ex_w = (refl, omega arith)
vector-entries overflow_ex_w = (refl, omega arith)
vector-entries bound_range_exceeded_ex_w = (refl, omega arith)
vector-entries opcode_invalid_ex_w = (refl, omega arith)
vector-entries no_device_ex_w = (refl, omega arith)
vector-entries double_fault_ex_w = (refl, omega arith)
vector-entries coprocessor_segment_overrun_ex_w = (refl, omega arith)
vector-entries tss_invalid_ex_w = (refl, omega arith)
vector-entries no_segment_ex_w = (refl, omega arith)
vector-entries stack_fault_ex_w = (refl, omega arith)
vector-entries gp_fault_ex_w = (refl, omega arith)
vector-entries page_fault_ex_w = (refl, omega arith)
vector-entries fpu_ex_w = (refl, omega arith)
vector-entries alignment_check_ex_w = (refl, omega arith)
vector-entries machine_check_ex_w = (refl, omega arith)
vector-entries simd_ex_w = (refl, omega arith)
vector-entries pit_int_w = (refl, omega arith)
vector-entries kbrd_int_w = (refl, omega arith)
vector-entries rtc_int_w = (refl, omega arith)
vector-entries sys_int_w = (refl, omega arith)

-- The vectors that are present: the exceptions 0 to 0x13, the three interrupt lines, the system calls.
abbrev pub is_present : ℕ → Bool
is_present i = leb i 0x13 || (i == 0x20) || (i == 0x21) || (i == 0x28) || (i == 0x80)

is_used-present : (i : ℕ) → is_used i ≡ is_present i
unfolding is_used
is_used-present i = ground arith

nothing_at_15 : entry_of entries 15 ≡ none
unfolding entry_of entries
nothing_at_15 = refl

-- Behind `setup_idt` and `initialize_idt`, with entry points at 32-bit addresses and whatever the
-- table held before: each entry point is in the gate of its vector; the gates that are present are
-- those of 0 to 0x13, 0x20, 0x21, 0x28 and 0x80; user code can call that of 0x80 alone; all lead to
-- the kernel's code segment; and vector 15, which has no entry point, has the address from before.
pub initialize_idt_lem :
    (address : Entry → ℕ) (idt : Idt)
    → ((h : Entry) → address h < 2 ^ 32)
    → let t = initialize_idt address (setup_idt idt) in
      ((h : Entry) → address_in (t (vector h)) ≡ address h)
      × ((i : ℕ)
          → i < num_vec
          → ((t i).present ≡ (if is_present i then 1 else 0))
            × ((t i).dpl ≡ (if i == 0x80 then 3 else 0))
            × ((t i).seg_selector ≡ 0x10))
      × (address_in (t 15) ≡ address_in (idt 15))
unfolding initialize_idt
initialize_idt_lem address idt small =
    let at = λ (i : ℕ) (lt : i < num_vec).
      set_entries_lem address entries (setup_idt idt) i (idt i) (setup_idt-entry idt i lt) in
    (
      λ h.
          let (given, lt) = vector-entries h in
          let (present, dpl, selector, leads) = at (vector h) lt in leads h given (small h),
      λ i lt.
          let (present, dpl, selector, others) = at i lt in
          (present ∙ ap (λ b. if b then 1 else 0) (is_used-present i), dpl, selector),
      rw nothing_at_15 at (set_entries-address address entries (setup_idt idt) 15)
          ∙ ap address_in (setup_idt-entry idt 15 (omega arith))
          ∙ setup_entry-address 15 (idt 15),
    )
