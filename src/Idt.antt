-- ===== src/Idt.antt =====
-- The interrupt descriptor table of student-distrib/idt.c, with the macro that sets an address in
-- x86_desc.h. The addresses of the assembly entry points are a parameter.
pub mod Gates
mod Tests
use ece391_mp.Base.{
  ℕ, zero, suc, ◌+◌, ◌*◌, ◌/◌, ◌%◌, Bool, true, false, ◌||◌, List, [], ◌∷◌, ltb, ◌==◌,
  if◌then◌else◌,
}

-- `idt_desc_t`
pub record IdtDesc : Type 0 where
  pub offset_15_00 : ℕ
  pub seg_selector : ℕ
  pub reserved4 : ℕ
  pub reserved3 : ℕ
  pub reserved2 : ℕ
  pub reserved1 : ℕ
  pub size : ℕ
  pub reserved0 : ℕ
  pub dpl : ℕ
  pub present : ℕ
  pub offset_31_16 : ℕ

abbrev pub Idt : Type 0
Idt = ℕ → IdtDesc

-- The entry points, declared in ex_wrapper.h and int_wrapper.h.
pub data Entry : Type 0 where
  divide_error_ex_w debug_ex_w nmi_int_ex_w breakpoint_ex_w overflow_ex_w bound_range_exceeded_ex_w
        opcode_invalid_ex_w no_device_ex_w double_fault_ex_w coprocessor_segment_overrun_ex_w
        tss_invalid_ex_w no_segment_ex_w stack_fault_ex_w gp_fault_ex_w page_fault_ex_w fpu_ex_w
        alignment_check_ex_w machine_check_ex_w simd_ex_w pit_int_w kbrd_int_w rtc_int_w sys_int_w :
      Entry

abbrev pub num_vec : ℕ
num_vec = 256

abbrev pub kernel_cs : ℕ
kernel_cs = 0x0010

abbrev pub int_pit : ℕ
int_pit = 0x20

abbrev pub int_kbrd : ℕ
int_kbrd = 0x21

abbrev pub int_rtc : ℕ
int_rtc = 0x28

abbrev pub int_syscall : ℕ
int_syscall = 0x80

-- The condition of `setup_idt`, with CP1_IDTSIZE as 20.
unfoldable pub is_used : ℕ → Bool
is_used i = ltb i 20 || (i == int_pit) || (i == int_kbrd) || (i == int_rtc) || (i == int_syscall)

-- The body of the loop of `setup_idt`.
unfoldable pub setup_entry : ℕ → IdtDesc → IdtDesc
setup_entry i d =
    if is_used i
    then record d {
      seg_selector = kernel_cs;
      reserved4 = 0;
      reserved3 = 0;
      reserved2 = 1;
      reserved1 = 1;
      size = 1;
      reserved0 = 0;
      dpl = if i == int_syscall then 3 else 0;
      present = 1;
    }
    else record d {
      present = 0;
      size = 1;
      dpl = 0;
      reserved0 = 0;
      reserved1 = 1;
      reserved2 = 1;
      reserved3 = 1;
      reserved4 = 0;
      seg_selector = kernel_cs;
    }

-- `idt[i] = d`
abbrev pub set_desc : ℕ → IdtDesc → Idt → Idt
set_desc i d idt j = if j == i then d else idt j

-- The loop of `setup_idt`, from vector `i` on.
unfoldable pub setup_from : ℕ → ℕ → Idt → Idt
setup_from zero i idt = idt
setup_from (suc n) i idt = setup_from n (i + 1) (set_desc i (setup_entry i (idt i)) idt)

unfoldable pub setup_idt : Idt → Idt
unfolding setup_from
setup_idt idt = setup_from num_vec 0 idt

-- `SET_IDT_ENTRY(d, handler)`, for a 32-bit address.
unfoldable pub set_idt_entry : ℕ → IdtDesc → IdtDesc
set_idt_entry handler d = record d {
  offset_31_16 = handler / 0x10000 % 0x10000;
  offset_15_00 = handler % 0x10000;
}

-- The calls of `initialize_idt`, the first one first.
unfoldable pub entries : List (ℕ × Entry)
entries =
    (0x00, divide_error_ex_w)
    ∷ (0x01, debug_ex_w)
    ∷ (0x02, nmi_int_ex_w)
    ∷ (0x03, breakpoint_ex_w)
    ∷ (0x04, overflow_ex_w)
    ∷ (0x05, bound_range_exceeded_ex_w)
    ∷ (0x06, opcode_invalid_ex_w)
    ∷ (0x07, no_device_ex_w)
    ∷ (0x08, double_fault_ex_w)
    ∷ (0x09, coprocessor_segment_overrun_ex_w)
    ∷ (0x0A, tss_invalid_ex_w)
    ∷ (0x0B, no_segment_ex_w)
    ∷ (0x0C, stack_fault_ex_w)
    ∷ (0x0D, gp_fault_ex_w)
    ∷ (0x0E, page_fault_ex_w)
    ∷ (0x10, fpu_ex_w)
    ∷ (0x11, alignment_check_ex_w)
    ∷ (0x12, machine_check_ex_w)
    ∷ (0x13, simd_ex_w)
    ∷ (0x20, pit_int_w)
    ∷ (0x21, kbrd_int_w)
    ∷ (0x28, rtc_int_w)
    ∷ (0x80, sys_int_w)
    ∷ []

unfoldable pub set_entries : (Entry → ℕ) → List (ℕ × Entry) → Idt → Idt
set_entries address [] idt = idt
set_entries address ((i, h) ∷ rest) idt =
    set_entries address rest (set_desc i (set_idt_entry (address h) (idt i)) idt)

unfoldable pub initialize_idt : (Entry → ℕ) → Idt → Idt
unfolding set_entries entries
initialize_idt address idt = set_entries address entries idt
