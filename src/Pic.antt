-- ===== src/Pic.antt =====
-- student-distrib/i8259.c: the two interrupt controllers. What `outb` sends is kept as a list of
-- (value, port), the first one first. `cli` and `sti` clear and set the interrupt flag.
pub mod Masks
mod Tests
use Prim.Native.Nat.{bit_and, bit_or}
use ece391_mp.Base.{
  ℕ, ◌+◌, ◌-◌, ◌%◌, ◌^◌, Bool, true, false, List, [], ◌∷◌, ◌++◌, ltb, if◌then◌else◌,
}

pub record Ports : Type 0 where
  pub master_mask : ℕ
  pub slave_mask : ℕ
  pub interrupts : Bool
  pub out : List (ℕ × ℕ)

abbrev pub max_irq_num : ℕ
max_irq_num = 15

abbrev pub master_irq : ℕ
master_irq = 7

abbrev pub master_8259_port : ℕ
master_8259_port = 0x20

abbrev pub slave_8259_port : ℕ
slave_8259_port = 0xA0

abbrev pub master_data : ℕ
master_data = master_8259_port + 1

abbrev pub slave_data : ℕ
slave_data = slave_8259_port + 1

abbrev pub eoi : ℕ
eoi = 0x60

-- `outb(value, port)` sends the low byte.
abbrev pub outb : ℕ → ℕ → Ports → Ports
outb value port s = record s { out = s.out ++ ((value % 256, port) ∷ []) }

abbrev pub cli : Ports → Ports
cli s = record s { interrupts = false }

abbrev pub sti : Ports → Ports
sti s = record s { interrupts = true }

-- `~(1 << n)` as a `uint32_t`.
unfoldable pub clear_bit : ℕ → ℕ
clear_bit n = 2 ^ 32 - 1 - 2 ^ n

-- `mask &= bit_vector` and `mask |= bit_vector` on a `uint8_t`.
unfoldable pub unmask : ℕ → ℕ → ℕ
unfolding clear_bit
unmask mask n = bit_and mask (clear_bit n) % 256

unfoldable pub mask_out : ℕ → ℕ → ℕ
mask_out mask n = bit_or mask (2 ^ n) % 256

unfoldable pub enable_irq : ℕ → Ports → Ports
enable_irq irq_num s =
    if ltb max_irq_num irq_num
    then s
    else if ltb master_irq irq_num
    then (let mask = unmask s.slave_mask (irq_num - (master_irq + 1)) in
        outb mask slave_data (record s { slave_mask = mask }))
    else (let mask = unmask s.master_mask irq_num in
        outb mask master_data (record s { master_mask = mask }))

unfoldable pub disable_irq : ℕ → Ports → Ports
disable_irq irq_num s =
    if ltb max_irq_num irq_num
    then s
    else if ltb master_irq irq_num
    then (let mask = mask_out s.slave_mask (irq_num - (master_irq + 1)) in
        outb mask slave_data (record s { slave_mask = mask }))
    else (let mask = mask_out s.master_mask irq_num in
        outb mask master_data (record s { master_mask = mask }))

unfoldable pub send_eoi : ℕ → Ports → Ports
send_eoi irq_num s =
    if ltb max_irq_num irq_num
    then s
    else if ltb master_irq irq_num
    then outb (bit_or 2 eoi) master_8259_port
        (outb (bit_or (irq_num - (master_irq + 1)) eoi) slave_8259_port s)
    else outb (bit_or irq_num eoi) master_8259_port s

-- The control words, in the order in which they are sent.
unfoldable pub init : Ports → Ports
unfolding enable_irq
init s =
    let masked = outb 0xFF slave_data (outb 0xFF master_data s) in
    let word1 = outb 0x11 slave_8259_port (outb 0x11 master_8259_port masked) in
    let word2 = outb 0x28 slave_data (outb 0x20 master_data word1) in
    let word3 = outb 0x02 slave_data (outb 0x04 master_data word2) in
    enable_irq 2 (outb 0x01 slave_data (outb 0x01 master_data word3))
