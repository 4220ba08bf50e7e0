-- ===== src/Machine/Idt.antt =====
-- kernel/idt.c and kernel/idt_internal.h: the gates of interrupts. The addresses of the handlers, which
-- the linker sets, are arguments, by vector.
use nulix.Common.{
  ℕ, ◌+◌, ◌*◌, ◌/◌, ◌%◌, ◌^◌, ◌<◌, ◌≡◌, ◌⊎◌, ◌==◌, ◌||◌, if◌then◌else◌, bit_and, bit_and_low, arith,
}

-- `t_idt_entry`
pub record IdtEntry : Type 0 where
  pub base_low : ℕ
  pub selector : ℕ
  pub zero_byte : ℕ
  pub type_attributes : ℕ
  pub base_high : ℕ

-- `t_idt_ptr`
pub record IdtPtr : Type 0 where
  pub limit : ℕ
  pub base : ℕ

pub record Idt : Type 0 where
  pub idt : ℕ → IdtEntry
  pub idtp : IdtPtr

abbrev pub trap_gate_flags : ℕ
trap_gate_flags = 0x8f

abbrev pub int_gate_flags : ℕ
int_gate_flags = 0x8e

unfoldable pub idt_set_descriptor : ℕ → ℕ → ℕ → Idt → Idt
idt_set_descriptor idt_index isr_addr flags t = record t {
  idt = λ i.
      if i == idt_index
      then record {
        base_low = bit_and isr_addr 0xffff;
        selector = 0x08;
        zero_byte = 0;
        type_attributes = flags;
        base_high = isr_addr / 2 ^ 16;
      }
      else t.idt i;
}

-- The vectors of the exceptions and interrupts.
abbrev pub isr_de : ℕ
isr_de = 0

abbrev pub isr_of : ℕ
isr_of = 4

abbrev pub isr_df : ℕ
isr_df = 8

abbrev pub isr_tm : ℕ
isr_tm = 32

abbrev pub isr_kb : ℕ
isr_kb = 33

-- idt_init, up to the two instructions at its end. The limit has 16 bits.
unfoldable pub idt_init : (ℕ → ℕ) → Idt → Idt
idt_init handler t =
    let start : Idt = record t { idtp = record { limit = 8 * 256 % 2 ^ 16; base = 0 } } in
    idt_set_descriptor isr_kb (handler isr_kb) int_gate_flags (
      idt_set_descriptor isr_tm (handler isr_tm) int_gate_flags (
        idt_set_descriptor isr_df (handler isr_df) trap_gate_flags (
          idt_set_descriptor isr_of (handler isr_of) trap_gate_flags
            (idt_set_descriptor isr_de (handler isr_de) trap_gate_flags start))))

-- Where the processor goes by a gate.
abbrev pub gate_target : IdtEntry → ℕ
gate_target e = e.base_low + e.base_high * 2 ^ 16

-- After idt_init, the gates of the vectors 0, 4, 8, 32 and 33 lead to the handlers of these
-- vectors in the kernel's code segment, as interrupt gates for 32 and 33 and as trap gates for
-- the others.
pub idt_init-handlers :
    (handler : ℕ → ℕ) (t : Idt) (v : ℕ)
    → handler v < 2 ^ 32
    → ((v ≡ isr_de) ⊎ ((v ≡ isr_of) ⊎ ((v ≡ isr_df) ⊎ ((v ≡ isr_tm) ⊎ (v ≡ isr_kb)))))
    → (gate_target ((idt_init handler t).idt v) ≡ handler v)
      × (((idt_init handler t).idt v).selector ≡ 0x08)
      × (((idt_init handler t).idt v).type_attributes
          ≡ (if v == isr_tm || v == isr_kb then int_gate_flags else trap_gate_flags))
unfolding idt_init idt_set_descriptor
idt_init-handlers handler t v h known =
    let low = bit_and_low 16 (handler v) in ground (arith, low, known, h)
