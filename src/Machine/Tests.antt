-- ===== src/Machine/Tests.antt =====
-- Instances of the theorems on the set-up of the machine, and what its tables leave out.
use nulix.Common.{ℕ, ◌+◌, ◌*◌, ◌<◌, ◌≡◌, inr, refl, [], ◌∷◌, none, some, arith}
use nulix.Machine.Gdt.{Gdt, gdt_entry, gdt_set_gate, gdt_init, segment_limit}
use nulix.Machine.Segments.{Segments, gdt_init-Segments}
use nulix.Machine.Idt.{Idt, idt_init, idt_init-handlers, gate_target, int_gate_flags}
use nulix.Machine.Pic.{pic_8259_eoi, mask_port}
use nulix.Machine.Paging.{zero_entry, translate, boot_init, boot_init-translate, page_clear}

abbrev zero_gdt : Gdt
zero_gdt = record {
  gdt = λ i. record {
    limit_low = 0;
    base_low = 0;
    base_middle = 0;
    access = 0;
    granularity = 0;
    base_high = 0;
  };
  gdtp = record { limit = 0; base = 0 };
}

-- The granularity sets the high part of the limit, which is asked to be 0.
flat_limit : segment_limit ((gdt_init zero_gdt).gdt 1) ≡ 0xfffff
unfolding segment_limit gdt_init gdt_set_gate gdt_entry
flat_limit = refl

-- The last byte of the seventh entry is past the limit of the table.
seventh_past : (gdt_init zero_gdt).gdtp.limit < 6 * 8 + 7
unfolding gdt_init gdt_set_gate
seventh_past = omega arith

-- The access bytes of the header.
accesses :
    ((gdt_init zero_gdt).gdt 1).access
      ∷ ((gdt_init zero_gdt).gdt 2).access
      ∷ ((gdt_init zero_gdt).gdt 3).access
      ∷ ((gdt_init zero_gdt).gdt 4).access
      ∷ ((gdt_init zero_gdt).gdt 5).access
      ∷ ((gdt_init zero_gdt).gdt 6).access
      ∷ []
    ≡ 0x9a ∷ 0x92 ∷ 0x96 ∷ 0xfa ∷ 0xf2 ∷ 0xf6 ∷ []
unfolding gdt_init gdt_set_gate gdt_entry
accesses = refl

gdt_init-Segments_example : Segments zero_gdt (gdt_init zero_gdt)
gdt_init-Segments_example = gdt_init-Segments zero_gdt

abbrev zero_idt : Idt
zero_idt = record {
  idt =
      λ i. record { base_low = 0; selector = 0; zero_byte = 0; type_attributes = 0; base_high = 0 };
  idtp = record { limit = 0; base = 0 };
}

abbrev handlers : ℕ → ℕ
handlers v = 0xc0100000 + v * 64

idt_init-handlers_example :
    (gate_target ((idt_init handlers zero_idt).idt 33) ≡ 0xc0100840)
    × (((idt_init handlers zero_idt).idt 33).selector ≡ 0x08)
    × (((idt_init handlers zero_idt).idt 33).type_attributes ≡ int_gate_flags)
idt_init-handlers_example =
    idt_init-handlers handlers zero_idt 33 (omega arith) (inr (inr (inr (inr refl))))

-- IRQ 8 is the second controller's, which is not told.
eighth : (pic_8259_eoi 8 ≡ 0x20 ∷ []) × (mask_port 8 ≡ 0xa1)
unfolding pic_8259_eoi
eighth = (refl, refl)

-- A cleared entry translates nothing.
cleared_page : translate (page_clear (boot_init (λ q. zero_entry)) 0x1000) 0x1000 0x5000 ≡ none
unfolding translate page_clear
cleared_page = refl

boot_init-translate_example :
    (translate (boot_init (λ q. zero_entry)) 0x1000 0xb8000 ≡ some 0xb8000)
    × (translate (boot_init (λ q. zero_entry)) 0x1000 0xc00b8000 ≡ some 0xb8000)
boot_init-translate_example = boot_init-translate (λ q. zero_entry) 0xb8000 (omega arith)
