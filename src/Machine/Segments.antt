-- ===== src/Machine/Segments.antt =====
-- The segments of gdt_init in kernel/gdt.c, as the processor reads them.
use nulix.Common.{ℕ, ◌/◌, ◌%◌, ◌^◌, ◌≤◌, ◌<◌, ◌≡◌, refl, arith, true, false, Bool, leb, ltb}
use nulix.Machine.Gdt.{
  GdtEntry, Gdt, gdt_entry, gdt_set_gate, gdt_init, gdt_gran_base, segment_base, segment_limit,
  segment_flags, holds_offset,
}

-- A present segment from address 0 on, of a privilege level, for code (1) or data (0), whose offsets
-- of 32 bits are all inside, or all outside.
pub record Flat (level code : ℕ) (inside : Bool) (e : GdtEntry) : Type 0 where
  pub base : segment_base e ≡ 0
  pub present : e.access / 2 ^ 7 ≡ 1
  pub privilege : e.access / 2 ^ 5 % 4 ≡ level
  pub ordinary : e.access / 2 ^ 4 % 2 ≡ 1
  pub executable : e.access / 2 ^ 3 % 2 ≡ code
  pub offsets : (o : ℕ) → o < 2 ^ 32 → holds_offset e o ≡ inside

pub record Segments (before after : Gdt) : Type 0 where
  pub null : (after.gdt 0).access / 2 ^ 7 ≡ 0
  pub kernel_code : Flat 0 1 true (after.gdt 1)
  pub kernel_data : Flat 0 0 true (after.gdt 2)
  pub kernel_stack : Flat 0 0 false (after.gdt 3)
  pub user_code : Flat 3 1 true (after.gdt 4)
  pub user_data : Flat 3 0 true (after.gdt 5)
  pub user_stack : Flat 3 0 false (after.gdt 6)
  pub others : (i : ℕ) → 7 ≤ i → after.gdt i ≡ before.gdt i

upward : (o : ℕ) → o < 2 ^ 32 → leb o 0xffffffff ≡ true
upward o h = ground arith

downward : (o : ℕ) → o < 2 ^ 32 → ltb 0xffffffff o ≡ false
downward o h = ground arith

-- The gates of gdt_init differ in their access bytes.
gate-Flat :
    (access level code : ℕ) (inside : Bool)
    → (access / 2 ^ 7 ≡ 1)
      × (access / 2 ^ 5 % 4 ≡ level)
      × (access / 2 ^ 4 % 2 ≡ 1)
      × (access / 2 ^ 3 % 2 ≡ code)
    → ((o : ℕ) → o < 2 ^ 32 → holds_offset (gdt_entry 0 0xffff access gdt_gran_base) o ≡ inside)
    → Flat level code inside (gdt_entry 0 0xffff access gdt_gran_base)
unfolding gdt_entry segment_base
gate-Flat access level code inside bits offsets = record {
  base = refl;
  present = bits.0;
  privilege = bits.1;
  ordinary = bits.2;
  executable = bits.3;
  offsets = offsets;
}

-- Whatever the table held before, after gdt_init the entries 1 to 6 are present segments from
-- address 0 on, 1 to 3 of the kernel's privilege and 4 to 6 of the user's, 1 and 4 of code and
-- the others of data; those of code and data hold every address of 32 bits, and those of the
-- stacks, which expand down from the same limit, hold none. Entry 0 is not present, and the
-- entries from 7 on are as before.
pub gdt_init-Segments : (g : Gdt) → Segments g (gdt_init g)
unfolding gdt_init gdt_set_gate gdt_entry segment_limit segment_flags holds_offset
gdt_init-Segments g = record {
  null = refl;
  kernel_code = gate-Flat 0x9a 0 1 true (refl, refl, refl, refl) upward;
  kernel_data = gate-Flat 0x92 0 0 true (refl, refl, refl, refl) upward;
  kernel_stack = gate-Flat 0x96 0 0 false (refl, refl, refl, refl) downward;
  user_code = gate-Flat 0xfa 3 1 true (refl, refl, refl, refl) upward;
  user_data = gate-Flat 0xf2 3 0 true (refl, refl, refl, refl) upward;
  user_stack = gate-Flat 0xf6 3 0 false (refl, refl, refl, refl) downward;
  others = λ i h. ground arith;
}
