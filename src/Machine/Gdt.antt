-- ===== src/Machine/Gdt.antt =====
-- kernel/gdt.c and kernel/gdt_internal.h: segment descriptors.
use nulix.Common.{
  ℕ, ◌+◌, ◌*◌, ◌/◌, ◌%◌, ◌^◌, ◌<◌, ◌≡◌, refl, ◌==◌, Bool, ltb, leb, ◌&&◌, if◌then◌else◌, bit_and,
  bit_or, arith, holds_below, holds_below-at, true, bit_and_low,
}

-- `t_gdt_entry`
pub record GdtEntry : Type 0 where
  pub limit_low : ℕ
  pub base_low : ℕ
  pub base_middle : ℕ
  pub access : ℕ
  pub granularity : ℕ
  pub base_high : ℕ

-- `t_gdt_ptr`
pub record GdtPtr : Type 0 where
  pub limit : ℕ
  pub base : ℕ

-- The entries at GDT_BASE_ADDRESS, and `gdtp`.
pub record Gdt : Type 0 where
  pub gdt : ℕ → GdtEntry
  pub gdtp : GdtPtr

-- The fields as gdt_set_gate sets them.
unfoldable pub gdt_entry : ℕ → ℕ → ℕ → ℕ → GdtEntry
gdt_entry base limit access gran = record {
  base_low = bit_and base 0xffff;
  base_middle = bit_and (base / 2 ^ 16) 0xff;
  base_high = bit_and (base / 2 ^ 24) 0xff;
  limit_low = bit_and limit 0xffff;
  granularity = bit_or (bit_and (limit / 2 ^ 16) 0x0f) (bit_and gran 0xff);
  access = access;
}

unfoldable pub gdt_set_gate : ℕ → ℕ → ℕ → ℕ → ℕ → Gdt → Gdt
gdt_set_gate num base limit access gran g = record g {
  gdt = λ i. if i == num then gdt_entry base limit access gran else g.gdt i;
}

-- SEG_DESCTYPE(1) | SEG_PRES(1) | SEG_SIZE(1) | SEG_GRAN(1) | SEG_PRIV(priv) | type, as a byte.
abbrev pub seg_access : ℕ → ℕ → ℕ
seg_access priv type =
    bit_or
      (bit_or (bit_or (bit_or (bit_or (2 ^ 4) (2 ^ 7)) (2 ^ 14)) (2 ^ 15))
        (bit_and priv 0x03 * 2 ^ 5))
      type
    % 2 ^ 8

abbrev pub gdt_size : ℕ
gdt_size = 0x6

abbrev pub gdt_gran_base : ℕ
gdt_gran_base = 0xcf

unfoldable pub gdt_init : Gdt → Gdt
gdt_init g =
    let start : Gdt = record g { gdtp = record { limit = 8 * gdt_size; base = 0x800 } } in
    gdt_set_gate 6 0x0 0xffff (seg_access 3 0x06) gdt_gran_base (
      gdt_set_gate 5 0x0 0xffff (seg_access 3 0x02) gdt_gran_base (
        gdt_set_gate 4 0x0 0xffff (seg_access 3 0x0a) gdt_gran_base (
          gdt_set_gate 3 0x0 0xffff (seg_access 0 0x06) gdt_gran_base (
            gdt_set_gate 2 0x0 0xffff (seg_access 0 0x02) gdt_gran_base (
              gdt_set_gate 1 0x0 0xffff (seg_access 0 0x0a) gdt_gran_base
                (gdt_set_gate 0 0 0 0 0 start))))))

-- How the processor reads a descriptor.
unfoldable pub segment_base : GdtEntry → ℕ
segment_base e = e.base_low + e.base_middle * 2 ^ 16 + e.base_high * 2 ^ 24

unfoldable pub segment_limit : GdtEntry → ℕ
segment_limit e = e.limit_low + e.granularity % 16 * 2 ^ 16

unfoldable pub segment_flags : GdtEntry → ℕ
segment_flags e = e.granularity / 16

-- Whether a segment of code or data holds the byte at an offset: a granular limit counts pages, and a
-- data segment that expands down holds what is beyond its limit.
unfoldable pub holds_offset : GdtEntry → ℕ → Bool
holds_offset e offset =
    let limit =
      if ltb 7 (segment_flags e) then segment_limit e * 2 ^ 12 + 4095 else segment_limit e in
    if e.access / 4 % 4 == 1 then ltb limit offset else leb offset limit

-- A nibble over another, and the nibble above.
nibbles :
    holds_below 16 (λ low. holds_below 256 (λ gran.
      (bit_or low (bit_and gran 0xff) % 16 == bit_or low (gran % 16))
      && (bit_or low (bit_and gran 0xff) / 16 == gran / 16)))
    ≡ true
unfolding holds_below
nibbles = refl

-- A descriptor of gdt_set_gate is decoded to its base of 32 bits, its access byte and its flags, and
-- to its limit of 20 bits with the low four bits of the granularity over its high ones.
pub gdt_set_gate-decoded :
    (num base limit access gran : ℕ) (g : Gdt)
    → base < 2 ^ 32
    → limit < 2 ^ 20
    → gran < 256
    → (let e = (gdt_set_gate num base limit access gran g).gdt num in
        (segment_base e ≡ base)
        × (segment_limit e ≡ limit % 2 ^ 16 + bit_or (limit / 2 ^ 16) (gran % 16) * 2 ^ 16)
        × (segment_flags e ≡ gran / 16)
        × (e.access ≡ access))
unfolding gdt_set_gate gdt_entry segment_base segment_limit segment_flags
gdt_set_gate-decoded num base limit access gran g hb hl hg =
    let same : (num == num) ≡ true = ground arith in
    let nibble : bit_and (limit / 2 ^ 16) 0x0f ≡ limit / 2 ^ 16 =
      omega (arith, bit_and_low 4 (limit / 2 ^ 16)) in
    let byte =
      holds_below-at 256 _ gran (holds_below-at 16 _ (limit / 2 ^ 16) nibbles (omega arith)) hg in
    rw (same, nibble)
      (
        omega (
          arith,
          bit_and_low 16 base,
          bit_and_low 8 (base / 2 ^ 16),
          bit_and_low 8 (base / 2 ^ 24),
        ),
        ground (arith, byte, bit_and_low 16 limit),
        ground (arith, byte),
        refl,
      )
