-- ===== src/Machine/Pic.antt =====
-- kernel/pic_8259.c and include/kernel/pic_8259.h: the interrupt controllers. A port reads back what
-- was last written to it, as the mask registers do once the controllers are set up.
use nulix.Common.{
  ℕ, ◌+◌, ◌-◌, ◌%◌, ◌^◌, ◌<◌, ◌≡◌, refl, ap, ◌∙◌, ◌==◌, ==_iff, ltb, Bool, true, false, ◌&&◌, ◌||◌,
  not, if◌then◌else◌, bit_and, bit_or, arith, holds_below, holds_below-at, Bool-cases, inl, inr,
  sym, List, [], ◌∷◌,
}

abbrev pub Ports : Type 0
Ports = ℕ → ℕ

unfoldable pub port_write_u8 : ℕ → ℕ → Ports → Ports
port_write_u8 port val p q = if q == port then val % 2 ^ 8 else p q

abbrev pub pic1 : ℕ
pic1 = 0x20

abbrev pub pic2 : ℕ
pic2 = 0xa0

abbrev pub pic_eoi : ℕ
pic_eoi = pic1

abbrev pub icw1 : ℕ
icw1 = 0x11

abbrev pub icw4 : ℕ
icw4 = 0x01

-- The mask port of an IRQ, and its bit there.
abbrev pub mask_port : ℕ → ℕ
mask_port irq_id = if ltb irq_id 8 then pic1 + 1 else pic2 + 1

abbrev pub mask_bit : ℕ → ℕ
mask_bit irq_id = if ltb irq_id 8 then irq_id else irq_id - 8

unfoldable pub irq_set_mask : ℕ → Ports → Ports
irq_set_mask irq_id p =
    port_write_u8 (mask_port irq_id) (bit_or (p (mask_port irq_id)) (2 ^ mask_bit irq_id)) p

unfoldable pub irq_clear_mask : ℕ → Ports → Ports
irq_clear_mask irq_id p =
    port_write_u8 (mask_port irq_id)
      (bit_and (p (mask_port irq_id)) (2 ^ 32 - 1 - 2 ^ mask_bit irq_id)) p

-- The writes of pic_8259_init in order, and the two IRQs that it lets through.
unfoldable pub pic_8259_init : ℕ → ℕ → Ports → Ports
pic_8259_init offset1 offset2 p =
    let commands = port_write_u8 pic2 icw1 (port_write_u8 pic1 icw1 p) in
    let offsets = port_write_u8 (pic2 + 1) offset2 (port_write_u8 (pic1 + 1) offset1 commands) in
    let cascade = port_write_u8 (pic2 + 1) 2 (port_write_u8 (pic1 + 1) 4 offsets) in
    let modes = port_write_u8 (pic2 + 1) icw4 (port_write_u8 (pic1 + 1) icw4 cascade) in
    let masked = port_write_u8 (pic2 + 1) 0xff (port_write_u8 (pic1 + 1) 0xff modes) in
    irq_clear_mask 1 (irq_clear_mask 0 masked)

-- The controllers that are told of the end of an interrupt, the second one first.
unfoldable pub pic_8259_eoi : ℕ → List ℕ
pic_8259_eoi irq_id = if ltb 8 irq_id then pic2 ∷ pic1 ∷ [] else pic1 ∷ []

-- Whether an IRQ is masked.
unfoldable pub is_masked : Ports → ℕ → Bool
is_masked p irq_id = not (bit_and (p (mask_port irq_id)) (2 ^ mask_bit irq_id) == 0)

-- The mask registers hold bytes.
pub record IsBytes (p : Ports) : Type 0 where
  pub first : p (pic1 + 1) < 256
  pub second : p (pic2 + 1) < 256

abbrev bit_of : ℕ → ℕ → Bool
bit_of value b = not (bit_and value (2 ^ b) == 0)

abbrev same_test : Bool → Bool → Bool
same_test a b = if a then b else not b

same_test_eq : (a b : Bool) → same_test a b ≡ true → a ≡ b
same_test_eq true b h = ground (arith, h)
same_test_eq false b h = ground (arith, h)

clear_table :
    holds_below 8 (λ b. holds_below 8 (λ c. holds_below 256 (λ v.
      same_test (bit_of (bit_and v (2 ^ 32 - 1 - 2 ^ b) % 2 ^ 8) c) (bit_of v c && not (b == c)))))
    ≡ true
unfolding holds_below
clear_table = refl

set_table :
    holds_below 8 (λ b. holds_below 8 (λ c.
      holds_below 256
        (λ v. same_test (bit_of (bit_or v (2 ^ b) % 2 ^ 8) c) (bit_of v c || b == c))))
    ≡ true
unfolding holds_below
set_table = refl

clear_bit_of :
    (v b c : ℕ)
    → v < 256
    → b < 8
    → c < 8
    → bit_of (bit_and v (2 ^ 32 - 1 - 2 ^ b) % 2 ^ 8) c ≡ (bit_of v c && not (b == c))
clear_bit_of v b c hv hb hc =
    same_test_eq _ _
      (holds_below-at 256 _ v (holds_below-at 8 _ c (holds_below-at 8 _ b clear_table hb) hc) hv)

set_bit_of :
    (v b c : ℕ)
    → v < 256
    → b < 8
    → c < 8
    → bit_of (bit_or v (2 ^ b) % 2 ^ 8) c ≡ (bit_of v c || b == c)
set_bit_of v b c hv hb hc =
    same_test_eq _ _
      (holds_below-at 256 _ v (holds_below-at 8 _ c (holds_below-at 8 _ b set_table hb) hc) hv)

write-is_masked :
    (p : Ports) (port w other : ℕ)
    → is_masked (port_write_u8 port w p) other
      ≡ (if mask_port other == port then bit_of (w % 2 ^ 8) (mask_bit other) else is_masked p other)
unfolding is_masked port_write_u8
write-is_masked p port w other = elim (Bool-cases (mask_port other == port)) [
  | inl same ↦ rw same refl
  | inr differs ↦ rw differs refl
]

-- A write that changes the bit of one IRQ by `change`.
change-is_masked :
    (p : Ports) (irq other w : ℕ) (change : Bool → Bool → Bool)
    → irq < 16
    → other < 16
    → ((c : ℕ)
        → c < 8
        → bit_of (w % 2 ^ 8) c ≡ change (bit_of (p (mask_port irq)) c) (mask_bit irq == c))
    → ((b : Bool) → change b false ≡ b)
    → is_masked (port_write_u8 (mask_port irq) w p) other
      ≡ change (is_masked p other) (irq == other)
unfolding is_masked
change-is_masked p irq other w change h k at none_changed =
    let written = write-is_masked p (mask_port irq) w other in
    elim (Bool-cases (mask_port other == mask_port irq)) [
      | inl same ↦
          let port : mask_port other ≡ mask_port irq = (==_iff _ _).0 same in
          let bits : (mask_bit irq == mask_bit other) ≡ (irq == other) =
            ground (arith, same, h, k) in
          let here : (if mask_port other == mask_port irq
                then bit_of (w % 2 ^ 8) (mask_bit other)
                else is_masked p other)
              ≡ bit_of (w % 2 ^ 8) (mask_bit other) =
            rw same refl in
          written
          ∙ here
          ∙ at (mask_bit other) (ground (arith, k))
          ∙ ap (change (bit_of (p (mask_port irq)) (mask_bit other))) bits
          ∙ ap (λ q. change (bit_of (p q) (mask_bit other)) (irq == other)) (sym port)
      | inr differs ↦
          let others : (irq == other) ≡ false = ground (arith, differs) in
          let there : (if mask_port other == mask_port irq
                then bit_of (w % 2 ^ 8) (mask_bit other)
                else is_masked p other)
              ≡ is_masked p other =
            rw differs refl in
          written
          ∙ there
          ∙ sym (ap (change (is_masked p other)) others ∙ none_changed (is_masked p other))
    ]

-- With bytes in both mask registers, irq_set_mask masks an IRQ below 16, irq_clear_mask lets it
-- through, and neither changes another IRQ.
pub irq_set_mask-irq_clear_mask :
    (p : Ports) (irq other : ℕ)
    → IsBytes p
    → irq < 16
    → other < 16
    → (is_masked (irq_set_mask irq p) other ≡ (is_masked p other || irq == other))
      × (is_masked (irq_clear_mask irq p) other ≡ (is_masked p other && not (irq == other)))
unfolding irq_set_mask irq_clear_mask
irq_set_mask-irq_clear_mask p irq other v h k =
    let bit = mask_bit irq in
    let value = p (mask_port irq) in
    let byte : value < 256 = ground (arith, v.first, v.second) in
    let low : bit < 8 = ground (arith, h) in
    (
      change-is_masked p irq other (bit_or value (2 ^ bit)) (λ a b. a || b) h k
          (λ c hc. set_bit_of value bit c byte low hc) (λ b. ground arith),
      change-is_masked p irq other (bit_and value (2 ^ 32 - 1 - 2 ^ bit)) (λ a b. a && not b) h k
          (λ c hc. clear_bit_of value bit c byte low hc) (λ b. ground arith),
    )

first_masks :
    (offset1 offset2 : ℕ) (p : Ports) (irq : ℕ)
    → pic_8259_init offset1 offset2 p (mask_port irq) ≡ (if ltb irq 8 then 0xfc else 0xff)
unfolding pic_8259_init irq_clear_mask port_write_u8
first_masks offset1 offset2 p irq = elim (Bool-cases (ltb irq 8)) [
  | inl first ↦ rw first refl
  | inr second ↦ rw second refl
]

first_table :
    holds_below 16 (λ i. same_test (bit_of (if ltb i 8 then 0xfc else 0xff) (mask_bit i)) (ltb 1 i))
    ≡ true
unfolding holds_below
first_table = refl

-- Only the timer and the keyboard come through at first.
pub pic_8259_init-is_masked :
    (offset1 offset2 : ℕ) (p : Ports) (irq : ℕ)
    → irq < 16
    → is_masked (pic_8259_init offset1 offset2 p) irq ≡ ltb 1 irq
unfolding is_masked
pic_8259_init-is_masked offset1 offset2 p irq h =
    ap (λ v. bit_of v (mask_bit irq)) (first_masks offset1 offset2 p irq)
    ∙ same_test_eq _ _ (holds_below-at 16 _ irq first_table h)
