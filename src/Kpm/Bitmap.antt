-- ===== src/Kpm/Bitmap.antt =====
-- kernel/memory/kpm.c, include/kernel/kpm.h: the bit arrays behind KPM_ALLOC, KPM_FREE,
-- KPM_GET and their twins for `enabled_frames`. A bitmap is its bytes.
pub mod Search
use nulix.Common.{
  zero-bit_and, get_or-replicate_self, replicate, get_or-replicate, ℕ, ◌-◌, ◌/◌, ◌%◌, ◌^◌, ◌<◌, ◌≡◌,
  refl, Bool, true, false, not, List, arith, bit_and, bit_or, ◌==◌, ==_iff, if◌then◌else◌,
  Bool-cases, holds_below, holds_below-at, length, get_or, set, inl, inr, length-set,
  get_or-set_self, get_or-set_ne,
}

-- `bitmap_t` is a `uint8_t`: what is loaded from a cell is a byte.
unfoldable pub byte_at : List ℕ → ℕ → ℕ
byte_at bitmap i = get_or bitmap i 0 % 2 ^ 8

-- `bitmap[index / 8] |= 1 << index % 8`
unfoldable pub set_bit : List ℕ → ℕ → List ℕ
set_bit bitmap index =
    set bitmap (index / 8) (bit_or (byte_at bitmap (index / 8)) (2 ^ (index % 8)) % 2 ^ 8)

-- `bitmap[index / 8] &= ~(1 << index % 8)`: the low byte of the complement is `0xff - 2 ^ k`.
unfoldable pub clear_bit : List ℕ → ℕ → List ℕ
clear_bit bitmap index =
    set bitmap (index / 8) (bit_and (byte_at bitmap (index / 8)) (0xff - 2 ^ (index % 8)) % 2 ^ 8)

-- `(bitmap[index / 8] & 1 << index % 8) != 0`
unfoldable pub is_set : List ℕ → ℕ → Bool
is_set bitmap index = not (bit_and (byte_at bitmap (index / 8)) (2 ^ (index % 8)) == 0)

pub length-set_bit : (bm : List ℕ) (i : ℕ) → length (set_bit bm i) ≡ length bm
unfolding set_bit
length-set_bit bm i = length-set bm (i / 8) _

pub length-clear_bit : (bm : List ℕ) (i : ℕ) → length (clear_bit bm i) ≡ length bm
unfolding clear_bit
length-clear_bit bm i = length-set bm (i / 8) _

-- One byte and one mask: every case by evaluation.
abbrev bit_of : ℕ → ℕ → Bool
bit_of b k = not (bit_and b (2 ^ k) == 0)

abbrev same : Bool → Bool → Bool
same true b = b
same false b = not b

same_sound : (a b : Bool) → same a b ≡ true → a ≡ b
same_sound a b h = ground arith

or_table :
    holds_below 8 (λ k. holds_below 8 (λ j. holds_below 256 (λ b.
      same (bit_of (bit_or b (2 ^ k) % 2 ^ 8 % 2 ^ 8) j) (if k == j then true else bit_of b j))))
    ≡ true
unfolding holds_below
or_table = refl

and_table :
    holds_below 8 (λ k. holds_below 8 (λ j. holds_below 256 (λ b.
      same
        (bit_of (bit_and b (0xff - 2 ^ k) % 2 ^ 8 % 2 ^ 8) j)
        (if k == j then false else bit_of b j))))
    ≡ true
unfolding holds_below
and_table = refl

byte_lt : (bm : List ℕ) (i : ℕ) → byte_at bm i < 256
unfolding byte_at
byte_lt bm i = omega arith

or_byte :
    (k j b : ℕ)
    → k < 8
    → j < 8
    → b < 256
    → bit_of (bit_or b (2 ^ k) % 2 ^ 8 % 2 ^ 8) j ≡ (if k == j then true else bit_of b j)
or_byte k j b hk hj hb =
    same_sound _ _
      (holds_below-at 256 _ b (holds_below-at 8 _ j (holds_below-at 8 _ k or_table hk) hj) hb)

and_byte :
    (k j b : ℕ)
    → k < 8
    → j < 8
    → b < 256
    → bit_of (bit_and b (0xff - 2 ^ k) % 2 ^ 8 % 2 ^ 8) j ≡ (if k == j then false else bit_of b j)
and_byte k j b hk hj hb =
    same_sound _ _
      (holds_below-at 256 _ b (holds_below-at 8 _ j (holds_below-at 8 _ k and_table hk) hj) hb)

byte_at-set :
    (bm : List ℕ) (i j v : ℕ)
    → i < length bm
    → byte_at (set bm i v) j ≡ (if i == j then v % 2 ^ 8 else byte_at bm j)
unfolding byte_at
byte_at-set bm i j v h = elim (Bool-cases (i == j)) [
  | inl e ↦ rw (e, ← (==_iff i j).0 e, get_or-set_self bm i v 0 h)
  | inr ne ↦ rw (ne, get_or-set_ne bm i j v 0 (ground arith))
]

-- A bitmap after `|= 1 << k` reads set at that index, and as before at the others.
pub is_set-set_bit :
    (bm : List ℕ) (i j : ℕ)
    → i / 8 < length bm
    → is_set (set_bit bm i) j ≡ (if i == j then true else is_set bm j)
unfolding is_set set_bit
is_set-set_bit bm i j h = ground (
  arith,
  byte_at-set bm (i / 8) (j / 8) (bit_or (byte_at bm (i / 8)) (2 ^ (i % 8)) % 2 ^ 8) h,
  or_byte (i % 8) (j % 8) (byte_at bm (i / 8)),
  byte_lt bm (i / 8),
)

-- A bitmap after `&= ~(1 << k)` reads clear at that index, and as before at the others.
pub is_set-clear_bit :
    (bm : List ℕ) (i j : ℕ)
    → i / 8 < length bm
    → is_set (clear_bit bm i) j ≡ (if i == j then false else is_set bm j)
unfolding is_set clear_bit
is_set-clear_bit bm i j h = ground (
  arith,
  byte_at-set bm (i / 8) (j / 8) (bit_and (byte_at bm (i / 8)) (0xff - 2 ^ (i % 8)) % 2 ^ 8) h,
  and_byte (i % 8) (j % 8) (byte_at bm (i / 8)),
  byte_lt bm (i / 8),
)

full_table : holds_below 8 (λ k. bit_of 0xff k) ≡ true
unfolding holds_below
full_table = refl

-- Every bit of a bitmap filled with 0xff reads set.
pub is_set-replicate : (k j : ℕ) → j / 8 < k → is_set (replicate k 0xff) j ≡ true
unfolding is_set byte_at
is_set-replicate k j h =
    rw (get_or-replicate {A = ℕ} k (j / 8) 0xff 0 h)
      (holds_below-at 8 _ (j % 8) full_table (omega arith))

-- Every bit of a bitmap filled with 0 reads clear, past its end too.
pub is_set-replicate_zero : (k j : ℕ) → is_set (replicate k 0) j ≡ false
unfolding is_set byte_at
is_set-replicate_zero k j = rw get_or-replicate_self (rw zero-bit_and refl)
