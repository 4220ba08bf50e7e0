-- ===== src/Kpm/Bitmap/Search.antt =====
-- kernel/memory/kpm.c: `bitmap_ffu`, the search for the first bit that is clear.
use nulix.Common.{
  ℕ, zero, suc, ◌+◌, ◌-◌, ◌*◌, ◌/◌, ◌%◌, ◌^◌, ◌≤◌, ◌<◌, ◌≡◌, refl, Bool, true, false, not, ◌&&◌,
  ◌||◌, List, arith, bit_and, ◌==◌, ltb, if◌then◌else◌, Bool-cases, holds_below, holds_below-at,
  inl, inr, Option, none, some, dec_lt,
}
use mathlib.Core.Path.{subst}
use nulix.Kpm.Bitmap.{byte_at, is_set, byte_lt}

-- `__builtin_ffs` of a byte: one more than the index of its lowest set bit, 0 if there is none.
unfoldable pub ffs_from : ℕ → ℕ → ℕ → ℕ
ffs_from zero k cur = 0
ffs_from (suc fuel) k cur =
    let rest = ffs_from fuel (k + 1) cur in if bit_and cur (2 ^ k) == 0 then rest else k + 1

unfoldable pub ffs : ℕ → ℕ
ffs cur = ffs_from 8 0 cur

-- The loop of `bitmap_ffu` from byte `i` on, with `rounds` bytes left; -1 is `none`.
-- `~bitmap[i]`, stored in a `bitmap_t`, is `0xff - bitmap[i]`.
unfoldable pub ffu_from : List ℕ → ℕ → ℕ → Option ℕ
ffu_from bitmap zero i = none
ffu_from bitmap (suc rounds) i =
    let rest = ffu_from bitmap rounds (i + 1) in
    let ffu = ffs (0xff - byte_at bitmap i) in if ffu == 0 then rest else some (ffu + i * 8 - 1)

unfoldable pub bitmap_ffu : List ℕ → ℕ → Option ℕ
bitmap_ffu bitmap size = ffu_from bitmap size 0

abbrev clear_in : ℕ → ℕ → Bool
clear_in b k = bit_and b (2 ^ k) == 0

-- What `ffs` says of a byte and of the bits of its complement, by evaluation.
ffs_table :
    holds_below 256 (λ b.
      (ffs (0xff - b) == 0) || (ltb (ffs (0xff - b) - 1) 8 && clear_in b (ffs (0xff - b) - 1)))
    ≡ true
unfolding holds_below ffs ffs_from
ffs_table = refl

ffs_low_table :
    holds_below 8 (λ k.
      holds_below 256
        (λ b. not (clear_in b k) || (ltb 0 (ffs (0xff - b)) && ltb (ffs (0xff - b)) (k + 2))))
    ≡ true
unfolding holds_below ffs ffs_from
ffs_low_table = refl

-- A nonzero `ffs` of the complement names a clear bit of the byte.
ffs_found :
    (b : ℕ)
    → b < 256
    → (ffs (0xff - b) == 0) ≡ false
    → (ffs (0xff - b) - 1 < 8) × (clear_in b (ffs (0xff - b) - 1) ≡ true)
ffs_found b h e = ground (arith, holds_below-at 256 _ b ffs_table h)

-- It is the lowest one: a clear bit `k` makes `ffs` nonzero, and at most `k + 1`.
ffs_low :
    (b k : ℕ)
    → b < 256
    → k < 8
    → clear_in b k ≡ true
    → (0 < ffs (0xff - b)) × (ffs (0xff - b) ≤ k + 1)
ffs_low b k h hk e =
    ground (arith, holds_below-at 256 _ b (holds_below-at 8 _ k ffs_low_table hk) h)

abbrev AllSet : List ℕ → ℕ → ℕ → Type 0
AllSet bm lo hi = (j : ℕ) → lo ≤ j → j < hi → is_set bm j ≡ true

-- What the search says of the bits from `lo` to `hi`.
abbrev pub Found : List ℕ → ℕ → ℕ → Option ℕ → Type 0
Found bm lo hi none = AllSet bm lo hi
Found bm lo hi (some i) = (lo ≤ i) × (i < hi) × (is_set bm i ≡ false) × AllSet bm lo i

byte_set :
    (bm : List ℕ) (i j : ℕ)
    → (ffs (0xff - byte_at bm i) == 0) ≡ true
    → i * 8 ≤ j
    → j < i * 8 + 8
    → is_set bm j ≡ true
unfolding is_set
byte_set bm i j e lo hi =
    let d : j / 8 ≡ i = omega arith in
    ground (arith, d, ffs_low (byte_at bm (j / 8)) (j % 8), byte_lt bm i)

AllSet-join : (bm : List ℕ) (lo mid hi : ℕ) → AllSet bm lo mid → AllSet bm mid hi → AllSet bm lo hi
AllSet-join bm lo mid hi f g j p q = elim (dec_lt j mid) [
  | yes below ↦ f j p below
  | no above ↦ g j (omega arith) q
]

Found-join :
    (bm : List ℕ) (lo mid hi : ℕ) (o : Option ℕ)
    → lo ≤ mid
    → AllSet bm lo mid
    → Found bm mid hi o
    → Found bm lo hi o
Found-join bm lo mid hi none h f g = AllSet-join bm lo mid hi f g
Found-join bm lo mid hi (some i) h f g = (omega arith, g.1, g.2, AllSet-join bm lo mid i f g.3)

-- The byte at `i` ends the search.
Found-here :
    (bm : List ℕ) (i hi n : ℕ)
    → n ≡ ffs (0xff - byte_at bm i)
    → (n == 0) ≡ false
    → i * 8 + 8 ≤ hi
    → Found bm (i * 8) hi (some (n + i * 8 - 1))
unfolding is_set
Found-here bm i hi n e ne h = (
  omega (arith, found.0, positive),
  omega (arith, found.0, positive),
  rw (slot, place) (rw found.1),
  λ j lo below. earlier j lo below,
)
  where
    positive : 0 < n
    positive = ground arith

    found : (n - 1 < 8) × (clear_in (byte_at bm i) (n - 1) ≡ true)
    found = ground (arith, ffs_found (byte_at bm i), byte_lt bm i)

    slot : (n + i * 8 - 1) / 8 ≡ i
    slot = omega (arith, found.0, positive)

    place : (n + i * 8 - 1) % 8 ≡ n - 1
    place = omega (arith, found.0, positive)

    earlier : (j : ℕ) → i * 8 ≤ j → j < n + i * 8 - 1 → is_set bm j ≡ true
    earlier j lo below =
        let d : j / 8 ≡ i = omega (arith, found.0) in
        ground (arith, d, found.0, ffs_low (byte_at bm (j / 8)) (j % 8), byte_lt bm i)

ffu_from-Found :
    (bm : List ℕ) (rounds i : ℕ) → Found bm (i * 8) ((i + rounds) * 8) (ffu_from bm rounds i)
unfolding ffu_from
ffu_from-Found bm zero i = λ j lo hi. absurd (omega arith)
ffu_from-Found bm (suc rounds) i = elim (Bool-cases (ffs (0xff - byte_at bm i) == 0)) [
  | inl full ↦
      let e : (i + suc rounds) * 8 ≡ (i + 1 + rounds) * 8 = omega arith in
      rw (full, e)
        (Found-join bm (i * 8) ((i + 1) * 8) ((i + 1 + rounds) * 8) (ffu_from bm rounds (i + 1))
          (omega arith) (λ j lo hi. byte_set bm i j full lo (omega arith))
          (ffu_from-Found bm rounds (i + 1)))
  | inr here ↦ rw here (Found-here bm i ((i + suc rounds) * 8) _ refl here (omega arith))
]

pub bitmap_ffu-Found : (bm : List ℕ) (size : ℕ) → Found bm 0 (size * 8) (bitmap_ffu bm size)
unfolding bitmap_ffu
bitmap_ffu-Found bm size =
    let e : 0 + size ≡ size = omega arith in
    subst (λ n. Found bm 0 (n * 8) (ffu_from bm size 0)) e (ffu_from-Found bm size 0)
