-- ===== src/Kpm/Align.antt =====
-- include/kernel/kpm.h: PAGE_SIZE and the alignment macros, on 32-bit words.
use nulix.Common.{
  ℕ, ◌+◌, ◌-◌, ◌*◌, ◌/◌, ◌%◌, ◌^◌, ◌<◌, ◌≡◌, refl, Bool, true, arith, bit_and, bit_xor, ◌==◌,
  ==_iff, holds_below, holds_below-at, bit_and_low, bit_and_high,
}
use native.Mathlib.Nat.{one-le-pow, mod-eq_of_lt, div-lt_iff_lt-mul, add-div_right}

abbrev pub page_size : ℕ
page_size = 4096

-- a cast to `uint32_t`
abbrev pub u32 : ℕ → ℕ
u32 n = n % 2 ^ 32

-- `0xffffffff ^ (align - 1)`; `align` is a power of two, so the subtraction does not wrap.
abbrev pub mask : ℕ → ℕ
mask align = bit_xor 0xffffffff (align - 1)

unfoldable pub align_down : ℕ → ℕ → ℕ
align_down size align = bit_and (u32 size) (mask align)

unfoldable pub align_next : ℕ → ℕ → ℕ
align_next size align = bit_and (u32 (u32 size + (align - 1))) (mask align)

unfoldable pub align_next_force : ℕ → ℕ → ℕ
align_next_force size align = bit_and (u32 (u32 size + align)) (mask align)

unfoldable pub is_aligned : ℕ → ℕ → Bool
is_aligned size align = bit_and (u32 size) (align - 1) == 0

-- `KPM_NBYTES_FROM_NBITS`
unfoldable pub nbytes_from_nbits : ℕ → ℕ
unfolding align_next
nbytes_from_nbits n = align_next n 8 / 8

mask_table : holds_below 33 (λ k. mask (2 ^ k) == (2 ^ (32 - k) - 1) * 2 ^ k) ≡ true
unfolding holds_below
mask_table = refl

mask_lem : (k : ℕ) → k < 33 → mask (2 ^ k) ≡ (2 ^ (32 - k) - 1) * 2 ^ k
mask_lem k h = (==_iff _ _).0 (holds_below-at 33 _ k mask_table h)

pow_table : holds_below 33 (λ k. 2 ^ (32 - k) * 2 ^ k == 2 ^ 32) ≡ true
unfolding holds_below
pow_table = refl

-- The mask clears the low `k` bits of a word.
mask_clears : (k x : ℕ) → k < 33 → x < 2 ^ 32 → bit_and x (mask (2 ^ k)) ≡ x / 2 ^ k * 2 ^ k
mask_clears k x h hx = rw (mask_lem k h, bit_and_high k (32 - k) x) (rw (mod-eq_of_lt small))
  where
    whole : 2 ^ (32 - k) * 2 ^ k ≡ 2 ^ 32
    whole = (==_iff _ _).0 (holds_below-at 33 _ k pow_table h)

    small : x / 2 ^ k < 2 ^ (32 - k)
    small = (div-lt_iff_lt-mul (one-le-pow k 2 (omega arith))).1 (omega (arith, whole))

pub align_down_lem : (k x : ℕ) → k < 33 → x < 2 ^ 32 → align_down x (2 ^ k) ≡ x / 2 ^ k * 2 ^ k
unfolding align_down
align_down_lem k x h hx = rw (mod-eq_of_lt hx) (mask_clears k x h hx)

pub align_next_lem :
    (k x : ℕ)
    → k < 33
    → x + (2 ^ k - 1) < 2 ^ 32
    → align_next x (2 ^ k) ≡ (x + (2 ^ k - 1)) / 2 ^ k * 2 ^ k
unfolding align_next
align_next_lem k x h hx =
    let small : x < 2 ^ 32 = omega arith in
    rw (mod-eq_of_lt small, mod-eq_of_lt hx) (mask_clears k (x + (2 ^ k - 1)) h hx)

-- The next multiple of `2 ^ k` above `x`, also where `x` is a multiple itself.
pub align_next_force_lem :
    (k x : ℕ) → k < 33 → x + 2 ^ k < 2 ^ 32 → align_next_force x (2 ^ k) ≡ (x / 2 ^ k + 1) * 2 ^ k
unfolding align_next_force
align_next_force_lem k x h hx =
    let small : x < 2 ^ 32 = omega arith in
    rw (mod-eq_of_lt small, mod-eq_of_lt hx, ← add-div_right x (one-le-pow k 2 (omega arith)))
      (mask_clears k (x + 2 ^ k) h hx)

pub is_aligned_lem : (k x : ℕ) → x < 2 ^ 32 → is_aligned x (2 ^ k) ≡ (x % 2 ^ k == 0)
unfolding is_aligned
is_aligned_lem k x hx = rw (mod-eq_of_lt hx, bit_and_low k x)

pub nbytes_from_nbits_lem : (n : ℕ) → n < 2 ^ 31 → nbytes_from_nbits n ≡ (n + 7) / 8
unfolding nbytes_from_nbits
nbytes_from_nbits_lem n h = omega (arith, align_next_lem 3 n (omega arith) (omega arith))
