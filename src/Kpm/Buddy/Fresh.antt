-- ===== src/Kpm/Buddy/Fresh.antt =====
-- A bitmap that `memset` fills, and an allocator whose every bit is set.
use nulix.Common.{ℕ, zero, suc, ◌/◌, ◌≤◌, ◌<◌, ◌≡◌, refl, true, false, arith, ap, replicate}
use nulix.Kpm.Bitmap.{is_set-replicate, is_set-replicate_zero}
use nulix.Kpm.Buddy.{Buddy, order_at, is_allocated, is_enabled, nblocks}

pub nblocks-shift : (blocks n : ℕ) → nblocks (blocks / 2) n ≡ nblocks blocks (suc n)
unfolding nblocks
nblocks-shift blocks zero = refl
nblocks-shift blocks (suc n) = ap (λ (t : ℕ). t / 2) (nblocks-shift blocks n)

pub nblocks-le : (blocks n : ℕ) → nblocks blocks n ≤ blocks
unfolding nblocks
nblocks-le blocks zero = omega arith
nblocks-le blocks (suc n) = omega (arith, nblocks-le blocks n)

pub full_block :
    (b : Buddy) (n j k : ℕ)
    → (order_at b n).bitmap ≡ replicate k 0xff
    → j / 8 < k
    → is_allocated b n j ≡ true
unfolding is_allocated
full_block b n j k e h = rw e (is_set-replicate k j h)

pub disabled_frame :
    (b : Buddy) (j k : ℕ) → b.enabled_frames ≡ replicate k 0 → is_enabled b j ≡ false
unfolding is_enabled
disabled_frame b j k e = rw e (is_set-replicate_zero k j)
