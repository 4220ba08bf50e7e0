-- ===== src/Kpm/Buddy.antt =====
-- include/kernel/kpm.h: `struct buddy` and the macros that read and write its bitmaps.
pub mod Sized
pub mod Frames
pub mod Fresh
use nulix.Common.{ℕ, zero, suc, ◌/◌, Bool, List, [], get_or, set}
use nulix.Kpm.Bitmap.{set_bit, clear_bit, is_set}

abbrev pub norders : ℕ
norders = 11

-- `struct order`: the pointer is the bytes that it points to.
pub record Order : Type 0 where
  pub bitmap : List ℕ
  pub size : ℕ

-- `buddy_t`; each bitmap is a list of its own, where the code lays them out one after another.
pub record Buddy : Type 0 where
  pub nframes : ℕ
  pub size : ℕ
  pub enabled_frames : List ℕ
  pub orders : List Order

abbrev pub no_order : Order
no_order = record { bitmap = []; size = 0 }

-- `buddy->orders[n]`
abbrev pub order_at : Buddy → ℕ → Order
order_at b n = get_or b.orders n no_order

-- `buddy->orders[n].bitmap = bitmap`
unfoldable pub put_bitmap : Buddy → ℕ → List ℕ → Buddy
put_bitmap b n bitmap = record b {
  orders = set b.orders n (record (order_at b n) { bitmap = bitmap });
}

-- KPM_ALLOC, KPM_FREE and KPM_IS_ALLOCATED
unfoldable pub alloc_bit : Buddy → ℕ → ℕ → Buddy
unfolding put_bitmap
alloc_bit b n index = put_bitmap b n (set_bit (order_at b n).bitmap index)

unfoldable pub free_bit : Buddy → ℕ → ℕ → Buddy
unfolding put_bitmap
free_bit b n index = put_bitmap b n (clear_bit (order_at b n).bitmap index)

unfoldable pub is_allocated : Buddy → ℕ → ℕ → Bool
is_allocated b n index = is_set (order_at b n).bitmap index

-- KPM_ENABLE, KPM_DISABLE and KPM_IS_ENABLED
unfoldable pub enable_bit : Buddy → ℕ → Buddy
enable_bit b index = record b { enabled_frames = set_bit b.enabled_frames index }

unfoldable pub disable_bit : Buddy → ℕ → Buddy
disable_bit b index = record b { enabled_frames = clear_bit b.enabled_frames index }

unfoldable pub is_enabled : Buddy → ℕ → Bool
is_enabled b index = is_set b.enabled_frames index

-- The number of blocks of order `n`: the loop variable `nblocks` of `kpm_init`.
unfoldable pub nblocks : ℕ → ℕ → ℕ
nblocks nframes zero = nframes
nblocks nframes (suc n) = nblocks nframes n / 2
