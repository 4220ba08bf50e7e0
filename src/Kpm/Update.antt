-- ===== src/Kpm/Update.antt =====
-- kernel/memory/kpm.c: `kpm_update_order`, and the loop over the orders that every
-- operation ends with.
pub mod Order
pub mod Range
pub mod Tree
pub mod All
pub mod Close
use nulix.Common.{ℕ, zero, suc, ◌+◌, ◌-◌, ◌*◌, ◌/◌, ◌^◌, Bool, ◌||◌, ltb, if◌then◌else◌}
use nulix.Kpm.Align.{page_size, u32, align_next_force}
use nulix.Kpm.Buddy.{Buddy, norders, alloc_bit, free_bit, is_allocated}

-- `PAGE_SIZE * (1 << n)`
abbrev pub block_size : ℕ → ℕ
block_size n = page_size * 2 ^ n

-- The body of the loop, at one block: allocated exactly if one of its two halves is.
unfoldable pub update_block : ℕ → ℕ → Buddy → Buddy
update_block n index b =
    let lchild_index = index * 2 in
    let rchild_index = lchild_index + 1 in
    if is_allocated b (n - 1) lchild_index || is_allocated b (n - 1) rchild_index
    then alloc_bit b n index
    else free_bit b n index

-- `while (base < end)`, on fuel.
unfoldable pub update_from : ℕ → ℕ → ℕ → ℕ → Buddy → Buddy
update_from zero n base end b = b
update_from (suc fuel) n base end b =
    let index = base / 2 ^ n / page_size in
    let rest =
      update_from fuel n (align_next_force base (block_size n)) end (update_block n index b) in
    if ltb base end then rest else b

-- Each round moves `base` up, so `limit` rounds are enough.
unfoldable pub kpm_update_order : ℕ → ℕ → ℕ → Buddy → Buddy
kpm_update_order n base limit b = update_from limit n base (u32 (base + limit)) b

-- `for (n = ..; n < KPM_NORDERS; n++) kpm_update_order(n, base, limit)`, with `rounds` orders left.
unfoldable pub update_orders : ℕ → ℕ → ℕ → ℕ → Buddy → Buddy
update_orders zero n base limit b = b
update_orders (suc rounds) n base limit b =
    update_orders rounds (n + 1) base limit (kpm_update_order n base limit b)

unfoldable pub update_all : ℕ → ℕ → Buddy → Buddy
update_all base limit b = update_orders (norders - 1) 1 base limit b
