-- ===== src/Kpm/Tests.antt =====
-- Runs of the allocator on a machine with 4 MiB, and instances of its theorems.
use nulix.Common.{
  ℕ, ◌+◌, ◌≡◌, refl, true, false, Option, none, some, List, [], ◌∷◌, ◌<◌, ◌≤◌, ◌⊎◌, arith, ◌*◌, inr,
}
use nulix.Kpm.Buddy.{
  nblocks, Buddy, put_bitmap, alloc_bit, free_bit, is_allocated, enable_bit, disable_bit,
  is_enabled,
}
use nulix.Kpm.Update.{
  block_size, update_block, update_from, kpm_update_order, update_orders, update_all,
}
use nulix.Kpm.Update.Close.{IsValid}
use nulix.Kpm.Region.Clip.{Fits}
use nulix.Kpm.Region.Enable.{
  Regioned, frame_within, frame_met, kpm_enable-Regioned, kpm_disable-Regioned,
}
use nulix.Kpm.Alloc.Grant.{Outcome, kpm_alloc-Outcome, find_best_fit_order_lem}
use nulix.Kpm.Alloc.Free.{kpm_free-kpm_alloc, Freed, kpm_free-Freed}
use nulix.Kpm.Bitmap.Search.{ffs, ffs_from, ffu_from, bitmap_ffu}
use nulix.Kpm.Update.Tree.{IsTree}
use nulix.Kpm.Update.All.{Rebuilt, update_all-IsTree}
use nulix.Kpm.Init.{
  MmapEntry, kpm_init, fresh_orders, total_orders_size, frames_of_memory, fresh_buddy,
}
use nulix.Kpm.Init.Regions.{MapFits, ImageFits, Initialised, kpm_init-Initialised}
use nulix.Kpm.Trace.{alloc, start, later, Books, Reach-Books}
use nulix.Kpm.Init.Fresh.{fresh_buddy-IsValid}
use nulix.Kpm.Align.{align_down, align_next, align_next_force, is_aligned, nbytes_from_nbits}
use nulix.Kpm.Bitmap.{byte_at, set_bit, clear_bit, is_set}
use nulix.Kpm.Region.{
  enable_frames, disable_frames, clip, kpm_enable, kpm_disable, kpm_isenabled, kpm_isalloc,
}
use nulix.Kpm.Alloc.{
  Chunk, fit_from, find_best_fit_order, alloc_frames, take_block, alloc_from, kpm_alloc,
  free_frames, kpm_free,
}

-- Frames 3 to 7 free.
abbrev five_frames : Buddy
five_frames = kpm_enable 0x3000 0x5000 (fresh_buddy 4096)

-- Everything that a run of the allocator goes through.
kpm_run : ℕ
unfolding align_down align_next align_next_force is_aligned nbytes_from_nbits byte_at set_bit
    clear_bit is_set ffs ffs_from ffu_from bitmap_ffu put_bitmap alloc_bit free_bit is_allocated
    enable_bit disable_bit is_enabled update_block update_from kpm_update_order update_orders
    update_all enable_frames disable_frames clip kpm_enable kpm_disable fit_from find_best_fit_order
    alloc_frames take_block alloc_from kpm_alloc free_frames kpm_free kpm_isenabled kpm_isalloc
    fresh_orders total_orders_size frames_of_memory fresh_buddy
kpm_run = 0

-- What `kpm_alloc` returns there for 8192 bytes: the block of order 1 at frame 4.
abbrev granted : Option (Chunk × Buddy)
granted = kpm_alloc 0x2000 five_frames

abbrev or_nothing : Option (Chunk × Buddy) → Chunk × Buddy
or_nothing none = (record { addr = 0; size = 0 }, five_frames)
or_nothing (some r) = r

abbrev two_pages : Chunk × Buddy
two_pages = or_nothing granted

granted_two_pages : kpm_alloc 0x2000 five_frames ≡ some two_pages
unfolding kpm_run
granted_two_pages = refl

two_pages_chunk : two_pages.0 ≡ record { addr = 0x4000; size = 0x2000 }
unfolding kpm_run
two_pages_chunk = refl

query_frames :
    (kpm_isenabled five_frames 0x3fff ≡ true)
    × (kpm_isalloc five_frames 0x3fff ≡ false)
    × (kpm_isalloc two_pages.1 0x5000 ≡ true)
    × (kpm_isenabled five_frames 0x8000 ≡ false)
unfolding kpm_run
query_frames = (refl, refl, refl, refl)

five_frames_fit : Fits (fresh_buddy 4096).nframes 0x3000 0x5000
unfolding kpm_run
five_frames_fit = omega arith

two_pages_inside : 0x4000 + 0x1001 ≤ two_pages.1.nframes * 4096
unfolding kpm_run
two_pages_inside = omega arith

five_frames_inside : 0x3000 + 0x1000 ≤ five_frames.nframes * 4096
unfolding kpm_run
five_frames_inside = omega arith

kpm_enable-Regioned_example :
    Regioned (fresh_buddy 4096) five_frames (frame_within 0x3000 0x5000) false true
kpm_enable-Regioned_example =
    kpm_enable-Regioned (fresh_buddy 4096) 0x3000 0x5000 (fresh_buddy-IsValid 4096) five_frames_fit

five_frames-IsValid : IsValid five_frames
five_frames-IsValid =
    (kpm_enable-Regioned (fresh_buddy 4096) 0x3000 0x5000 (fresh_buddy-IsValid 4096)
      five_frames_fit).valid

two_pages-IsValid : IsValid two_pages.1
two_pages-IsValid =
    (rw granted_two_pages at (kpm_alloc-Outcome five_frames 0x2000 five_frames-IsValid)).taken.valid

kpm_disable-Regioned_example :
    Regioned
      (fresh_buddy 4096)
      (kpm_disable 0x3000 0x5000 (fresh_buddy 4096))
      (frame_met 0x3000 0x5000)
      true
      false
kpm_disable-Regioned_example =
    kpm_disable-Regioned (fresh_buddy 4096) 0x3000 0x5000 (fresh_buddy-IsValid 4096) five_frames_fit

kpm_alloc-Outcome_example :
    Outcome five_frames (find_best_fit_order 0x2000 + 1) (kpm_alloc 0x2000 five_frames)
kpm_alloc-Outcome_example = kpm_alloc-Outcome five_frames 0x2000 five_frames-IsValid

find_best_fit_order_lem_example :
    (find_best_fit_order 0x2001 < 11)
    × ((0x2001 ≤ block_size (find_best_fit_order 0x2001)) ⊎ (find_best_fit_order 0x2001 ≡ 10))
    × ((m : ℕ) → m < find_best_fit_order 0x2001 → block_size m < 0x2001)
find_best_fit_order_lem_example = find_best_fit_order_lem 0x2001 (omega arith)

kpm_free-kpm_alloc_example :
    IsValid (kpm_free two_pages.0 two_pages.1)
    × ((n j : ℕ)
        → n < 11
        → j < nblocks five_frames.nframes n
        → is_allocated (kpm_free two_pages.0 two_pages.1) n j ≡ is_allocated five_frames n j)
    × ((j : ℕ) → is_enabled (kpm_free two_pages.0 two_pages.1) j ≡ is_enabled five_frames j)
kpm_free-kpm_alloc_example =
    kpm_free-kpm_alloc five_frames 0x2000 two_pages.0 two_pages.1 five_frames-IsValid
      granted_two_pages

Reach-Books_example : Books five_frames (record { buddy = two_pages.1; live = two_pages.0 ∷ [] })
Reach-Books_example =
    Reach-Books five_frames-IsValid
      (later start (alloc 0x2000 two_pages.0 two_pages.1 granted_two_pages))

kpm_free-Freed_example :
    Freed two_pages.1
      (record { addr = 0x4000; size = 0x1001 })
      (kpm_free (record { addr = 0x4000; size = 0x1001 }) two_pages.1)
kpm_free-Freed_example =
    kpm_free-Freed two_pages.1 (record { addr = 0x4000; size = 0x1001 }) two_pages-IsValid refl
      two_pages_inside

update_all-IsTree_example :
    Rebuilt five_frames (update_all 0x3000 0x1000 five_frames)
    × IsTree (update_all 0x3000 0x1000 five_frames)
update_all-IsTree_example =
    update_all-IsTree 0x3000 0x1000 five_frames five_frames-IsValid.sized five_frames_inside
      (λ m j mpos hm hj c. five_frames-IsValid.tree.at m j mpos hm hj)

-- 8 MiB, of which the 7 above the first are available, and a kernel of 1 MiB.
abbrev memory_map : List MmapEntry
memory_map =
    record { size = 20; addr = 0x100000; len = 0x700000; type = 1 }
    ∷ record { size = 0; addr = 0; len = 0; type = 0 }
    ∷ []

entries_fit : MapFits (frames_of_memory 8192) memory_map
unfolding kpm_run
entries_fit = (λ e. inr (omega arith), (λ e. absurd (omega arith), tt))

image_fits : ImageFits (frames_of_memory 8192) 0x100000 0xC0200000 (fresh_buddy 8192).size
unfolding kpm_run
image_fits = omega arith

kpm_init-Initialised_example :
    (b : Buddy) × (kpm_init 0x100000 0xC0200000 memory_map 2 8192 ≡ some b)
    × Initialised 0x100000 0xC0200000 8192 memory_map b
kpm_init-Initialised_example =
    kpm_init-Initialised 0x100000 0xC0200000 memory_map 2 8192 refl entries_fit image_fits
