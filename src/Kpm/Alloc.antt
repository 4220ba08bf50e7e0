-- ===== src/Kpm/Alloc.antt =====
-- kernel/memory/kpm.c: `find_best_fit_order`, `kpm_alloc` and `kpm_free`.
pub mod Blocks
pub mod Take
pub mod Grant
pub mod Free
use nulix.Common.{
  ℕ, zero, suc, ◌+◌, ◌-◌, ◌*◌, ◌/◌, ◌%◌, ◌^◌, Bool, not, leb, if◌then◌else◌, Option, none, some,
}
use nulix.Kpm.Align.{page_size, u32, align_next, is_aligned}
use nulix.Kpm.Bitmap.Search.{bitmap_ffu}
use nulix.Kpm.Buddy.{Buddy, norders, order_at, alloc_bit, free_bit, is_enabled}
use nulix.Kpm.Update.{update_all}

-- `kpm_chunk_t`
pub record Chunk : Type 0 where
  pub addr : ℕ
  pub size : ℕ

-- The loop of `find_best_fit_order` from order `n` on, with `rounds` orders left.
unfoldable pub fit_from : ℕ → ℕ → ℕ → ℕ
fit_from zero n nframes = norders - 1
fit_from (suc rounds) n nframes =
    let rest = fit_from rounds (n + 1) nframes in if leb nframes (2 ^ n) then n else rest

unfoldable pub find_best_fit_order : ℕ → ℕ
find_best_fit_order size = fit_from norders 0 (align_next size page_size / page_size)

-- `for (j = 0; j < frames_per_block; j++) KPM_ALLOC(0, base_index + j)`
unfoldable pub alloc_frames : ℕ → ℕ → Buddy → Buddy
alloc_frames zero index b = b
alloc_frames (suc rounds) index b = alloc_frames rounds (index + 1) (alloc_bit b 0 index)

-- What follows a hit at block `i` of order `o`. `i * PAGE_SIZE` is a product of ints, undefined in C from
-- 2 GiB on; it wraps here, as the instruction for it does.
unfoldable pub take_block : ℕ → ℕ → Buddy → Chunk × Buddy
take_block o i b =
    let frames_per_block = 2 ^ o in
    let base_index = i * frames_per_block in
    let chunk : Chunk = record {
      addr = u32 (i * page_size * frames_per_block);
      size = page_size * frames_per_block;
    } in
    (chunk, update_all chunk.addr chunk.size (alloc_frames frames_per_block base_index b))

-- `for (o = best_fit_order; o >= 0; o--)`, with `rounds` orders left, the next one `rounds - 1`.
-- `none` is the return value -1, which leaves `buddy` and the chunk alone.
unfoldable pub alloc_from : ℕ → Buddy → Option (Chunk × Buddy)
alloc_from zero b = none
alloc_from (suc o) b =
    let lower = alloc_from o b in
    elim (bitmap_ffu (order_at b o).bitmap (order_at b o).size) [
      | none ↦ lower
      | some i ↦ some (take_block o i b)
    ]

unfoldable pub kpm_alloc : ℕ → Buddy → Option (Chunk × Buddy)
kpm_alloc size b = alloc_from (find_best_fit_order size + 1) b

-- `if (KPM_IS_ENABLED(i)) KPM_FREE(0, i)` for each frame of the chunk.
unfoldable pub free_frames : ℕ → ℕ → Buddy → Buddy
free_frames zero i b = b
free_frames (suc rounds) i b =
    free_frames rounds (i + 1) (if is_enabled b i then free_bit b 0 i else b)

unfoldable pub kpm_free : Chunk → Buddy → Buddy
kpm_free chunk b =
    if not (is_aligned chunk.addr page_size)
    then b
    else let nframes = align_next chunk.size page_size / page_size in
      update_all chunk.addr chunk.size (free_frames nframes (chunk.addr / page_size) b)
