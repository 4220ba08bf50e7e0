-- ===== src/Kpm/Region.antt =====
-- kernel/memory/kpm.c: `kpm_enable`, `kpm_disable`, `kpm_isenabled`, `kpm_isalloc`.
pub mod Frames
pub mod Clip
pub mod Enable
use nulix.Common.{ℕ, zero, suc, ◌+◌, ◌-◌, ◌*◌, ◌/◌, ◌%◌, ◌^◌, Bool, not, ltb, if◌then◌else◌}
use nulix.Kpm.Align.{page_size, u32, align_down, align_next, is_aligned}
use nulix.Kpm.Buddy.{Buddy, alloc_bit, free_bit, is_allocated, enable_bit, disable_bit, is_enabled}
use nulix.Kpm.Update.{update_all}

-- `for (i = 0; i < limit / PAGE_SIZE; i++)` of `kpm_enable`, from frame `index` on.
unfoldable pub enable_frames : ℕ → ℕ → Buddy → Buddy
enable_frames zero index b = b
enable_frames (suc rounds) index b =
    enable_frames rounds (index + 1) (free_bit (enable_bit b index) 0 index)

-- The same loop of `kpm_disable`.
unfoldable pub disable_frames : ℕ → ℕ → Buddy → Buddy
disable_frames zero index b = b
disable_frames (suc rounds) index b =
    disable_frames rounds (index + 1) (alloc_bit (disable_bit b index) 0 index)

-- `if ((base + limit) / PAGE_SIZE > nframes) limit = nframes * PAGE_SIZE - base`, where the
-- subtraction wraps.
unfoldable pub clip : Buddy → ℕ → ℕ → ℕ
clip b base limit =
    if ltb b.nframes (u32 (base + limit) / page_size)
    then u32 (u32 (b.nframes * page_size) + 2 ^ 32 - base)
    else limit

unfoldable pub kpm_enable : ℕ → ℕ → Buddy → Buddy
kpm_enable base limit b =
    if not (is_aligned base page_size)
    then b
    else let limit' = clip b base (align_down limit page_size) in
      update_all base limit' (enable_frames (limit' / page_size) (base / page_size) b)

unfoldable pub kpm_disable : ℕ → ℕ → Buddy → Buddy
kpm_disable base limit b =
    if not (is_aligned base page_size)
    then b
    else let whole =
        if not (is_aligned limit page_size) then align_next limit page_size else limit in
      let limit' = clip b base whole in
      update_all base limit' (disable_frames (limit' / page_size) (base / page_size) b)

unfoldable pub kpm_isenabled : Buddy → ℕ → Bool
kpm_isenabled b addr = is_enabled b (addr / page_size)

unfoldable pub kpm_isalloc : Buddy → ℕ → Bool
kpm_isalloc b addr = is_allocated b 0 (addr / page_size)
