-- ===== src/Kpm/Region/Clip.antt =====
-- The bounds that `kpm_enable` and `kpm_disable` put on a region.
use nulix.Common.{ℕ, ◌+◌, ◌*◌, ◌/◌, ◌%◌, ◌^◌, ◌≤◌, ◌<◌, ◌≡◌, arith, ◌==◌, ltb}
use nulix.Kpm.Align.{
  page_size, align_down, align_next, is_aligned, align_down_lem, align_next_lem, is_aligned_lem,
}
use nulix.Kpm.Buddy.{Buddy}
use nulix.Kpm.Buddy.Sized.{IsSized}
use nulix.Kpm.Region.{clip}
use nulix.Kpm.Update.Close.{Covers}

-- A region that begins in memory, on a page, and ends below 4 GiB.
pub record Fits (nframes base limit : ℕ) : Type 0 where
  pub page : base % page_size ≡ 0
  pub low : base ≤ nframes * page_size
  pub high : base + limit + page_size ≤ 2 ^ 32

-- The region that is left begins at the same page, is whole pages, ends in memory, and meets the
-- same frames.
pub record Clipped (b : Buddy) (base whole limit : ℕ) : Type 0 where
  pub pages : limit % page_size ≡ 0
  pub inside : base + limit ≤ b.nframes * page_size
  pub same :
      (j : ℕ)
      → j < b.nframes
      → ltb (j * page_size) (base + limit) ≡ ltb (j * page_size) (base + whole)

pub clip-Clipped :
    (b : Buddy) (base whole : ℕ)
    → IsSized b
    → base % page_size ≡ 0
    → base ≤ b.nframes * page_size
    → base + whole < 2 ^ 32
    → whole % page_size ≡ 0
    → Clipped b base whole (clip b base whole)
unfolding clip
clip-Clipped b base whole s page low high w = record {
  pages = ground (arith, s.small);
  inside = ground (arith, s.small);
  same = λ j hj. ground (arith, s.small);
}

-- Of whole pages, the loop's frames are those that the region covers.
pub Clipped-Covers :
    (b : Buddy) (base whole limit : ℕ)
    → base % page_size ≡ 0
    → Clipped b base whole limit
    → Covers base limit (base / page_size) (base / page_size + limit / page_size)
Clipped-Covers b base whole limit page c = record {
  low = omega arith;
  high = omega (arith, c.pages);
  empty = λ e. rw e (omega arith);
}

pub page_aligned : (x : ℕ) → x < 2 ^ 32 → is_aligned x page_size ≡ (x % page_size == 0)
page_aligned x h = is_aligned_lem 12 x h

pub page_down : (x : ℕ) → x < 2 ^ 32 → align_down x page_size ≡ x / page_size * page_size
page_down x h = align_down_lem 12 x (omega arith) h

pub page_next :
    (x : ℕ) → x + page_size ≤ 2 ^ 32 → align_next x page_size ≡ (x + 4095) / page_size * page_size
page_next x h = align_next_lem 12 x (omega arith) (omega arith)
