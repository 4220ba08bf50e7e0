-- ===== src/Kpm/Buddy/Frames.antt =====
-- Writes to the frames of a range: order 0 and `enabled_frames`.
use nulix.Common.{ℕ, zero, suc, ◌+◌, ◌≤◌, ◌<◌, ◌≡◌, refl, ◌∙◌, ◌≢◌, ◌⊎◌, inr, true, false, arith}
use nulix.Kpm.Bitmap.{length-set_bit, length-clear_bit, is_set-set_bit, is_set-clear_bit}
use nulix.Kpm.Buddy.{
  Buddy, alloc_bit, free_bit, is_allocated, enable_bit, disable_bit, is_enabled, nblocks,
}
use nulix.Kpm.Buddy.Sized.{
  IsSized, alloc_bit-IsSized, free_bit-IsSized, is_allocated-alloc_bit, is_allocated-free_bit,
  nframes-alloc_bit, nframes-free_bit, size-alloc_bit, size-free_bit, is_enabled-alloc_bit,
  is_enabled-free_bit,
}

-- What a loop over the frames `[lo, hi)` may change.
pub record Marked (b : Buddy) (lo hi : ℕ) (b' : Buddy) : Type 0 where
  pub sized : IsSized b'
  pub frames : b'.nframes ≡ b.nframes
  pub extent : b'.size ≡ b.size
  pub orders : (m j : ℕ) → m ≢ 0 → is_allocated b' m j ≡ is_allocated b m j
  pub outside : (j : ℕ) → (j < lo) ⊎ (hi ≤ j) → is_allocated b' 0 j ≡ is_allocated b 0 j
  pub enabled : (j : ℕ) → (j < lo) ⊎ (hi ≤ j) → is_enabled b' j ≡ is_enabled b j

pub Marked-none : (b : Buddy) (lo hi : ℕ) → IsSized b → Marked b lo hi b
Marked-none b lo hi s = record {
  sized = s;
  frames = refl;
  extent = refl;
  orders = λ m j ne. refl;
  outside = λ j out. refl;
  enabled = λ j out. refl;
}

-- One more frame at the low end.
pub Marked-step :
    {b c d : Buddy} {lo hi : ℕ}
    → lo < hi
    → Marked b lo (lo + 1) c
    → Marked c (lo + 1) hi d
    → Marked b lo hi d
Marked-step h v w = record {
  sized = w.sized;
  frames = w.frames ∙ v.frames;
  extent = w.extent ∙ v.extent;
  orders = λ m j ne. w.orders m j ne ∙ v.orders m j ne;
  outside = λ j out. w.outside j (omega arith) ∙ v.outside j (omega arith);
  enabled = λ j out. w.enabled j (omega arith) ∙ v.enabled j (omega arith);
}

module _ (b : Buddy) (i : ℕ) (s : IsSized b) (hi : i < b.nframes) where
  first : i < nblocks b.nframes 0
  unfolding nblocks
  first = hi

  pub alloc_bit-Marked : Marked b i (i + 1) (alloc_bit b 0 i)
  alloc_bit-Marked = record {
    sized = alloc_bit-IsSized b s 0 i (omega arith);
    frames = nframes-alloc_bit b 0 i;
    extent = size-alloc_bit b 0 i;
    orders = λ m j ne. ground (arith, is_allocated-alloc_bit b s 0 i (omega arith) m j first);
    outside = λ j out. ground (arith, is_allocated-alloc_bit b s 0 i (omega arith) 0 j first);
    enabled = λ j out. is_enabled-alloc_bit b 0 i j;
  }

  pub alloc_bit_self : is_allocated (alloc_bit b 0 i) 0 i ≡ true
  alloc_bit_self = ground (arith, is_allocated-alloc_bit b s 0 i (omega arith) 0 i first)

  pub free_bit-Marked : Marked b i (i + 1) (free_bit b 0 i)
  free_bit-Marked = record {
    sized = free_bit-IsSized b s 0 i (omega arith);
    frames = nframes-free_bit b 0 i;
    extent = size-free_bit b 0 i;
    orders = λ m j ne. ground (arith, is_allocated-free_bit b s 0 i (omega arith) m j first);
    outside = λ j out. ground (arith, is_allocated-free_bit b s 0 i (omega arith) 0 j first);
    enabled = λ j out. is_enabled-free_bit b 0 i j;
  }

  pub free_bit_self : is_allocated (free_bit b 0 i) 0 i ≡ false
  free_bit_self = ground (arith, is_allocated-free_bit b s 0 i (omega arith) 0 i first)

  -- The bit arrays of the orders are not `enabled_frames`.
  pub enable_bit-Marked : Marked b i (i + 1) (enable_bit b i)
  unfolding enable_bit is_enabled is_allocated
  enable_bit-Marked = record {
    sized = record {
      whole = s.whole;
      small = s.small;
      frames = length-set_bit b.enabled_frames i ∙ s.frames;
      count = s.count;
      bytes = s.bytes;
      sizes = s.sizes;
    };
    frames = refl;
    extent = refl;
    orders = λ m j ne. refl;
    outside = λ j out. refl;
    enabled = λ j out. ground (arith, s.frames, is_set-set_bit b.enabled_frames i j);
  }

  pub enable_bit_self : is_enabled (enable_bit b i) i ≡ true
  unfolding enable_bit is_enabled
  enable_bit_self = ground (arith, s.frames, is_set-set_bit b.enabled_frames i i)

  pub disable_bit-Marked : Marked b i (i + 1) (disable_bit b i)
  unfolding disable_bit is_enabled is_allocated
  disable_bit-Marked = record {
    sized = record {
      whole = s.whole;
      small = s.small;
      frames = length-clear_bit b.enabled_frames i ∙ s.frames;
      count = s.count;
      bytes = s.bytes;
      sizes = s.sizes;
    };
    frames = refl;
    extent = refl;
    orders = λ m j ne. refl;
    outside = λ j out. refl;
    enabled = λ j out. ground (arith, s.frames, is_set-clear_bit b.enabled_frames i j);
  }

  pub disable_bit_self : is_enabled (disable_bit b i) i ≡ false
  unfolding disable_bit is_enabled
  disable_bit_self = ground (arith, s.frames, is_set-clear_bit b.enabled_frames i i)

-- No loop over frames writes a bit that has no block.
pub Marked-beyond :
    (b c : Buddy) (lo hi n j : ℕ)
    → Marked b lo hi c
    → hi ≤ b.nframes
    → nblocks b.nframes n ≤ j
    → is_allocated c n j ≡ is_allocated b n j
unfolding nblocks
Marked-beyond b c lo hi zero j m inside up = m.outside j (inr (omega arith))
Marked-beyond b c lo hi (suc n) j m inside up = m.orders (suc n) j (omega arith)

-- Two writes to one range.
pub Marked-join :
    {b c d : Buddy} {lo hi : ℕ} → Marked b lo hi c → Marked c lo hi d → Marked b lo hi d
Marked-join v w = record {
  sized = w.sized;
  frames = w.frames ∙ v.frames;
  extent = w.extent ∙ v.extent;
  orders = λ m j ne. w.orders m j ne ∙ v.orders m j ne;
  outside = λ j out. w.outside j out ∙ v.outside j out;
  enabled = λ j out. w.enabled j out ∙ v.enabled j out;
}
