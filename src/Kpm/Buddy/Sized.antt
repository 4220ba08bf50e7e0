-- ===== src/Kpm/Buddy/Sized.antt =====
-- The sizes of the allocator's arrays, and what a macro's write changes.
use nulix.Common.{
  ℕ, zero, suc, ◌+◌, ◌-◌, ◌*◌, ◌/◌, ◌%◌, ◌^◌, ◌<◌, ◌≡◌, refl, ◌∙◌, ap, true, false, ◌&&◌, List,
  arith, ◌==◌, ==_iff, if◌then◌else◌, Bool-cases, length, length-set, get_or-set_self,
  get_or-set_ne, inl, inr,
}
use native.Mathlib.Nat.{pow-suc}
use nulix.Kpm.Bitmap.{
  is_set, set_bit, clear_bit, length-set_bit, length-clear_bit, is_set-set_bit, is_set-clear_bit,
}
use nulix.Kpm.Buddy.{
  Buddy, norders, no_order, order_at, alloc_bit, free_bit, is_allocated, is_enabled, nblocks,
  put_bitmap,
}

-- What `kpm_init` makes of the sizes: a whole number of blocks of the largest order, below 4 GiB,
-- and a bitmap for each order with at least one bit a block.
pub record IsSized (b : Buddy) : Type 0 where
  pub whole : b.nframes % 1024 ≡ 0
  pub small : b.nframes < 2 ^ 20
  pub frames : length b.enabled_frames ≡ (b.nframes + 7) / 8
  pub count : length b.orders ≡ norders
  pub bytes : (n : ℕ) → n < norders → length (order_at b n).bitmap ≡ (nblocks b.nframes n + 7) / 8
  pub sizes : (n : ℕ) → n < norders → (order_at b n).size ≡ (nblocks b.nframes n + 7) / 8

-- Each order has half the blocks of the one below.
nblocks-top : (q nf n m : ℕ) → nf ≡ q * 1024 → n + m ≡ 10 → nblocks nf n ≡ q * 2 ^ m
unfolding nblocks
nblocks-top q nf zero m e h = let m_lem : m ≡ 10 = omega arith in rw m_lem e
nblocks-top q nf (suc n) m e h =
    omega (arith, nblocks-top q nf n (suc m) e (omega arith), ap (λ (t : ℕ). q * t) (pow-suc 2 m))

pub nblocks-half : (nf n : ℕ) → nf % 1024 ≡ 0 → n < 10 → nblocks nf n ≡ nblocks nf (suc n) * 2
unfolding nblocks
nblocks-half nf n e h = omega (
  arith,
  nblocks-top (nf / 1024) nf n (suc (9 - n)) (omega arith) (omega arith),
  ap (λ (t : ℕ). nf / 1024 * t) (pow-suc 2 (9 - n)),
)

pub nblocks-whole : (nf n : ℕ) → nf % 1024 ≡ 0 → n < norders → nblocks nf n * 2 ^ n ≡ nf
nblocks-whole nf zero e h = unfold nblocks in omega arith
nblocks-whole nf (suc n) e h = omega (
  arith,
  nblocks-half nf n e (omega arith),
  ap (λ (t : ℕ). t * 2 ^ n) (nblocks-half nf n e (omega arith)),
  ap (λ (t : ℕ). nblocks nf (suc n) * t) (pow-suc 2 n),
  nblocks-whole nf n e (omega arith),
)

nframes-put_bitmap : (b : Buddy) (n : ℕ) (bm : List ℕ) → (put_bitmap b n bm).nframes ≡ b.nframes
unfolding put_bitmap
nframes-put_bitmap b n bm = refl

bitmap-put_bitmap :
    (b : Buddy) (n m : ℕ) (bm : List ℕ)
    → n < length b.orders
    → (order_at (put_bitmap b n bm) m).bitmap ≡ (if n == m then bm else (order_at b m).bitmap)
unfolding put_bitmap
bitmap-put_bitmap b n m bm h = elim (Bool-cases (n == m)) [
  | inl e ↦
      rw (e, ← (==_iff n m).0 e) (ap (λ o. o.bitmap) (get_or-set_self b.orders n _ no_order h))
  | inr ne ↦ rw ne (ap (λ o. o.bitmap) (get_or-set_ne b.orders n m _ no_order (ground arith)))
]

size-put_bitmap :
    (b : Buddy) (n m : ℕ) (bm : List ℕ)
    → n < length b.orders
    → (order_at (put_bitmap b n bm) m).size ≡ (order_at b m).size
unfolding put_bitmap
size-put_bitmap b n m bm h = elim (Bool-cases (n == m)) [
  | inl e ↦ rw (← (==_iff n m).0 e) (ap (λ o. o.size) (get_or-set_self b.orders n _ no_order h))
  | inr ne ↦ ap (λ o. o.size) (get_or-set_ne b.orders n m _ no_order (ground arith))
]

put_bitmap-IsSized :
    (b : Buddy) (n : ℕ) (bm : List ℕ)
    → IsSized b
    → n < norders
    → length bm ≡ length (order_at b n).bitmap
    → IsSized (put_bitmap b n bm)
put_bitmap-IsSized b n bm s hn hl = record {
  whole = unfold put_bitmap in s.whole;
  small = unfold put_bitmap in s.small;
  frames = unfold put_bitmap in s.frames;
  count = unfold put_bitmap in (length-set b.orders n _ ∙ s.count);
  bytes = λ m hm. ground (
    arith,
    s.bytes m hm,
    s.count,
    nframes-put_bitmap b n bm,
    bitmap-put_bitmap b n m bm,
    (==_iff n m).0,
  );
  sizes = λ m hm.
      ground (arith, s.sizes m hm, s.count, nframes-put_bitmap b n bm, size-put_bitmap b n m bm);
}

module _ (b : Buddy) (s : IsSized b) (n i : ℕ) (hn : n < norders) where
  pub alloc_bit-IsSized : IsSized (alloc_bit b n i)
  unfolding alloc_bit
  alloc_bit-IsSized = put_bitmap-IsSized b n _ s hn (length-set_bit (order_at b n).bitmap i)

  pub free_bit-IsSized : IsSized (free_bit b n i)
  unfolding free_bit
  free_bit-IsSized = put_bitmap-IsSized b n _ s hn (length-clear_bit (order_at b n).bitmap i)

  -- A write of KPM_ALLOC reads back as set, and leaves every other block of every order.
  pub is_allocated-alloc_bit :
      (m j : ℕ)
      → i < nblocks b.nframes n
      → is_allocated (alloc_bit b n i) m j ≡ (if n == m && i == j then true else is_allocated b m j)
  unfolding is_allocated alloc_bit
  is_allocated-alloc_bit m j hi = ground (
    arith,
    s.bytes n hn,
    s.count,
    bitmap-put_bitmap b n m (set_bit (order_at b n).bitmap i),
    is_set-set_bit (order_at b n).bitmap i j,
    (==_iff n m).0,
  )

  -- A write of KPM_FREE reads back as clear, and leaves every other block of every order.
  pub is_allocated-free_bit :
      (m j : ℕ)
      → i < nblocks b.nframes n
      → is_allocated (free_bit b n i) m j ≡ (if n == m && i == j then false else is_allocated b m j)
  unfolding is_allocated free_bit
  is_allocated-free_bit m j hi = ground (
    arith,
    s.bytes n hn,
    s.count,
    bitmap-put_bitmap b n m (clear_bit (order_at b n).bitmap i),
    is_set-clear_bit (order_at b n).bitmap i j,
    (==_iff n m).0,
  )

-- A macro's write to an order leaves the rest of `buddy` alone.
pub nframes-alloc_bit : (b : Buddy) (n i : ℕ) → (alloc_bit b n i).nframes ≡ b.nframes
unfolding alloc_bit
nframes-alloc_bit b n i = refl

pub size-alloc_bit : (b : Buddy) (n i : ℕ) → (alloc_bit b n i).size ≡ b.size
unfolding alloc_bit
size-alloc_bit b n i = refl

pub size-free_bit : (b : Buddy) (n i : ℕ) → (free_bit b n i).size ≡ b.size
unfolding free_bit
size-free_bit b n i = refl

pub nframes-free_bit : (b : Buddy) (n i : ℕ) → (free_bit b n i).nframes ≡ b.nframes
unfolding free_bit
nframes-free_bit b n i = refl

pub is_enabled-alloc_bit : (b : Buddy) (n i j : ℕ) → is_enabled (alloc_bit b n i) j ≡ is_enabled b j
unfolding is_enabled alloc_bit
is_enabled-alloc_bit b n i j = refl

pub is_enabled-free_bit : (b : Buddy) (n i j : ℕ) → is_enabled (free_bit b n i) j ≡ is_enabled b j
unfolding is_enabled free_bit
is_enabled-free_bit b n i j = refl

pub is_allocated_lem : (b : Buddy) (n i : ℕ) → is_allocated b n i ≡ is_set (order_at b n).bitmap i
unfolding is_allocated
is_allocated_lem b n i = refl

pub nblocks-zero : (nf : ℕ) → nblocks nf 0 ≡ nf
unfolding nblocks
nblocks-zero nf = refl
