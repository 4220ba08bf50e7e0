-- ===== src/Kpm/Init/Fresh.antt =====
-- The allocator that `kpm_init` lays out before it enables any region: valid, with every frame taken.
use nulix.Common.{
  ℕ, zero, suc, ◌+◌, ◌-◌, ◌*◌, ◌/◌, ◌%◌, ◌^◌, ◌<◌, ◌≡◌, refl, ◌∙◌, true, false, arith, ap,
  replicate, length, get_or, length-replicate,
}
use nulix.Kpm.Align.{page_size, u32, align_down_lem, nbytes_from_nbits, nbytes_from_nbits_lem}
use nulix.Kpm.Buddy.{Order, norders, no_order, order_at, is_allocated, is_enabled, nblocks}
use nulix.Kpm.Buddy.Sized.{nblocks-zero, nblocks-half}
use nulix.Kpm.Buddy.Fresh.{nblocks-shift, nblocks-le, full_block, disabled_frame}
use nulix.Kpm.Update.Close.{IsValid}
use nulix.Kpm.Init.{fresh_orders, frames_of_memory, fresh_buddy}

abbrev full : ℕ → Order
full size = record { bitmap = replicate size 0xff; size = size }

fresh_orders-at :
    (rounds blocks n : ℕ)
    → n < rounds
    → get_or (fresh_orders rounds blocks) n no_order ≡ full (nbytes_from_nbits (nblocks blocks n))
unfolding fresh_orders
fresh_orders-at zero blocks n h = absurd (omega arith)
fresh_orders-at (suc rounds) blocks zero h = rw nblocks-zero
fresh_orders-at (suc rounds) blocks (suc n) h =
    fresh_orders-at rounds (blocks / 2) n (omega arith)
    ∙ ap (λ k. full (nbytes_from_nbits k)) (nblocks-shift blocks n)

length-fresh_orders : (rounds blocks : ℕ) → length (fresh_orders rounds blocks) ≡ rounds
unfolding fresh_orders
length-fresh_orders zero blocks = refl
length-fresh_orders (suc rounds) blocks = ap suc (length-fresh_orders rounds (blocks / 2))

frames_of_memory_lem :
    (memkb : ℕ) → (frames_of_memory memkb % 1024 ≡ 0) × (frames_of_memory memkb < 2 ^ 20)
unfolding frames_of_memory
frames_of_memory_lem memkb =
    let e = align_down_lem 10 (u32 (memkb * 1024) / page_size) (omega arith) (omega arith) in
    (omega (arith, e), omega (arith, e))

module _ (memkb : ℕ) where
  abbrev pub nframes : ℕ
  nframes = frames_of_memory memkb

  bytes : (n : ℕ) → nbytes_from_nbits (nblocks nframes n) ≡ (nblocks nframes n + 7) / 8
  bytes n =
      nbytes_from_nbits_lem (nblocks nframes n)
        (omega (arith, nblocks-le nframes n, frames_of_memory_lem memkb))

  at : (n : ℕ) → n < norders → order_at (fresh_buddy memkb) n ≡ full ((nblocks nframes n + 7) / 8)
  unfolding fresh_buddy
  at n hn = fresh_orders-at norders nframes n hn ∙ ap full (bytes n)

  taken :
      (n j : ℕ)
      → n < norders
      → j < (nblocks nframes n + 7) / 8 * 8
      → is_allocated (fresh_buddy memkb) n j ≡ true
  taken n j hn hj =
      full_block (fresh_buddy memkb) n j ((nblocks nframes n + 7) / 8)
        (ap (λ o. o.bitmap) (at n hn)) (omega arith)

  pub nframes-fresh_buddy : (fresh_buddy memkb).nframes ≡ nframes
  unfolding fresh_buddy
  nframes-fresh_buddy = refl

  enabled : length (fresh_buddy memkb).enabled_frames ≡ ((fresh_buddy memkb).nframes + 7) / 8
  unfolding fresh_buddy
  enabled =
      length-replicate _ _
      ∙ nbytes_from_nbits_lem nframes (omega (arith, frames_of_memory_lem memkb))

  count : length (fresh_buddy memkb).orders ≡ norders
  unfolding fresh_buddy
  count = length-fresh_orders norders nframes

  left : (n j : ℕ) → 0 < n → n < norders → j < nblocks nframes n → j * 2 < nblocks nframes (n - 1)
  left zero j pos hn hj = elim pos [ ]
  left (suc n) j pos hn hj =
      let below : suc n - 1 ≡ n = omega arith in
      rw below (omega (arith, nblocks-half nframes n (frames_of_memory_lem memkb).0 (omega arith)))

  -- Whatever the size of memory, the allocator starts valid and with every frame allocated.
  pub fresh_buddy-IsValid : IsValid (fresh_buddy memkb)
  fresh_buddy-IsValid = record {
    sized = record {
      whole = rw nframes-fresh_buddy (frames_of_memory_lem memkb).0;
      small = rw nframes-fresh_buddy (frames_of_memory_lem memkb).1;
      frames = enabled;
      count = count;
      bytes = λ n hn. rw (at n hn, nframes-fresh_buddy) (length-replicate {A = ℕ} _ _);
      sizes = λ n hn. rw (at n hn, nframes-fresh_buddy);
    };
    tree = record {
      at = λ n j pos hn hj. ground (
        arith,
        taken n j hn (omega (arith, (rw nframes-fresh_buddy at hj))),
        taken (n - 1) (j * 2) (omega arith)
            (omega (arith, left n j pos hn (rw nframes-fresh_buddy at hj))),
      );
    };
    padding = λ n j hn up below. taken n j hn (rw nframes-fresh_buddy at below);
    disabled = λ j hj off.
        taken 0 j (omega arith) (omega (arith, nblocks-zero nframes, nframes-fresh_buddy));
  }

-- Before any region is enabled, every frame is allocated and disabled.
pub fresh_buddy_bits :
    (memkb j : ℕ)
    → j < frames_of_memory memkb
    → (is_allocated (fresh_buddy memkb) 0 j ≡ true) × (is_enabled (fresh_buddy memkb) j ≡ false)
unfolding fresh_buddy
fresh_buddy_bits memkb j h =
    (taken memkb 0 j (omega arith) (omega (arith, nblocks-zero (nframes memkb))), off)
  where
    off : is_enabled (fresh_buddy memkb) j ≡ false
    off = disabled_frame (fresh_buddy memkb) j (nbytes_from_nbits (nframes memkb)) refl
