-- ===== src/Kpm/Update/All.antt =====
-- The loop over the orders that `kpm_enable`, `kpm_disable`, `kpm_alloc` and `kpm_free` end with.
use nulix.Common.{ℕ, zero, suc, ◌+◌, ◌*◌, ◌≤◌, ◌<◌, ◌≡◌, refl, ◌∙◌, inl, inr, arith, ℕ_discrete}
use nulix.Kpm.Align.{page_size}
use nulix.Kpm.Buddy.{Buddy, norders, is_allocated, is_enabled, nblocks}
use nulix.Kpm.Buddy.Sized.{IsSized}
use nulix.Kpm.Update.{kpm_update_order, update_orders, update_all}
use nulix.Kpm.Update.Order.{memory_blocks}
use nulix.Kpm.Update.Range.{Misses, Updated, kpm_update_order-Updated}
use nulix.Kpm.Update.Tree.{IsTree, Below, Below-step}

-- What every operation's closing loop leaves.
pub record Rebuilt (b b' : Buddy) : Type 0 where
  pub sized : IsSized b'
  pub frames : b'.nframes ≡ b.nframes
  pub extent : b'.size ≡ b.size
  pub enabled : (j : ℕ) → is_enabled b' j ≡ is_enabled b j
  pub leaves : (j : ℕ) → is_allocated b' 0 j ≡ is_allocated b 0 j
  pub padding :
      (n j : ℕ) → n < norders → nblocks b.nframes n ≤ j → is_allocated b' n j ≡ is_allocated b n j

beyond_missed :
    (b : Buddy) (base limit n j : ℕ)
    → IsSized b
    → n < norders
    → base + limit ≤ b.nframes * page_size
    → nblocks b.nframes n ≤ j
    → Misses base (base + limit) n j
beyond_missed b base limit n j s hn h up = inr (inl (grind (arith, memory_blocks b n s hn)))

Rebuilt-refl : (b : Buddy) → IsSized b → Rebuilt b b
Rebuilt-refl b s = record {
  sized = s;
  frames = refl;
  extent = refl;
  enabled = λ j. refl;
  leaves = λ j. refl;
  padding = λ n j hn up. refl;
}

Rebuilt-step :
    (b c d : Buddy) (n base limit : ℕ)
    → IsSized b
    → 0 < n
    → n < norders
    → base + limit ≤ b.nframes * page_size
    → Updated b n base limit c
    → Rebuilt c d
    → Rebuilt b d
Rebuilt-step b c d n base limit s pos hn h u r = record {
  sized = r.sized;
  frames = r.frames ∙ u.frames;
  extent = r.extent ∙ u.extent;
  enabled = λ j. r.enabled j ∙ u.enabled j;
  leaves = λ j. r.leaves j ∙ u.others 0 j (omega arith);
  padding = λ m j hm up. r.padding m j hm (rw u.frames up) ∙ elim (ℕ_discrete m n) [
    | yes same ↦ rw same (u.missed j (beyond_missed b base limit n j s hn h (rw (← same) up)))
    | no ne ↦ u.others m j ne
  ];
}

update_orders-Rebuilt :
    (rounds n base limit : ℕ) (b : Buddy)
    → IsSized b
    → 0 < n
    → n + rounds ≡ norders
    → base + limit ≤ b.nframes * page_size
    → Below n base (base + limit) b
    → Rebuilt b (update_orders rounds n base limit b)
      × Below norders base (base + limit) (update_orders rounds n base limit b)
unfolding update_orders
update_orders-Rebuilt zero n base limit b s pos e h below =
    (Rebuilt-refl b s, λ m j mpos hm hj c. below m j mpos hm hj (inl (omega arith)))
update_orders-Rebuilt (suc rounds) n base limit b s pos e h below =
    let u = kpm_update_order-Updated b n base limit s pos (omega arith) h in
    let rest =
      update_orders-Rebuilt rounds (n + 1) base limit (kpm_update_order n base limit b) u.sized
        (omega arith) (omega arith) (rw u.frames h)
        (Below-step n base limit b (kpm_update_order n base limit b) pos (omega arith) u below) in
    (
      Rebuilt-step b (kpm_update_order n base limit b) _ n base limit s pos (omega arith) h u
          rest.0,
      rest.1,
    )

-- After a change to frames of a range, where the tree still holds at every block that the range
-- misses, the loop makes it hold at every block, and changes no frame.
pub update_all-IsTree :
    (base limit : ℕ) (b : Buddy)
    → IsSized b
    → base + limit ≤ b.nframes * page_size
    → Below 1 base (base + limit) b
    → Rebuilt b (update_all base limit b) × IsTree (update_all base limit b)
unfolding update_all
update_all-IsTree base limit b s h below =
    let both = update_orders-Rebuilt 10 1 base limit b s (omega arith) (omega arith) h below in
    (both.0, record { at = λ n j pos hn hj. both.1 n j pos hn hj (inl hn) })
