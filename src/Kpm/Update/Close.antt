-- ===== src/Kpm/Update/Close.antt =====
-- The closing loop after a change of the frames of a range, and the allocator's invariant.
use nulix.Common.{
  ℕ, zero, suc, ◌+◌, ◌-◌, ◌*◌, ◌/◌, ◌≤◌, ◌<◌, ◌≡◌, ◌∙◌, ◌⊎◌, inl, inr, true, false, arith,
}
use nulix.Kpm.Align.{page_size}
use nulix.Kpm.Buddy.{Buddy, norders, is_allocated, is_enabled, nblocks}
use nulix.Kpm.Buddy.Sized.{IsSized}
use nulix.Kpm.Buddy.Frames.{Marked, Marked-beyond}
use nulix.Kpm.Update.{update_all}
use nulix.Kpm.Update.Range.{Misses}
use nulix.Kpm.Update.Tree.{IsTree, Below}
use nulix.Kpm.Update.All.{Rebuilt, update_all-IsTree}

-- What holds of the allocator between two operations: the arrays have their sizes, the buddy tree
-- is up to date at every order, a bit with no block stays set, and so does a frame that is disabled.
pub record IsValid (b : Buddy) : Type 0 where
  pub sized : IsSized b
  pub tree : IsTree b
  pub padding :
      (n j : ℕ)
      → n < norders
      → nblocks b.nframes n ≤ j
      → j < (nblocks b.nframes n + 7) / 8 * 8
      → is_allocated b n j ≡ true
  pub disabled : (j : ℕ) → j < b.nframes → is_enabled b j ≡ false → is_allocated b 0 j ≡ true

-- The frames `[lo, hi)` lie in the bytes `[base, base + limit)`, but for a part of the last.
pub record Covers (base limit lo hi : ℕ) : Type 0 where
  pub low : base ≤ lo * page_size
  pub high : hi * page_size < base + limit + page_size
  pub empty : limit ≡ 0 → hi ≤ lo

half_outside :
    (base limit lo hi j : ℕ)
    → Covers base limit lo hi
    → Misses base (base + limit) 1 j
    → ((j * 2 < lo) ⊎ (hi ≤ j * 2)) × ((j * 2 + 1 < lo) ⊎ (hi ≤ j * 2 + 1))
half_outside base limit lo hi j c (inl h) = omega (arith, c.empty)
half_outside base limit lo hi j c (inr h) = omega arith

Marked-Below :
    (b c : Buddy) (base limit lo hi : ℕ)
    → IsTree b
    → Marked b lo hi c
    → Covers base limit lo hi
    → Below 1 base (base + limit) c
Marked-Below b c base limit lo hi t v cover zero j mpos hm hj out = elim mpos [ ]
Marked-Below b c base limit lo hi t v cover (suc zero) j mpos hm hj out = elim out [
  | inl lt ↦ absurd (omega arith)
  | inr miss ↦
      let o = half_outside base limit lo hi j cover miss in
      ground (
        arith,
        v.orders 1 j (omega arith),
        v.outside (j * 2) o.0,
        v.outside (j * 2 + 1) o.1,
        t.at 1 j mpos hm (rw (← v.frames) hj),
      )
]
Marked-Below b c base limit lo hi t v cover (suc (suc m)) j mpos hm hj out = ground (
  arith,
  v.orders (suc (suc m)) j (omega arith),
  v.orders (suc (suc m) - 1) (j * 2) (omega arith),
  v.orders (suc (suc m) - 1) (j * 2 + 1) (omega arith),
  t.at (suc (suc m)) j mpos hm (rw (← v.frames) hj),
)

-- What an operation that changes frames of `b`, which gives `c`, and then runs the loop leaves.
pub record Closed (b c d : Buddy) : Type 0 where
  pub valid : IsValid d
  pub frames : d.nframes ≡ b.nframes
  pub extent : d.size ≡ b.size
  pub allocated : (j : ℕ) → is_allocated d 0 j ≡ is_allocated c 0 j
  pub enabled : (j : ℕ) → is_enabled d j ≡ is_enabled c j

pub update_all-Closed :
    (b c : Buddy) (base limit lo hi : ℕ)
    → IsValid b
    → Marked b lo hi c
    → Covers base limit lo hi
    → hi ≤ b.nframes
    → base + limit ≤ b.nframes * page_size
    → ((j : ℕ) → j < b.nframes → is_enabled c j ≡ false → is_allocated c 0 j ≡ true)
    → Closed b c (update_all base limit c)
update_all-Closed b c base limit lo hi v m cover inside h dis = record {
  valid = record {
    sized = r.sized;
    tree = both.1;
    padding = λ n j hn up below.
        let same : (update_all base limit c).nframes ≡ b.nframes = r.frames ∙ m.frames in
        r.padding n j hn (rw (← r.frames) up)
        ∙ Marked-beyond b c lo hi n j m inside (rw (← same) up)
        ∙ v.padding n j hn (rw (← same) up) (rw (← same) below);
    disabled =
        λ j hj off. r.leaves j ∙ dis j (omega (arith, r.frames, m.frames)) (rw (← r.enabled j) off);
  };
  frames = r.frames ∙ m.frames;
  extent = r.extent ∙ m.extent;
  allocated = r.leaves;
  enabled = r.enabled;
}
  where
    both : Rebuilt c (update_all base limit c) × IsTree (update_all base limit c)
    both =
        update_all-IsTree base limit c m.sized (rw m.frames h)
          (Marked-Below b c base limit lo hi v.tree m cover)

    r : Rebuilt c (update_all base limit c)
    r = both.0
