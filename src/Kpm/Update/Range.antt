-- ===== src/Kpm/Update/Range.antt =====
-- `kpm_update_order` over a range of memory, block by block.
use nulix.Common.{
  ◌≢◌, zero, suc, ℕ, ◌+◌, ◌-◌, ◌*◌, ◌/◌, ◌≤◌, ◌<◌, ◌≡◌, refl, false, ◌&&◌, arith, ◌⊎◌, ◌==◌, inl,
  inr, ltb, leb,
}
use native.Mathlib.Nat.{div-mul-le_self, lt-div-mul-add, div-lt_iff_lt-mul, le-div_iff_mul-le}
use nulix.Kpm.Align.{page_size, u32}
use nulix.Kpm.Buddy.{Buddy, norders, is_allocated, is_enabled}
use nulix.Kpm.Buddy.Sized.{IsSized}
use nulix.Kpm.Update.{block_size, update_from, kpm_update_order}
use nulix.Kpm.Update.Order.{children, Wrote, Ends, update_from-Wrote, block_pos, lt_of_mul}

-- The blocks of order `n` that `[base, end)` does not meet.
abbrev pub Misses : ℕ → ℕ → ℕ → ℕ → Type 0
Misses base end n j = (end ≤ base) ⊎ (end ≤ j * block_size n) ⊎ ((j + 1) * block_size n ≤ base)

Ends-of : (n end : ℕ) → Ends n end ((end + (block_size n - 1)) / block_size n)
Ends-of n end = (
  omega (arith, lt-div-mul-add {a = end + (block_size n - 1)} (block_pos n), block_pos n),
  omega (arith, div-mul-le_self (end + (block_size n - 1)) (block_size n), block_pos n),
)

-- What `kpm_update_order` does to a range of memory: it writes the blocks that the range meets, each
-- by its two halves, and nothing else.
pub record Updated (b : Buddy) (n base limit : ℕ) (b' : Buddy) : Type 0 where
  pub sized : IsSized b'
  pub frames : b'.nframes ≡ b.nframes
  pub extent : b'.size ≡ b.size
  pub enabled : (j : ℕ) → is_enabled b' j ≡ is_enabled b j
  pub others : (m j : ℕ) → m ≢ n → is_allocated b' m j ≡ is_allocated b m j
  pub missed : (j : ℕ) → Misses base (base + limit) n j → is_allocated b' n j ≡ is_allocated b n j
  pub met :
      (j : ℕ)
      → 0 < limit
      → j * block_size n < base + limit
      → base < (j + 1) * block_size n
      → is_allocated b' n j ≡ children b n j

Wrote-Updated :
    (b b' : Buddy) (n base limit hi : ℕ)
    → 0 < limit
    → Ends n (base + limit) hi
    → Wrote b n (base / block_size n) hi b'
    → Updated b n base limit b'
Wrote-Updated b b' n base limit hi nonzero ends w = record {
  sized = w.sized;
  frames = w.frames;
  extent = w.extent;
  enabled = w.enabled;
  others = λ m j ne. w.others m j (ground arith);
  missed = λ j h. w.others n j (skipped j h);
  met = λ j some_bytes up lo.
      w.written j
        (omega
          (arith, (div-lt_iff_lt-mul {k = block_size n} {x = base} {y = j + 1} (block_pos n)).1 lo))
        (lt_of_mul j hi (block_size n) (omega (arith, ends.0)));
}
  where
    skipped :
        (j : ℕ)
        → Misses base (base + limit) n j
        → (n == n) && (leb (base / block_size n) j && ltb j hi) ≡ false
    skipped j (inl h) = absurd (omega arith)
    skipped j (inr (inl h)) =
        ground (arith, lt_of_mul hi (j + 1) (block_size n) (omega (arith, ends.1)))
    skipped j (inr (inr h)) =
        ground
          (arith, (le-div_iff_mul-le {k = block_size n} {x = j + 1} {y = base} (block_pos n)).1 h)

-- `kpm_update_order` over a range of memory writes every block of the order that the range meets.
pub kpm_update_order-Updated :
    (b : Buddy) (n base limit : ℕ)
    → IsSized b
    → 0 < n
    → n < norders
    → base + limit ≤ b.nframes * page_size
    → Updated b n base limit (kpm_update_order n base limit b)
unfolding kpm_update_order update_from
kpm_update_order-Updated b n base zero s pos hn h = record {
  sized = s;
  frames = refl;
  extent = refl;
  enabled = λ j. refl;
  others = λ m j ne. refl;
  missed = λ j miss. refl;
  met = λ j some_bytes up lo. absurd (omega arith);
}
kpm_update_order-Updated b n base (suc limit) s pos hn h =
    let e : u32 (base + suc limit) ≡ base + suc limit = omega (arith, s.small) in
    rw e (
      Wrote-Updated b (update_from (suc limit) n base (base + suc limit) b) n base (suc limit)
        ((base + suc limit + (block_size n - 1)) / block_size n) (omega arith)
        (Ends-of n (base + suc limit))
        (update_from-Wrote n (base + suc limit)
          ((base + suc limit + (block_size n - 1)) / block_size n) pos hn
          (Ends-of n (base + suc limit)) limit base b s (omega arith) h (omega arith)))
