-- ===== src/Kpm/Update/Order.antt =====
-- `kpm_update_order` at one order: which bits it writes, and what it leaves.
use nulix.Common.{
  zero, suc, ℕ, ◌+◌, ◌-◌, ◌*◌, ◌/◌, ◌^◌, ◌≤◌, ◌<◌, ◌≡◌, refl, ◌∙◌, ap, Bool, true, false, ◌&&◌,
  ◌||◌, arith, ◌==◌, holds_below, holds_below-at, ==_iff, dec_lt, Bool-cases, inl, inr, ltb, leb,
}
use native.Mathlib.Nat.{
  div-div-eq-div-mul, one-le-pow, div-mul-le_self, mul-div_cancel, lt-div-mul-add,
}
use mathlib.Core.Path.{subst}
use nulix.Kpm.Align.{page_size, align_next_force, align_next_force_lem}
use nulix.Kpm.Buddy.{Buddy, norders, is_allocated, is_enabled, nblocks}
use nulix.Kpm.Buddy.Sized.{
  IsSized, alloc_bit-IsSized, free_bit-IsSized, is_allocated-alloc_bit, is_allocated-free_bit,
  nblocks-whole, nframes-alloc_bit, nframes-free_bit, size-alloc_bit, size-free_bit,
  is_enabled-alloc_bit, is_enabled-free_bit,
}
use nulix.Kpm.Update.{block_size, update_block, update_from}

abbrev pub children : Buddy → ℕ → ℕ → Bool
children b n j = is_allocated b (n - 1) (j * 2) || is_allocated b (n - 1) (j * 2 + 1)

-- What a run that writes the blocks `[lo, hi)` of order `n` has done.
pub record Wrote (b : Buddy) (n lo hi : ℕ) (b' : Buddy) : Type 0 where
  pub sized : IsSized b'
  pub frames : b'.nframes ≡ b.nframes
  pub extent : b'.size ≡ b.size
  pub enabled : (j : ℕ) → is_enabled b' j ≡ is_enabled b j
  pub others :
      (m j : ℕ)
      → (n == m) && (leb lo j && ltb j hi) ≡ false
      → is_allocated b' m j ≡ is_allocated b m j
  pub written : (j : ℕ) → lo ≤ j → j < hi → is_allocated b' n j ≡ children b n j

update_block-Wrote :
    (b : Buddy) (n index : ℕ)
    → IsSized b
    → 0 < n
    → n < norders
    → index < nblocks b.nframes n
    → Wrote b n index (index + 1) (update_block n index b)
unfolding update_block
update_block-Wrote b n index s pos hn hi = elim (Bool-cases (children b n index)) [
  | inl e ↦ rw e (record {
    sized = alloc_bit-IsSized b s n index hn;
    frames = nframes-alloc_bit b n index;
    extent = size-alloc_bit b n index;
    enabled = is_enabled-alloc_bit b n index;
    others = λ m j h. ground (arith, is_allocated-alloc_bit b s n index hn m j hi);
    written = λ j lo up.
        let d : j ≡ index = omega arith in
        rw d (ground (arith, is_allocated-alloc_bit b s n index hn n index hi));
  })
  | inr e ↦ rw e (record {
    sized = free_bit-IsSized b s n index hn;
    frames = nframes-free_bit b n index;
    extent = size-free_bit b n index;
    enabled = is_enabled-free_bit b n index;
    others = λ m j h. ground (arith, is_allocated-free_bit b s n index hn m j hi);
    written = λ j lo up.
        let d : j ≡ index = omega arith in
        rw d (ground (arith, is_allocated-free_bit b s n index hn n index hi));
  })
]

Wrote-none : (b : Buddy) (n lo hi : ℕ) → IsSized b → hi ≤ lo → Wrote b n lo hi b
Wrote-none b n lo hi s h = record {
  sized = s;
  frames = refl;
  extent = refl;
  enabled = λ j. refl;
  others = λ m j e. refl;
  written = λ j p q. absurd (omega arith);
}

-- Two runs over neighbouring blocks are one.
Wrote-trans :
    {b c d : Buddy} {n lo mid hi : ℕ}
    → 0 < n
    → lo ≤ mid
    → mid ≤ hi
    → Wrote b n lo mid c
    → Wrote c n mid hi d
    → Wrote b n lo hi d
Wrote-trans {b} {c} {d} {n} {lo} {mid} {hi} pos p q v w = record {
  sized = w.sized;
  frames = w.frames ∙ v.frames;
  extent = w.extent ∙ v.extent;
  enabled = λ j. w.enabled j ∙ v.enabled j;
  others = λ m j h. ground (arith, v.others m j, w.others m j);
  written = λ j lo up. elim (dec_lt j mid) [
    | yes below ↦ ground (arith, v.written j lo below, w.others n j)
    | no above ↦ ground (
      arith,
      w.written j (omega arith) up,
      v.others (n - 1) (j * 2),
      v.others (n - 1) (j * 2 + 1),
    )
  ];
}

block_table : holds_below 11 (λ n. block_size n == 2 ^ (n + 12)) ≡ true
unfolding holds_below
block_table = refl

pub block_pow : (n : ℕ) → n < norders → block_size n ≡ 2 ^ (n + 12)
block_pow n h = (==_iff _ _).0 (holds_below-at 11 _ n block_table h)

next_block :
    (n base : ℕ)
    → n < norders
    → base + block_size n < 2 ^ 32
    → align_next_force base (block_size n) ≡ (base / block_size n + 1) * block_size n
next_block n base hn h =
    let e : block_size n ≡ 2 ^ (n + 12) = block_pow n hn in
    rw e (align_next_force_lem (n + 12) base (omega arith) (rw (← e) h))

block_index : (n base : ℕ) → base / 2 ^ n / page_size ≡ base / block_size n
block_index n base =
    div-div-eq-div-mul base (2 ^ n) page_size ∙ ap (λ (t : ℕ). base / t) (omega arith)

-- All of memory is `nblocks` blocks, at each order.
pub memory_blocks :
    (b : Buddy) (n : ℕ)
    → IsSized b
    → n < norders
    → nblocks b.nframes n * block_size n ≡ b.nframes * page_size
memory_blocks b n s hn = omega (
  arith,
  nblocks-whole b.nframes n s.whole hn,
  ap (λ (t : ℕ). t * 4096) (nblocks-whole b.nframes n s.whole hn),
)

pub block_in_range :
    (b : Buddy) (n k : ℕ)
    → IsSized b
    → n < norders
    → k * block_size n < b.nframes * page_size
    → k < nblocks b.nframes n
block_in_range b n k s hn h = grind (arith, memory_blocks b n s hn)

pub block_pos : (n : ℕ) → 0 < block_size n
block_pos n = omega (arith, one-le-pow n 2)

-- `hi` blocks of order `n` begin below `end`.
abbrev pub Ends : ℕ → ℕ → ℕ → Type 0
Ends n end hi = (end ≤ hi * block_size n) × (hi * block_size n < end + block_size n)

size_table : holds_below 11 (λ n. leb (block_size n) (2 ^ 22)) ≡ true
unfolding holds_below
size_table = refl

pub block_le : (n : ℕ) → n < norders → block_size n ≤ 2 ^ 22
block_le n h = ground (arith, holds_below-at 11 _ n size_table h)

pub lt_of_mul : (a b s : ℕ) → a * s < b * s → a < b
lt_of_mul a b s h = grind arith

module _ (n end hi : ℕ) (pos : 0 < n) (hn : n < norders) (ends : Ends n end hi) where
  passed : (k : ℕ) → end ≤ k * block_size n → hi < k + 1
  passed k h = lt_of_mul hi (k + 1) (block_size n) (omega (arith, ends.1))

  -- One round, and the rest of the loop.
  round :
      (fuel base : ℕ) (b : Buddy)
      → IsSized b
      → base < end
      → end ≤ b.nframes * page_size
      → ((c : Buddy)
          → IsSized c
          → c.nframes ≡ b.nframes
          → Wrote c n
              (base / block_size n + 1)
              hi
              (update_from fuel n ((base / block_size n + 1) * block_size n) end c))
      → Wrote b n (base / block_size n) hi (update_from (suc fuel) n base end b)
  unfolding update_from
  round fuel base b s lt h rest =
      rw (runs, block_index n base, next_block n base hn room)
        (Wrote-trans pos (omega arith) below here
          (rest (update_block n (base / block_size n) b) here.sized here.frames))
    where
      runs : ltb base end ≡ true
      runs = ground arith

      floor : base / block_size n * block_size n ≤ base
      floor = div-mul-le_self base (block_size n)

      inside : base / block_size n < nblocks b.nframes n
      inside = block_in_range b n (base / block_size n) s hn (omega (arith, floor))

      room : base + block_size n < 2 ^ 32
      room = omega (arith, s.small, s.whole, block_le n hn)

      below : base / block_size n + 1 ≤ hi
      below =
          omega (
            arith,
            lt_of_mul (base / block_size n) hi (block_size n) (omega (arith, floor, ends.0)),
          )

      here :
          Wrote b n
            (base / block_size n)
            (base / block_size n + 1)
            (update_block n (base / block_size n) b)
      here = update_block-Wrote b n (base / block_size n) s pos hn inside

  update_aligned :
      (fuel k : ℕ) (b : Buddy)
      → IsSized b
      → end ≤ b.nframes * page_size
      → end ≤ k * block_size n + fuel
      → Wrote b n k hi (update_from fuel n (k * block_size n) end b)
  unfolding update_from
  update_aligned zero k b s h f = Wrote-none b n k hi s (omega (arith, passed k (omega arith)))
  update_aligned (suc fuel) k b s h f = elim (dec_lt (k * block_size n) end) [
    | yes lt ↦
        let here : k * block_size n / block_size n ≡ k = mul-div_cancel k (block_pos n) in
        subst (λ i. Wrote b n i hi (update_from (suc fuel) n (k * block_size n) end b)) here
          (round fuel (k * block_size n) b s lt h (λ c t e.
            rw here (update_aligned fuel (k + 1) c t (rw e h) (omega (arith, block_pos n)))))
    | no past ↦
        let stops : ltb (k * block_size n) end ≡ false = ground arith in
        rw stops (Wrote-none b n k hi s (omega (arith, passed k (omega arith))))
  ]

  -- The whole loop, from any address on.
  pub update_from-Wrote :
      (fuel base : ℕ) (b : Buddy)
      → IsSized b
      → base < end
      → end ≤ b.nframes * page_size
      → end ≤ base + suc fuel
      → Wrote b n (base / block_size n) hi (update_from (suc fuel) n base end b)
  update_from-Wrote fuel base b s lt h f = round fuel base b s lt h (λ c t e.
      update_aligned fuel (base / block_size n + 1) c t (rw e h)
        (omega (arith, lt-div-mul-add {a = base} (block_pos n))))
