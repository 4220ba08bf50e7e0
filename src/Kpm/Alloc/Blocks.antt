-- ===== src/Kpm/Alloc/Blocks.antt =====
-- A block of the buddy tree and its frames.
use nulix.Common.{
  ℕ, zero, suc, ◌+◌, ◌-◌, ◌*◌, ◌^◌, ◌≤◌, ◌<◌, ◌≡◌, ◌∙◌, ap, true, false, ◌||◌, arith, dec_lt,
  Option, none, some,
}
use native.Mathlib.Nat.{pow-suc}
use nulix.Kpm.Bitmap.{is_set}
use nulix.Kpm.Bitmap.Search.{Found, bitmap_ffu, bitmap_ffu-Found}
use nulix.Kpm.Buddy.{Buddy, norders, order_at, is_allocated, nblocks}
use nulix.Kpm.Buddy.Sized.{is_allocated_lem, IsSized, nblocks-half}
use nulix.Kpm.Update.Tree.{IsTree}
use nulix.Kpm.Update.Close.{IsValid}

-- Every frame of block `i` of order `n` is free.
abbrev pub AllFree : Buddy → ℕ → ℕ → Type 0
AllFree b n i = (j : ℕ) → i * 2 ^ n ≤ j → j < (i + 1) * 2 ^ n → is_allocated b 0 j ≡ false

double : (i n : ℕ) → i * 2 ^ suc n ≡ i * 2 ^ n * 2
double i n = omega (arith, ap (λ (t : ℕ). i * t) (pow-suc 2 n))

module _ (b : Buddy) (s : IsSized b) (t : IsTree b) where
  halves :
      (n i : ℕ)
      → suc n < norders
      → i < nblocks b.nframes (suc n)
      → is_allocated b (suc n) i ≡ (is_allocated b n (i * 2) || is_allocated b n (i * 2 + 1))
  halves n i hn hi =
      let below : suc n - 1 ≡ n = omega arith in rw below at (t.at (suc n) i (omega arith) hn hi)

  half_in :
      (n i : ℕ) → suc n < norders → i < nblocks b.nframes (suc n) → i * 2 + 1 < nblocks b.nframes n
  half_in n i hn hi = omega (arith, nblocks-half b.nframes n s.whole (omega arith))

  -- The bit of a block says whether all its frames are free.
  pub free-AllFree :
      (n i : ℕ) → n < norders → i < nblocks b.nframes n → is_allocated b n i ≡ false → AllFree b n i
  free-AllFree zero i hn hi e j lo up = let same : j ≡ i = omega arith in rw same e
  free-AllFree (suc n) i hn hi e j lo up = elim (dec_lt j ((i * 2 + 1) * 2 ^ n)) [
    | yes left ↦
        free-AllFree n (i * 2) (omega arith) (omega (arith, half_in n i hn hi))
          (ground (arith, halves n i hn hi)) j (omega (arith, double i n)) left
    | no right ↦
        free-AllFree n (i * 2 + 1) (omega arith) (half_in n i hn hi)
          (ground (arith, halves n i hn hi)) j (omega arith) (omega (arith, double (i + 1) n))
  ]

  pub AllFree-free :
      (n i : ℕ) → n < norders → i < nblocks b.nframes n → AllFree b n i → is_allocated b n i ≡ false
  AllFree-free zero i hn hi f = f i (omega arith) (omega arith)
  AllFree-free (suc n) i hn hi f = ground (
    arith,
    halves n i hn hi,
    AllFree-free n (i * 2) (omega arith) (omega (arith, half_in n i hn hi))
        (λ j lo up. f j (omega (arith, double i n)) (omega (arith, double (i + 1) n))),
    AllFree-free n (i * 2 + 1) (omega arith) (half_in n i hn hi)
        (λ j lo up. f j (omega (arith, double i n)) (omega (arith, double (i + 1) n))),
  )

-- What a search of order `o` says of its blocks.
abbrev pub Searched : Buddy → ℕ → Option ℕ → Type 0
Searched b o none = (i : ℕ) → i < nblocks b.nframes o → ¬ AllFree b o i
Searched b o (some i) =
    (i < nblocks b.nframes o) × AllFree b o i × ((k : ℕ) → k < i → ¬ AllFree b o k)

-- The search of an order finds its first block whose frames are all free, and -1 exactly if it has none.
pub search_order :
    (b : Buddy) (o : ℕ)
    → IsValid b
    → o < norders
    → Searched b o (bitmap_ffu (order_at b o).bitmap (order_at b o).size)
search_order b o v ho =
    go (bitmap_ffu (order_at b o).bitmap (order_at b o).size)
      (bitmap_ffu-Found (order_at b o).bitmap (order_at b o).size)
  where
    set_not_free :
        (i : ℕ) → i < nblocks b.nframes o → is_set (order_at b o).bitmap i ≡ true → ¬ AllFree b o i
    set_not_free i hi e free =
        ground (arith, AllFree-free b v.sized v.tree o i ho hi free, is_allocated_lem b o i)

    in_memory :
        (i : ℕ)
        → i < (order_at b o).size * 8
        → is_set (order_at b o).bitmap i ≡ false
        → i < nblocks b.nframes o
    in_memory i hi e = elim (dec_lt i (nblocks b.nframes o)) [
      | yes lt ↦ lt
      | no ge ↦
          absurd (ground (arith, v.padding o i ho, v.sized.sizes o ho, is_allocated_lem b o i))
    ]

    go : (r : Option ℕ) → Found (order_at b o).bitmap 0 ((order_at b o).size * 8) r → Searched b o r
    go none all =
        λ i hi. set_not_free i hi (all i (omega arith) (omega (arith, v.sized.sizes o ho)))
    go (some i) found =
        let hi = in_memory i found.1 found.2 in
        (
          hi,
          free-AllFree b v.sized v.tree o i ho hi (is_allocated_lem b o i ∙ found.2),
          λ k lt. set_not_free k (omega arith) (found.3 k (omega arith) lt),
        )
