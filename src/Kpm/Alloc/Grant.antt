-- ===== src/Kpm/Alloc/Grant.antt =====
-- `find_best_fit_order` and `kpm_alloc`: which block is granted, and when none is.
use nulix.Common.{
  ℕ, zero, suc, ◌+◌, ◌*◌, ◌/◌, ◌^◌, ◌≤◌, ◌<◌, ◌≡◌, refl, true, arith, leb, Bool-cases, inl, inr,
  Option, none, some, ◌⊎◌, ◌↔◌, ℕ_discrete,
}
use native.Mathlib.Nat.{one-le-pow}
use nulix.Kpm.Align.{page_size, align_next, align_next_lem}
use nulix.Kpm.Bitmap.Search.{bitmap_ffu}
use nulix.Kpm.Buddy.{Buddy, norders, order_at, is_allocated, nblocks}
use nulix.Kpm.Buddy.Sized.{nblocks-zero}
use nulix.Kpm.Update.{block_size}
use nulix.Kpm.Update.Close.{IsValid}
use nulix.Kpm.Alloc.{Chunk, fit_from, find_best_fit_order, take_block, alloc_from, kpm_alloc}
use nulix.Kpm.Alloc.Blocks.{AllFree, Searched, search_order}
use nulix.Kpm.Alloc.Take.{Taken, take_block-Taken}

fit_from_lem :
    (rounds n nframes : ℕ)
    → n + rounds ≡ norders
    → ((m : ℕ) → m < n → 2 ^ m < nframes)
    → (fit_from rounds n nframes < norders)
      × ((nframes ≤ 2 ^ fit_from rounds n nframes) ⊎ (fit_from rounds n nframes ≡ 10))
      × ((m : ℕ) → m < fit_from rounds n nframes → 2 ^ m < nframes)
unfolding fit_from
fit_from_lem zero n nframes e small = (omega arith, inr refl, λ m h. small m (omega arith))
fit_from_lem (suc rounds) n nframes e small = elim (Bool-cases (leb nframes (2 ^ n))) [
  | inl enough ↦ rw enough (omega arith, inl (ground arith), small)
  | inr short ↦ rw short (
      fit_from_lem rounds (n + 1) nframes (omega arith) (λ m h. elim (ℕ_discrete m n) [
        | yes same ↦ rw same (ground arith)
        | no ne ↦ small m (omega arith)
      ]))
]

find_best_fit_order-lt : (size : ℕ) → find_best_fit_order size < norders
unfolding find_best_fit_order
find_best_fit_order-lt size =
    (fit_from_lem norders 0 (align_next size page_size / page_size) (omega arith)
      (λ m lt. absurd (omega arith))).0

-- For a size of at most 4 GiB less a page, the order is the smallest whose block holds `size`
-- bytes, or the largest order, 10, if none does.
pub find_best_fit_order_lem :
    (size : ℕ)
    → size + page_size ≤ 2 ^ 32
    → (find_best_fit_order size < norders)
      × ((size ≤ block_size (find_best_fit_order size)) ⊎ (find_best_fit_order size ≡ 10))
      × ((m : ℕ) → m < find_best_fit_order size → block_size m < size)
unfolding find_best_fit_order
find_best_fit_order_lem size h =
    let fit =
      fit_from_lem norders 0 (align_next size page_size / page_size) (omega arith)
        (λ m lt. absurd (omega arith)) in
    let frames : align_next size page_size / page_size ≡ (size + 4095) / page_size =
      omega (arith, align_next_lem 12 size (omega arith) (omega arith)) in
    (
      fit.0,
      elim fit.1 [ inl enough ↦ inl (omega (arith, frames)) | inr top ↦ inr top ],
      λ m lt. omega (arith, fit.2 m lt, frames),
    )

-- What is known of the blocks of the orders below `n` when the loop ends.
pub record Granted (b : Buddy) (n : ℕ) (chunk : Chunk) (b' : Buddy) : Type 0 where
  pub order : ℕ
  pub block : ℕ
  pub fits : order < n
  pub taken : Taken b order block chunk b'
  pub free : AllFree b order block
  pub first : (k : ℕ) → k < block → ¬ AllFree b order k
  pub largest : (o k : ℕ) → order < o → o < n → k < nblocks b.nframes o → ¬ AllFree b o k

abbrev pub Outcome : Buddy → ℕ → Option (Chunk × Buddy) → Type 0
Outcome b n none = (o k : ℕ) → o < n → k < nblocks b.nframes o → ¬ AllFree b o k
Outcome b n (some (chunk, b')) = Granted b n chunk b'

Outcome-suc :
    (b : Buddy) (o : ℕ) (r : Option (Chunk × Buddy))
    → ((k : ℕ) → k < nblocks b.nframes o → ¬ AllFree b o k)
    → Outcome b o r
    → Outcome b (suc o) r
Outcome-suc b o none full rest = λ o' k lt hk. elim (ℕ_discrete o' o) [
  | yes same ↦ rw same (full k (rw (← same) hk))
  | no ne ↦ rest o' k (omega arith) hk
]
Outcome-suc b o (some (chunk, b')) full g = record {
  order = g.order;
  block = g.block;
  taken = g.taken;
  free = g.free;
  first = g.first;
  fits = omega (arith, g.fits);
  largest = λ o' k up lt hk. elim (ℕ_discrete o' o) [
    | yes same ↦ rw same (full k (rw (← same) hk))
    | no ne ↦ g.largest o' k up (omega arith) hk
  ];
}

pub alloc_from-Outcome :
    (n : ℕ) (b : Buddy) → IsValid b → n ≤ norders → Outcome b n (alloc_from n b)
unfolding alloc_from
alloc_from-Outcome zero b v h = λ o k lt. absurd (omega arith)
alloc_from-Outcome (suc o) b v h =
    go (bitmap_ffu (order_at b o).bitmap (order_at b o).size) (search_order b o v h)
      (alloc_from-Outcome o b v (omega arith))
  where
    go :
        (r : Option ℕ)
        → Searched b o r
        → Outcome b o (alloc_from o b)
        → Outcome b (suc o) (elim r [ none ↦ alloc_from o b | some i ↦ some (take_block o i b) ])
    go none full rest = Outcome-suc b o _ full rest
    go (some i) hit rest = record {
      order = o;
      block = i;
      fits = omega arith;
      taken = take_block-Taken b o i v h hit.0;
      free = hit.1;
      first = hit.2;
      largest = λ o' k up lt hk. absurd (omega arith);
    }

-- What `kpm_alloc` grants of a valid allocator is a block of the largest order, up to the one of
-- `find_best_fit_order`, that has a block whose frames are all free, and the first such block of
-- that order; it fails exactly if no order up to that one has such a block.
pub kpm_alloc-Outcome :
    (b : Buddy) (size : ℕ) → IsValid b → Outcome b (find_best_fit_order size + 1) (kpm_alloc size b)
unfolding kpm_alloc
kpm_alloc-Outcome b size v =
    alloc_from-Outcome (find_best_fit_order size + 1) b v
      (omega (arith, find_best_fit_order-lt size))

-- A valid allocator fails exactly if no frame is free, whatever the size.
pub kpm_alloc-none_iff :
    (b : Buddy) (size : ℕ)
    → IsValid b
    → (kpm_alloc size b ≡ none) ↔ ((j : ℕ) → j < b.nframes → is_allocated b 0 j ≡ true)
kpm_alloc-none_iff b size v = go (kpm_alloc size b) (kpm_alloc-Outcome b size v)
  where
    all_set : (j : ℕ) → ¬ AllFree b 0 j → is_allocated b 0 j ≡ true
    all_set j busy = elim (Bool-cases (is_allocated b 0 j)) [
      | inl e ↦ e
      | inr e ↦ absurd (busy (λ k lo up. let same : k ≡ j = omega arith in rw same e))
    ]

    not_all :
        (chunk : Chunk) (b' : Buddy)
        → Granted b (find_best_fit_order size + 1) chunk b'
        → ¬ ((j : ℕ) → j < b.nframes → is_allocated b 0 j ≡ true)
    not_all chunk b' g all =
        let pos = one-le-pow g.order 2 (omega arith) in
        let free = g.free (g.block * 2 ^ g.order) (omega arith) (omega (arith, pos)) in
        let busy =
          all (g.block * 2 ^ g.order)
            (omega (arith, pos, g.taken.inside, g.taken.addr, g.taken.size)) in
        cc (free, busy)

    go :
        (r : Option (Chunk × Buddy))
        → Outcome b (find_best_fit_order size + 1) r
        → (r ≡ none) ↔ ((j : ℕ) → j < b.nframes → is_allocated b 0 j ≡ true)
    go none full =
        (λ e j hj. all_set j (full 0 j (omega arith) (rw (nblocks-zero b.nframes) hj)), λ all. refl)
    go (some (chunk, b')) g = (λ e. cc, λ all. absurd (not_all chunk b' g all))
