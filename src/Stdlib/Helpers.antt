-- ===== src/Stdlib/Helpers.antt =====
-- lib/std/abs.c and lib/std/bsearch.c: absolute values of words in two's complement, and a search
-- through an array whose items are compared by an argument.
use nulix.Common.{
  ℕ, zero, suc, ◌+◌, ◌-◌, ◌*◌, ◌%◌, ◌^◌, ◌<◌, ◌≡◌, ◌≢◌, ap, ◌∙◌, sym, ◌==◌, ==_iff, leb,
  if◌then◌else◌, Option, none, some, arith, Bool-cases, inl, inr,
}

-- `x < 0 ? -x : x` in `w` bits.
unfoldable pub absolute : ℕ → ℕ → ℕ
absolute w x = if leb (2 ^ (w - 1)) x then (2 ^ w - x) % 2 ^ w else x

abbrev pub abs : ℕ → ℕ
abs x = absolute 32 x

abbrev pub labs : ℕ → ℕ
labs x = absolute 32 x

abbrev pub llabs : ℕ → ℕ
llabs x = absolute 64 x

-- The loop of bsearch, with `n` items left from the item at `ptr` on; `compar` is given an item's
-- address.
unfoldable pub bsearch : (ℕ → ℕ) → ℕ → ℕ → ℕ → Option ℕ
bsearch compar ptr zero size = none
bsearch compar ptr (suc n) size =
    let rest = bsearch compar (ptr + size) n size in if compar ptr == 0 then some ptr else rest

-- What a search finds: the first item that compares equal, or none if there is none.
pub data Search (compar : ℕ → ℕ) (base n size : ℕ) : Option ℕ → Type 0 where
  hit :
      (i : ℕ)
      → i < n
      → compar (base + i * size) ≡ 0
      → ((j : ℕ) → j < i → compar (base + j * size) ≢ 0)
      → Search compar base n size (some (base + i * size))
  miss : ((j : ℕ) → j < n → compar (base + j * size) ≢ 0) → Search compar base n size none

next_item : (base i size : ℕ) → base + size + i * size ≡ base + suc i * size
next_item base i size = omega arith

-- An item that differs, before items that differ.
differ-suc :
    (compar : ℕ → ℕ) (base n size : ℕ)
    → compar base ≢ 0
    → ((j : ℕ) → j < n → compar (base + size + j * size) ≢ 0)
    → (j : ℕ) → j < suc n
    → compar (base + j * size) ≢ 0
differ-suc compar base n size first all zero h e = first (ap compar (omega arith) ∙ e)
differ-suc compar base n size first all (suc j) h e =
    all j (omega arith) (ap compar (next_item base j size) ∙ e)

Search-suc :
    (compar : ℕ → ℕ) (base n size : ℕ) (r : Option ℕ)
    → compar base ≢ 0
    → Search compar (base + size) n size r
    → Search compar base (suc n) size r
Search-suc compar base n size _ first (hit i h e before) = rw (next_item base i size) (
    hit (suc i) (omega arith) (ap compar (sym (next_item base i size)) ∙ e)
      (differ-suc compar base i size first before))
Search-suc compar base n size _ first (miss all) = miss (differ-suc compar base n size first all)

first_hit :
    (compar : ℕ → ℕ) (base n size : ℕ)
    → compar base ≡ 0
    → Search compar base (suc n) size (some base)
first_hit compar base n size e =
    let here : base ≡ base + 0 * size = omega arith in
    let found : Search compar base (suc n) size (some (base + 0 * size)) =
      hit 0 (omega arith) (ap compar (sym here) ∙ e) (λ j h. absurd (omega arith)) in
    rw (← here) at found

-- bsearch searches in order.
pub bsearch-Search :
    (compar : ℕ → ℕ) (base n size : ℕ) → Search compar base n size (bsearch compar base n size)
unfolding bsearch
bsearch-Search compar base zero size = miss (λ j h. absurd (omega arith))
bsearch-Search compar base (suc n) size = elim (Bool-cases (compar base == 0)) [
  | inl found ↦ rw found (first_hit compar base n size ((==_iff _ _).0 found))
  | inr other ↦ rw other (
      Search-suc compar base n size _ (ground (arith, other))
        (bsearch-Search compar (base + size) n size))
]
