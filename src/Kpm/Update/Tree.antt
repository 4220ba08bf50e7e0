-- ===== src/Kpm/Update/Tree.antt =====
-- The buddy tree: a block is allocated exactly if one of its two halves is. The loop over the
-- orders restores it after a change of the frames of one range.
use nulix.Common.{ℕ, suc, ◌+◌, ◌-◌, ◌*◌, ◌<◌, ◌≡◌, ◌⊎◌, ap, inl, inr, arith, dec_lt, ℕ_discrete}
use native.Mathlib.Nat.{pow-suc}
use nulix.Kpm.Buddy.{Buddy, norders, is_allocated, nblocks}
use nulix.Kpm.Update.{block_size}
use nulix.Kpm.Update.Order.{children}
use nulix.Kpm.Update.Range.{Misses, Updated}

abbrev pub TreeAt : Buddy → ℕ → ℕ → Type 0
TreeAt b n j = is_allocated b n j ≡ children b n j

pub record IsTree (b : Buddy) : Type 0 where
  pub at : (n j : ℕ) → 0 < n → n < norders → j < nblocks b.nframes n → TreeAt b n j

-- The tree holds at the orders below `n`, and at every block that the range misses.
abbrev pub Below : ℕ → ℕ → ℕ → Buddy → Type 0
Below n base end b =
    (m j : ℕ)
    → 0 < m
    → m < norders
    → j < nblocks b.nframes m
    → (m < n) ⊎ Misses base end m j
    → TreeAt b m j

-- A block that the range misses has halves that it misses.
Misses-child :
    (base end n j : ℕ)
    → Misses base end (suc n) j
    → Misses base end n (j * 2) × Misses base end n (j * 2 + 1)
Misses-child base end n j h = omega (arith, pow-suc 2 n, ap (λ (t : ℕ). j * t) (pow-suc 2 n))

meet_or_miss :
    (base limit n j : ℕ)
    → Misses base (base + limit) n j
      ⊎ ((0 < limit) × (j * block_size n < base + limit) × (base < (j + 1) * block_size n))
meet_or_miss base limit n j = ground (
  arith,
  dec_lt 0 limit,
  dec_lt (j * block_size n) (base + limit),
  dec_lt base ((j + 1) * block_size n),
)

pub Below-step :
    (n base limit : ℕ) (b b' : Buddy)
    → 0 < n
    → n < norders
    → Updated b n base limit b'
    → Below n base (base + limit) b
    → Below (n + 1) base (base + limit) b'
Below-step n base limit b b' pos hn u h m j mpos hm hj c = elim (ℕ_discrete m n) [
  | yes same ↦ rw same (elim (meet_or_miss base limit n j) [
    | inl miss ↦ ground (
      arith,
      u.missed j miss,
      u.others (n - 1) (j * 2),
      u.others (n - 1) (j * 2 + 1),
      h n j pos hn (rw (← u.frames, ← same) hj) (inr miss),
    )
    | inr met ↦
        ground
          (arith, u.met j met.0 met.1 met.2, u.others (n - 1) (j * 2), u.others (n - 1) (j * 2 + 1))
  ])
  | no ne ↦ elim (ℕ_discrete m (suc n)) [
    | yes above ↦
        let miss : Misses base (base + limit) m j = elim c [
          | inl lt ↦ absurd (omega arith)
          | inr x ↦ x
        ] in
        let halves = Misses-child base (base + limit) n j (rw above at miss) in
        ground (
          arith,
          u.others m j,
          u.missed (j * 2) halves.0,
          u.missed (j * 2 + 1) halves.1,
          h m j mpos hm (rw (← u.frames) hj) (inr miss),
        )
    | no far ↦
        let old : (m < n) ⊎ Misses base (base + limit) m j = elim c [
          | inl lt ↦ inl (omega arith)
          | inr x ↦ inr x
        ] in
        ground (
          arith,
          u.others m j,
          u.others (m - 1) (j * 2),
          u.others (m - 1) (j * 2 + 1),
          h m j mpos hm (rw (← u.frames) hj) old,
        )
  ]
]
