-- ===== src/Commands/Allotted.antt =====
-- kernel/nsh/builtins/alloc.c on the allocator of kernel/memory/kpm.c.
use nulix.Common.{
  ℕ, zero, suc, ◌+◌, ◌-◌, ◌*◌, ◌^◌, ◌≤◌, ◌≡◌, refl, ap, ◌==◌, true, false, Option, none, some, List,
  [], ◌∷◌, ◌++◌, arith, inl, inr, ◌⊎◌, ◌≢◌, ◌<◌, ℕ_discrete, dec_le,
}
use native.Mathlib.Nat.{one-le-pow}
use nulix.Kpm.Align.{page_size}
use nulix.Kpm.Buddy.{Buddy, is_allocated}
use nulix.Kpm.Update.Close.{IsValid}
use nulix.Kpm.Alloc.{Chunk, kpm_alloc, find_best_fit_order}
use nulix.Kpm.Alloc.Grant.{Granted, kpm_alloc-Outcome, kpm_alloc-none_iff}
use nulix.Kpm.Trace.{Step, Reach, later, Reach-Books}
use nulix.Stdlib.Strtol.{strtol}
use nulix.Commands.Args.{Argv, failed, done, has_rest}
use nulix.Commands.Memory.{Allocation, on_chunk, alloc_loop, alloc_rounds, alloc}

unfoldable pub total : List Chunk → ℕ
total [] = 0
total (c ∷ cs) = c.size + total cs

-- The loop ends with chunks of `size` bytes at least, or when no frame is left, and what it has taken
-- is live.
pub record Allotted (b : Buddy) (size : ℕ) (got base : List Chunk) (a : Allocation) : Type 0 where
  pub reach : Reach b (record { buddy = a.buddy; live = a.granted ++ base })
  pub enough : a.reply ≡ done → total got + size ≤ total a.granted
  pub full : a.reply ≡ failed → (j : ℕ) → j < a.buddy.nframes → is_allocated a.buddy 0 j ≡ true
  pub replies : (a.reply ≡ done) ⊎ (a.reply ≡ failed)

chunk-page :
    (b : Buddy) (size : ℕ) (chunk : Chunk) (b' : Buddy)
    → IsValid b
    → kpm_alloc size b ≡ some (chunk, b')
    → page_size ≤ chunk.size
chunk-page b size chunk b' v e =
    let g : Granted b (find_best_fit_order size + 1) chunk b' =
      rw e at (kpm_alloc-Outcome b size v) in
    omega (arith, g.taken.size, one-le-pow g.order 2 (omega arith))

allocation-cases :
    (o : Option (Chunk × Buddy)) → (o ≡ none) ⊎ ((c : Chunk) × (b : Buddy) × (o ≡ some (c, b)))
allocation-cases none = inl refl
allocation-cases (some (c, b)) = inr (c, b, refl)

loop-none :
    (fuel size : ℕ) (b : Buddy) (got : List Chunk)
    → size ≡ 0
    → alloc_loop (suc fuel) size b got ≡ some (record { reply = done; buddy = b; granted = got })
unfolding alloc_loop
loop-none fuel size b got e = rw e refl

-- A round that goes on to the allocator.
round-lem :
    (fuel size : ℕ) (b : Buddy) (got : List Chunk) (o : Option (Chunk × Buddy))
    → size ≢ 0
    → kpm_alloc size b ≡ o
    → alloc_loop (suc fuel) size b got ≡ on_chunk (alloc_loop fuel) size b got o
unfolding alloc_loop
round-lem fuel size b got o h e =
    let live : (size == 0) ≡ false = ground (arith, h) in
    rw live (ap (on_chunk (alloc_loop fuel) size b got) e)

-- From a state that the callers can reach, and with a round for each page, the loop of alloc ends.
pub alloc_loop-Allotted :
    (fuel size : ℕ) (b b' : Buddy) (got base : List Chunk)
    → IsValid b
    → Reach b (record { buddy = b'; live = got ++ base })
    → size + page_size ≤ 2 ^ 32
    → size + page_size ≤ fuel * page_size
    → (a : Allocation) × (alloc_loop fuel size b' got ≡ some a) × Allotted b size got base a
unfolding total
alloc_loop-Allotted zero size b b' got base v r h k = absurd (omega (arith, k))
alloc_loop-Allotted (suc fuel) size b b' got base v r h k =
    let valid = (Reach-Books v r).valid in
    elim (ℕ_discrete size 0) [
      | yes nothing ↦ (
        record { reply = done; buddy = b'; granted = got },
        loop-none fuel size b' got nothing,
        record {
          reach = r;
          enough = λ e. omega (arith, nothing);
          full = λ e. absurd (ground (arith, e));
          replies = inl refl;
        },
      )
      | no some_left ↦ elim (allocation-cases (kpm_alloc size b')) [
        | inl fail ↦ (
          record { reply = failed; buddy = b'; granted = got },
          round-lem fuel size b' got none some_left fail,
          record {
            reach = r;
            enough = λ e. absurd (ground (arith, e));
            full = λ e. (kpm_alloc-none_iff b' size valid).0 fail;
            replies = inr refl;
          },
        )
        | inr (c, b'', grant) ↦
            let round = round-lem fuel size b' got (some (c, b'')) some_left grant in
            let reach = later r (Step.alloc size c b'' grant) in
            elim (dec_le size c.size) [
              | yes enough ↦ (
                record { reply = done; buddy = b''; granted = c ∷ got },
                ground (arith, round, enough),
                record {
                  reach = reach;
                  enough = λ e. omega (arith, enough);
                  full = λ e. absurd (ground (arith, e));
                  replies = inl refl;
                },
              )
              | no short ↦
                  let page = chunk-page b' size c b'' valid grant in
                  let (a, e, done_) =
                    alloc_loop-Allotted fuel (size - c.size) b b'' (c ∷ got) base v reach
                      (omega arith) (omega arith) in
                  (
                    a,
                    ground (arith, round, e),
                    record {
                      reach = done_.reach;
                      enough = λ q. omega (arith, done_.enough q);
                      full = done_.full;
                      replies = done_.replies;
                    },
                  )
            ]
      ]
    ]

-- From an allocator that its callers can reach, alloc with a size that strtol reads in full,
-- below 2 GiB, returns: the chunks that it printed become live chunks of the allocator, and have
-- the size asked for together, unless it failed, and then no frame is free.
pub alloc-Allotted :
    (argc : ℕ) (argv : Argv) (b b' : Buddy) (base : List Chunk)
    → IsValid b
    → Reach b (record { buddy = b'; live = base })
    → 2 ≤ argc
    → has_rest (argv 1) (strtol (argv 1) 0) ≡ false
    → (strtol (argv 1) 0).value < 2 ^ 31
    → (a : Allocation) × (alloc argc argv b' ≡ some a)
      × Allotted b (strtol (argv 1) 0).value [] base a
unfolding alloc
alloc-Allotted argc argv b b' base v r n whole small =
    let size = (strtol (argv 1) 0).value in
    let (a, e, allotted) =
      alloc_loop-Allotted (alloc_rounds size) size b b' [] base v r (omega (arith, small))
        (omega arith) in
    (a, ground (arith, e, whole, small, n), allotted)
