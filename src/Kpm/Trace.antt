-- ===== src/Kpm/Trace.antt =====
-- The callers of kernel/memory/kpm.c: any sequence of `kpm_alloc` and `kpm_free` calls that frees
-- only chunks that it holds.
use nulix.Common.{
  ℕ, ◌+◌, ◌*◌, ◌%◌, ◌≤◌, ◌<◌, ◌≡◌, refl, ◌∙◌, true, false, ◌||◌, arith, ltb, if◌then◌else◌, some,
  List, [], ◌∷◌, ◌++◌,
}
use nulix.Kpm.Align.{page_size}
use nulix.Kpm.Buddy.{Buddy, is_allocated, is_enabled}
use nulix.Kpm.Update.Close.{IsValid}
use nulix.Kpm.Region.Enable.{frame_met}
use nulix.Kpm.Alloc.{Chunk, kpm_alloc, kpm_free, find_best_fit_order}
use nulix.Kpm.Alloc.Grant.{Granted, kpm_alloc-Outcome}
use nulix.Kpm.Alloc.Free.{Freed, kpm_free-Freed, met_block}

-- The allocator, and the chunks that its callers hold.
pub record System : Type 0 where
  pub buddy : Buddy
  pub live : List Chunk

pub data Step (s : System) : System → Type 0 where
  alloc :
      (size : ℕ) (chunk : Chunk) (b : Buddy)
      → kpm_alloc size s.buddy ≡ some (chunk, b)
      → Step s (record { buddy = b; live = chunk ∷ s.live })
  free :
      (before after : List Chunk) (chunk : Chunk)
      → s.live ≡ before ++ (chunk ∷ after)
      → Step s (record { buddy = kpm_free chunk s.buddy; live = before ++ after })

pub data Reach (b : Buddy) : System → Type 0 where
  start : Reach b (record { buddy = b; live = [] })
  later : {s t : System} → Reach b s → Step s t → Reach b t

-- How many of the chunks meet a frame.
unfoldable pub owners : List Chunk → ℕ → ℕ
owners [] j = 0
owners (c ∷ cs) j = (if frame_met c.addr c.size j then 1 else 0) + owners cs j

owners-append : (xs ys : List Chunk) (j : ℕ) → owners (xs ++ ys) j ≡ owners xs j + owners ys j
unfolding owners
owners-append [] ys j = omega arith
owners-append (x ∷ xs) ys j = omega (arith, owners-append xs ys j)

abbrev InMemory : Buddy → Chunk → Type 0
InMemory b c = (c.addr % page_size ≡ 0) × (c.addr + c.size ≤ b.nframes * page_size)

abbrev AllIn : Buddy → List Chunk → Type 0
AllIn b [] = Unit
AllIn b (c ∷ cs) = InMemory b c × AllIn b cs

AllIn-append : (b : Buddy) (xs ys : List Chunk) → AllIn b xs → AllIn b ys → AllIn b (xs ++ ys)
AllIn-append b [] ys h k = k
AllIn-append b (x ∷ xs) ys h k = (h.0, AllIn-append b xs ys h.1 k)

AllIn-split : (b : Buddy) (xs ys : List Chunk) → AllIn b (xs ++ ys) → AllIn b xs × AllIn b ys
AllIn-split b [] ys h = (tt, h)
AllIn-split b (x ∷ xs) ys h = let both = AllIn-split b xs ys h.1 in ((h.0, both.0), both.1)

-- The books: what is allocated is what was at the start, and the frames of the live chunks, each
-- owned once.
pub record Books (b : Buddy) (s : System) : Type 0 where
  pub valid : IsValid s.buddy
  pub frames : s.buddy.nframes ≡ b.nframes
  pub enabled : (j : ℕ) → is_enabled s.buddy j ≡ is_enabled b j
  pub in_memory : AllIn b s.live
  pub once : (j : ℕ) → owners s.live j ≤ 1
  pub was_free : (j : ℕ) → j < b.nframes → 0 < owners s.live j → is_allocated b 0 j ≡ false
  pub account :
      (j : ℕ)
      → j < b.nframes
      → is_allocated s.buddy 0 j ≡ (is_allocated b 0 j || ltb 0 (owners s.live j))

alloc-Books :
    (b : Buddy) (s : System) (size : ℕ) (chunk : Chunk) (b' : Buddy)
    → IsValid b
    → kpm_alloc size s.buddy ≡ some (chunk, b')
    → Books b s
    → Books b (record { buddy = b'; live = chunk ∷ s.live })
unfolding owners
alloc-Books b s size chunk b' v e k = record {
  valid = taken.valid;
  frames = taken.frames ∙ k.frames;
  enabled = λ j. taken.enabled j ∙ k.enabled j;
  in_memory = (omega (arith, taken.addr, taken.inside, k.frames), k.in_memory);
  once = λ j. ground (arith, fresh j, k.once j);
  was_free = λ j hj pos. ground (arith, fresh j, k.was_free j hj);
  account = λ j hj. ground (arith, fresh j, k.account j hj, taken.bits j, met_block g.taken j);
}
  where
    g : Granted s.buddy (find_best_fit_order size + 1) chunk b'
    g = rw e at (kpm_alloc-Outcome s.buddy size k.valid)

    open g use {taken}

    -- A frame of the new chunk was free, and nobody's.
    fresh :
        (j : ℕ)
        → frame_met chunk.addr chunk.size j ≡ true
        → (is_allocated b 0 j ≡ false) × (owners s.live j ≡ 0)
    fresh j m =
        let hj : j < b.nframes = ground (arith, taken.inside, k.frames) in
        let free =
          g.free j (ground (arith, met_block taken j)) (ground (arith, met_block taken j)) in
        (ground (arith, k.account j hj), ground (arith, k.account j hj))

free-Books :
    (b : Buddy) (s : System) (before after : List Chunk) (chunk : Chunk)
    → IsValid b
    → s.live ≡ before ++ (chunk ∷ after)
    → Books b s
    → Books b (record { buddy = kpm_free chunk s.buddy; live = before ++ after })
unfolding owners
free-Books b s before after chunk v e k = record {
  valid = freed.valid;
  frames = freed.frames ∙ k.frames;
  enabled = λ j. freed.enabled j ∙ k.enabled j;
  in_memory = AllIn-append b before after parts.0 parts.1.1;
  once = λ j. omega (arith, fewer j, k.once j);
  was_free = λ j hj pos. k.was_free j hj (omega (arith, fewer j));
  account = λ j hj. ground (
    arith,
    freed.bits j (rw k.frames hj),
    k.account j hj,
    k.was_free j hj,
    k.once j,
    k.enabled j,
    fewer j,
    v.disabled j hj,
  );
}
  where
    parts : AllIn b before × (InMemory b chunk × AllIn b after)
    parts = AllIn-split b before (chunk ∷ after) (rw e at k.in_memory)

    freed : Freed s.buddy chunk (kpm_free chunk s.buddy)
    freed = kpm_free-Freed s.buddy chunk k.valid parts.1.0.0 (rw k.frames parts.1.0.1)

    fewer :
        (j : ℕ)
        → owners s.live j
          ≡ owners (before ++ after) j + (if frame_met chunk.addr chunk.size j then 1 else 0)
    fewer j =
        rw e (omega (arith, owners-append before (chunk ∷ after) j, owners-append before after j))

start-Books : (b : Buddy) → IsValid b → Books b (record { buddy = b; live = [] })
unfolding owners
start-Books b v = record {
  valid = v;
  frames = refl;
  enabled = λ j. refl;
  in_memory = tt;
  once = λ j. omega arith;
  was_free = λ j hj pos. absurd (omega arith);
  account = λ j hj. ground arith;
}

-- From a valid allocator, whatever chunks the callers take and give back in whatever order: the
-- invariant holds, no frame belongs to two live chunks, the frames of a live chunk were free at
-- the start, and a frame is allocated exactly if it was at the start or belongs to a live chunk.
pub Reach-Books : {b : Buddy} {s : System} → IsValid b → Reach b s → Books b s
Reach-Books {b} v start = start-Books b v
Reach-Books {b} v (later {s} r (alloc size chunk b' e)) =
    alloc-Books b s size chunk b' v e (Reach-Books v r)
Reach-Books {b} v (later {s} r (free before after chunk e)) =
    free-Books b s before after chunk v e (Reach-Books v r)
