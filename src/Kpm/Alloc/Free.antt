-- ===== src/Kpm/Alloc/Free.antt =====
-- `kpm_free`: which frames it frees, and that it undoes `kpm_alloc`.
use nulix.Common.{
  ℕ, zero, suc, ◌+◌, ◌-◌, ◌*◌, ◌/◌, ◌%◌, ◌≤◌, ◌<◌, ◌≡◌, refl, ◌∙◌, true, false, not, ◌&&◌, arith,
  if◌then◌else◌, Bool-cases, Bool-ext, inl, inr, dec_lt, some, ℕ_discrete,
}
use native.Mathlib.Nat.{one-le-pow}
use nulix.Kpm.Align.{page_size, align_next, is_aligned}
use nulix.Kpm.Buddy.{Buddy, norders, is_allocated, is_enabled, free_bit, nblocks}
use nulix.Kpm.Buddy.Sized.{nblocks-zero, nblocks-half, IsSized, is_enabled-free_bit}
use nulix.Kpm.Buddy.Frames.{Marked, Marked-none, Marked-step, free_bit-Marked, free_bit_self}
use nulix.Kpm.Update.{update_all}
use nulix.Kpm.Update.Close.{IsValid, Closed, update_all-Closed}
use nulix.Kpm.Region.Clip.{page_aligned, page_next}
use nulix.Kpm.Region.Enable.{frame_met}
use nulix.Kpm.Alloc.{Chunk, free_frames, kpm_free, find_best_fit_order, kpm_alloc}
use nulix.Kpm.Alloc.Grant.{Granted, kpm_alloc-Outcome}
use nulix.Kpm.Alloc.Take.{Taken, in_block}

pub record FramesFreed (b : Buddy) (lo hi : ℕ) (b' : Buddy) : Type 0 where
  pub bit :
      (j : ℕ)
      → lo ≤ j
      → j < hi
      → is_allocated b' 0 j ≡ (if is_enabled b j then false else is_allocated b 0 j)
  pub on : (j : ℕ) → is_enabled b' j ≡ is_enabled b j

free_one :
    (b : Buddy) (i : ℕ)
    → IsSized b
    → i < b.nframes
    → Marked b i (i + 1) (if is_enabled b i then free_bit b 0 i else b)
      × FramesFreed b i (i + 1) (if is_enabled b i then free_bit b 0 i else b)
free_one b i s hi = elim (Bool-cases (is_enabled b i)) [
  | inl e ↦ rw e (
    free_bit-Marked b i s hi,
    record {
      bit = λ j lo up. let same : j ≡ i = omega arith in rw (same, e) (free_bit_self b i s hi);
      on = λ j. is_enabled-free_bit b 0 i j;
    },
  )
  | inr e ↦ rw e (
    Marked-none b i (i + 1) s,
    record { bit = λ j lo up. let same : j ≡ i = omega arith in rw (same, e); on = λ j. refl },
  )
]

pub free_frames-Marked :
    (rounds i : ℕ) (b : Buddy)
    → IsSized b
    → i + rounds ≤ b.nframes
    → Marked b i (i + rounds) (free_frames rounds i b)
      × FramesFreed b i (i + rounds) (free_frames rounds i b)
unfolding free_frames
free_frames-Marked zero i b s h =
    (Marked-none b i (i + 0) s, record { bit = λ j l u. absurd (omega arith); on = λ j. refl })
free_frames-Marked (suc rounds) i b s h =
    let c = if is_enabled b i then free_bit b 0 i else b in
    let here = free_one b i s (omega arith) in
    let rest = free_frames-Marked rounds (i + 1) c here.0.sized (omega (arith, here.0.frames)) in
    let e : i + suc rounds ≡ i + 1 + rounds = omega arith in
    rw e (
      Marked-step (omega arith) here.0 rest.0,
      record {
        bit = λ j l u. elim (ℕ_discrete j i) [
          | yes same ↦
              rw same (rest.0.outside i (omega arith) ∙ here.1.bit i (omega arith) (omega arith))
          | no ne ↦
              ground
                (arith, rest.1.bit j (omega arith) u, here.1.on j, here.0.outside j (omega arith))
        ];
        on = λ j. rest.1.on j ∙ here.1.on j;
      },
    )

-- What freeing a chunk does.
pub record Freed (b : Buddy) (chunk : Chunk) (b' : Buddy) : Type 0 where
  pub valid : IsValid b'
  pub frames : b'.nframes ≡ b.nframes
  pub extent : b'.size ≡ b.size
  pub bits :
      (j : ℕ)
      → j < b.nframes
      → is_allocated b' 0 j ≡ (
          if frame_met chunk.addr chunk.size j && is_enabled b j then false else is_allocated b 0 j)
  pub enabled : (j : ℕ) → is_enabled b' j ≡ is_enabled b j

-- For a chunk that begins on a page and lies in memory, `kpm_free` keeps the invariant, frees
-- exactly the enabled frames that the chunk meets, and leaves every other frame as it was.
pub kpm_free-Freed :
    (b : Buddy) (chunk : Chunk)
    → IsValid b
    → chunk.addr % page_size ≡ 0
    → chunk.addr + chunk.size ≤ b.nframes * page_size
    → Freed b chunk (kpm_free chunk b)
unfolding kpm_free
kpm_free-Freed b chunk v page inside =
    rw (aligned, rounded)
      (record {
        valid = closed.valid;
        frames = closed.frames;
        extent = closed.extent;
        bits = λ j hj. closed.allocated j ∙ bit j hj;
        enabled = λ j. closed.enabled j ∙ done.1.on j;
      })
  where
    aligned : not (is_aligned chunk.addr page_size) ≡ false
    aligned = ground (arith, page_aligned chunk.addr, v.sized.small)

    n : ℕ
    n = (chunk.size + 4095) / page_size

    rounded : align_next chunk.size page_size / page_size ≡ n
    rounded = omega (arith, page_next chunk.size (omega (arith, v.sized.small, v.sized.whole)))

    lo : ℕ
    lo = chunk.addr / page_size

    c : Buddy
    c = free_frames n lo b

    done : Marked b lo (lo + n) c × FramesFreed b lo (lo + n) c
    done = free_frames-Marked n lo b v.sized (omega arith)

    bit :
        (j : ℕ)
        → j < b.nframes
        → is_allocated c 0 j ≡ (
            if frame_met chunk.addr chunk.size j && is_enabled b j
            then false
            else is_allocated b 0 j)
    bit j hj = elim (dec_lt j lo) [
      | yes below ↦ ground (arith, done.0.outside j (inl below))
      | no above ↦ elim (dec_lt j (lo + n)) [
        | yes low ↦ ground (arith, done.1.bit j (omega arith) low)
        | no high ↦ ground (arith, done.0.outside j (inr (omega arith)))
      ]
    ]

    still : (j : ℕ) → j < b.nframes → is_enabled c j ≡ false → is_allocated c 0 j ≡ true
    still j hj off = ground (arith, bit j hj, v.disabled j hj, done.1.on j)

    closed : Closed b c (update_all chunk.addr chunk.size c)
    closed =
        update_all-Closed b c chunk.addr chunk.size lo (lo + n) v done.0
          (record { low = omega arith; high = omega arith; empty = λ e. omega arith }) (omega arith)
          inside still

-- The bits of every order follow from those of the frames.
pub frames_determine :
    (b b' : Buddy)
    → IsValid b
    → IsValid b'
    → b'.nframes ≡ b.nframes
    → ((j : ℕ) → j < b.nframes → is_allocated b' 0 j ≡ is_allocated b 0 j)
    → (n j : ℕ) → n < norders
    → j < nblocks b.nframes n
    → is_allocated b' n j ≡ is_allocated b n j
frames_determine b b' v v' same h zero j hn hj = h j (rw (nblocks-zero b.nframes) at hj)
frames_determine b b' v v' same h (suc n) j hn hj =
    let half = nblocks-half b.nframes n v.sized.whole (omega arith) in
    let below : suc n - 1 ≡ n = omega arith in
    ground (
      arith,
      below,
      v.tree.at (suc n) j (omega arith) hn hj,
      v'.tree.at (suc n) j (omega arith) hn (rw same hj),
      frames_determine b b' v v' same h n (j * 2) (omega arith) (omega (arith, half)),
      frames_determine b b' v v' same h n (j * 2 + 1) (omega arith) (omega (arith, half)),
    )

-- The frames of a taken block, by index and by address.
pub met_block :
    {b b' : Buddy} {o i : ℕ} {chunk : Chunk}
    → Taken b o i chunk b'
    → (j : ℕ) → frame_met chunk.addr chunk.size j ≡ in_block o i j
met_block {o = o} taken j =
    Bool-ext _ _ (λ m. ground (arith, taken.addr, taken.size))
      (λ m. ground (arith, taken.addr, taken.size, one-le-pow o 2))

-- Freeing the chunk that `kpm_alloc` has just granted of a valid allocator gives back every bit
-- of every order, and of `enabled_frames`, and keeps the invariant.
pub kpm_free-kpm_alloc :
    (b : Buddy) (size : ℕ) (chunk : Chunk) (b' : Buddy)
    → IsValid b
    → kpm_alloc size b ≡ some (chunk, b')
    → IsValid (kpm_free chunk b')
      × ((n j : ℕ)
          → n < norders
          → j < nblocks b.nframes n
          → is_allocated (kpm_free chunk b') n j ≡ is_allocated b n j)
      × ((j : ℕ) → is_enabled (kpm_free chunk b') j ≡ is_enabled b j)
kpm_free-kpm_alloc b size chunk b' v e = (
  freed.valid,
  frames_determine b (kpm_free chunk b') v freed.valid (freed.frames ∙ taken.frames) leaf,
  λ j. freed.enabled j ∙ taken.enabled j,
)
  where
    g : Granted b (find_best_fit_order size + 1) chunk b'
    g = rw e at (kpm_alloc-Outcome b size v)

    open g use {taken}

    freed : Freed b' chunk (kpm_free chunk b')
    freed =
        kpm_free-Freed b' chunk taken.valid (omega (arith, taken.addr))
          (omega (arith, taken.inside, taken.frames))

    leaf : (j : ℕ) → j < b.nframes → is_allocated (kpm_free chunk b') 0 j ≡ is_allocated b 0 j
    leaf j hj = ground (
      arith,
      freed.bits j (rw taken.frames hj),
      met_block taken j,
      taken.bits j,
      taken.enabled j,
      g.free j,
      v.disabled j hj,
    )
