-- ===== src/Kpm/Alloc/Take.antt =====
-- Taking one free block: the frames that it marks, and the chunk that it reports.
use nulix.Common.{
  ℕ, zero, suc, ◌+◌, ◌*◌, ◌^◌, ◌≤◌, ◌<◌, ◌≡◌, refl, ◌∙◌, Bool, true, false, ◌&&◌, arith, ltb, leb,
  if◌then◌else◌, inl, inr, dec_lt, ℕ_discrete,
}
use native.Mathlib.Nat.{one-le-pow}
use nulix.Kpm.Align.{page_size, u32}
use nulix.Kpm.Buddy.{Buddy, norders, is_allocated, is_enabled, alloc_bit, nblocks}
use nulix.Kpm.Buddy.Sized.{IsSized, nblocks-whole, is_enabled-alloc_bit}
use nulix.Kpm.Buddy.Frames.{Marked, Marked-none, Marked-step, alloc_bit-Marked, alloc_bit_self}
use nulix.Kpm.Update.{block_size, update_all}
use nulix.Kpm.Update.Close.{IsValid, Closed, update_all-Closed}
use nulix.Kpm.Alloc.{Chunk, alloc_frames, take_block}

pub record FramesTaken (b : Buddy) (lo hi : ℕ) (b' : Buddy) : Type 0 where
  pub bit : (j : ℕ) → lo ≤ j → j < hi → is_allocated b' 0 j ≡ true
  pub on : (j : ℕ) → is_enabled b' j ≡ is_enabled b j

pub alloc_frames-Marked :
    (rounds index : ℕ) (b : Buddy)
    → IsSized b
    → index + rounds ≤ b.nframes
    → Marked b index (index + rounds) (alloc_frames rounds index b)
      × FramesTaken b index (index + rounds) (alloc_frames rounds index b)
unfolding alloc_frames
alloc_frames-Marked zero index b s h = (
  Marked-none b index (index + 0) s,
  record { bit = λ j l u. absurd (omega arith); on = λ j. refl },
)
alloc_frames-Marked (suc rounds) index b s h =
    let here = alloc_bit-Marked b index s (omega arith) in
    let rest =
      alloc_frames-Marked rounds (index + 1) (alloc_bit b 0 index) here.sized
        (omega (arith, here.frames)) in
    let e : index + suc rounds ≡ index + 1 + rounds = omega arith in
    rw e (
      Marked-step (omega arith) here rest.0,
      record {
        bit = λ j l u. elim (ℕ_discrete j index) [
          | yes same ↦
              rw same (rest.0.outside index (omega arith) ∙ alloc_bit_self b index s (omega arith))
          | no ne ↦ rest.1.bit j (omega arith) u
        ];
        on = λ j. rest.1.on j ∙ is_enabled-alloc_bit b 0 index j;
      },
    )

-- The frames of block `i` of order `o`.
abbrev pub in_block : ℕ → ℕ → ℕ → Bool
in_block o i j = leb (i * 2 ^ o) j && ltb j ((i + 1) * 2 ^ o)

-- What taking block `i` of order `o` does.
pub record Taken (b : Buddy) (o i : ℕ) (chunk : Chunk) (b' : Buddy) : Type 0 where
  pub valid : IsValid b'
  pub frames : b'.nframes ≡ b.nframes
  pub extent : b'.size ≡ b.size
  pub addr : chunk.addr ≡ i * block_size o
  pub size : chunk.size ≡ block_size o
  pub inside : chunk.addr + chunk.size ≤ b.nframes * page_size
  pub bits : (j : ℕ) → is_allocated b' 0 j ≡ (if in_block o i j then true else is_allocated b 0 j)
  pub enabled : (j : ℕ) → is_enabled b' j ≡ is_enabled b j

pub take_block-Taken :
    (b : Buddy) (o i : ℕ)
    → IsValid b
    → o < norders
    → i < nblocks b.nframes o
    → Taken b o i (take_block o i b).0 (take_block o i b).1
unfolding take_block
take_block-Taken b o i v ho hi = rw place (record {
  valid = closed.valid;
  frames = closed.frames;
  extent = closed.extent;
  addr = refl;
  size = refl;
  inside = omega (arith, fit);
  bits = λ j. closed.allocated j ∙ bit j;
  enabled = λ j. closed.enabled j ∙ done.1.on j;
})
  where
    fit : i * 2 ^ o + 2 ^ o ≤ b.nframes
    fit = grind (arith, nblocks-whole b.nframes o v.sized.whole ho)

    place : u32 (i * page_size * 2 ^ o) ≡ i * block_size o
    place = omega (arith, fit, v.sized.small, one-le-pow o 2)

    c : Buddy
    c = alloc_frames (2 ^ o) (i * 2 ^ o) b

    done :
        Marked b (i * 2 ^ o) (i * 2 ^ o + 2 ^ o) c × FramesTaken b (i * 2 ^ o) (i * 2 ^ o + 2 ^ o) c
    done = alloc_frames-Marked (2 ^ o) (i * 2 ^ o) b v.sized fit

    bit : (j : ℕ) → is_allocated c 0 j ≡ (if in_block o i j then true else is_allocated b 0 j)
    bit j = elim (dec_lt j (i * 2 ^ o)) [
      | yes below ↦ ground (arith, done.0.outside j (inl below))
      | no above ↦ elim (dec_lt j (i * 2 ^ o + 2 ^ o)) [
        | yes low ↦ ground (arith, done.1.bit j (omega arith) low)
        | no high ↦ ground (arith, done.0.outside j (inr (omega arith)))
      ]
    ]

    still : (j : ℕ) → j < b.nframes → is_enabled c j ≡ false → is_allocated c 0 j ≡ true
    still j hj off = ground (arith, bit j, v.disabled j hj, done.1.on j)

    closed : Closed b c (update_all (i * block_size o) (page_size * 2 ^ o) c)
    closed =
        update_all-Closed b c (i * block_size o) (page_size * 2 ^ o) (i * 2 ^ o) (i * 2 ^ o + 2 ^ o)
          v done.0
          (record {
            low = omega arith;
            high = omega arith;
            empty = λ e. absurd (omega (arith, one-le-pow o 2));
          })
          fit (omega (arith, fit)) still
