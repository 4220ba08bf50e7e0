-- ===== src/Kpm/Region/Frames.antt =====
-- The loops of `kpm_enable` and `kpm_disable` over the frames of a region.
use nulix.Common.{ℕ, zero, suc, ◌+◌, ◌≤◌, ◌<◌, ◌≡◌, ◌∙◌, Bool, true, false, arith, ℕ_discrete}
use nulix.Kpm.Buddy.{Buddy, alloc_bit, free_bit, is_allocated, enable_bit, disable_bit, is_enabled}
use nulix.Kpm.Buddy.Sized.{IsSized, is_enabled-free_bit, is_enabled-alloc_bit}
use nulix.Kpm.Buddy.Frames.{
  Marked, Marked-none, Marked-step, Marked-join, alloc_bit-Marked, alloc_bit_self, free_bit-Marked,
  free_bit_self, enable_bit-Marked, enable_bit_self, disable_bit-Marked, disable_bit_self,
}
use nulix.Kpm.Region.{enable_frames, disable_frames}

-- What the bits of the frames `[lo, hi)` read.
pub record FramesAre (lo hi : ℕ) (allocated enabled : Bool) (b' : Buddy) : Type 0 where
  pub bit : (j : ℕ) → lo ≤ j → j < hi → is_allocated b' 0 j ≡ allocated
  pub on : (j : ℕ) → lo ≤ j → j < hi → is_enabled b' j ≡ enabled

-- The first frame of a range keeps what it has while the others are written.
FramesAre-step :
    {c d : Buddy} {lo hi : ℕ} (x y : Bool)
    → Marked c (lo + 1) hi d
    → is_allocated c 0 lo ≡ x
    → is_enabled c lo ≡ y
    → FramesAre (lo + 1) hi x y d
    → FramesAre lo hi x y d
FramesAre-step {c} {d} {lo} {hi} x y m p q f = record {
  bit = λ j l h. elim (ℕ_discrete j lo) [
    | yes e ↦ rw e (m.outside lo (omega arith) ∙ p)
    | no ne ↦ f.bit j (omega arith) h
  ];
  on = λ j l h. elim (ℕ_discrete j lo) [
    | yes e ↦ rw e (m.enabled lo (omega arith) ∙ q)
    | no ne ↦ f.on j (omega arith) h
  ];
}

loop_step :
    (b c d : Buddy) (index rounds : ℕ) (x y : Bool)
    → Marked b index (index + 1) c
    → is_allocated c 0 index ≡ x
    → is_enabled c index ≡ y
    → Marked c (index + 1) (index + 1 + rounds) d × FramesAre (index + 1) (index + 1 + rounds) x y d
    → Marked b index (index + suc rounds) d × FramesAre index (index + suc rounds) x y d
loop_step b c d index rounds x y m p q rest =
    let e : index + suc rounds ≡ index + 1 + rounds = omega arith in
    rw e (Marked-step (omega arith) m rest.0, FramesAre-step x y rest.0 p q rest.1)

loop_none :
    (b : Buddy) (index : ℕ) (x y : Bool)
    → IsSized b
    → Marked b index (index + 0) b × FramesAre index (index + 0) x y b
loop_none b index x y s = (
  Marked-none b index (index + 0) s,
  record { bit = λ j l u. absurd (omega arith); on = λ j l u. absurd (omega arith) },
)

-- The loop of `kpm_enable` makes its frames free and enabled, and changes nothing else.
pub enable_frames-Marked :
    (rounds index : ℕ) (b : Buddy)
    → IsSized b
    → index + rounds ≤ b.nframes
    → Marked b index (index + rounds) (enable_frames rounds index b)
      × FramesAre index (index + rounds) false true (enable_frames rounds index b)
unfolding enable_frames
enable_frames-Marked zero index b s h = loop_none b index false true s
enable_frames-Marked (suc rounds) index b s h =
    let on = enable_bit-Marked b index s (omega arith) in
    let inside : index < (enable_bit b index).nframes = omega (arith, on.frames) in
    let here = Marked-join on (free_bit-Marked (enable_bit b index) index on.sized inside) in
    loop_step b (free_bit (enable_bit b index) 0 index) _ index rounds false true here
      (free_bit_self (enable_bit b index) index on.sized inside)
      (is_enabled-free_bit (enable_bit b index) 0 index index
        ∙ enable_bit_self b index s (omega arith))
      (enable_frames-Marked rounds (index + 1) (free_bit (enable_bit b index) 0 index) here.sized
        (omega (arith, here.frames)))

-- The loop of `kpm_disable` makes its frames allocated and disabled, and changes nothing else.
pub disable_frames-Marked :
    (rounds index : ℕ) (b : Buddy)
    → IsSized b
    → index + rounds ≤ b.nframes
    → Marked b index (index + rounds) (disable_frames rounds index b)
      × FramesAre index (index + rounds) true false (disable_frames rounds index b)
unfolding disable_frames
disable_frames-Marked zero index b s h = loop_none b index true false s
disable_frames-Marked (suc rounds) index b s h =
    let off = disable_bit-Marked b index s (omega arith) in
    let inside : index < (disable_bit b index).nframes = omega (arith, off.frames) in
    let here = Marked-join off (alloc_bit-Marked (disable_bit b index) index off.sized inside) in
    loop_step b (alloc_bit (disable_bit b index) 0 index) _ index rounds true false here
      (alloc_bit_self (disable_bit b index) index off.sized inside)
      (is_enabled-alloc_bit (disable_bit b index) 0 index index
        ∙ disable_bit_self b index s (omega arith))
      (disable_frames-Marked rounds (index + 1) (alloc_bit (disable_bit b index) 0 index) here.sized
        (omega (arith, here.frames)))
