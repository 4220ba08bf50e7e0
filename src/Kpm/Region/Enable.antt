-- ===== src/Kpm/Region/Enable.antt =====
-- `kpm_enable` and `kpm_disable`: which frames they change, and that the invariant holds after.
use nulix.Common.{
  ℕ, ◌+◌, ◌*◌, ◌/◌, ◌%◌, ◌^◌, ◌≤◌, ◌<◌, ◌≡◌, refl, ◌∙◌, sym, ◌⊎◌, ◌≢◌, Bool, true, false, not, ◌&&◌,
  arith, ltb, leb, if◌then◌else◌, inl, inr, dec_lt,
}
use nulix.Kpm.Align.{page_size, align_next, is_aligned}
use nulix.Kpm.Buddy.{Buddy, is_allocated, is_enabled}
use nulix.Kpm.Buddy.Frames.{Marked}
use nulix.Kpm.Update.{update_all}
use nulix.Kpm.Update.Close.{IsValid, Closed, update_all-Closed}
use nulix.Kpm.Region.{clip, kpm_enable, kpm_disable, enable_frames, disable_frames}
use nulix.Kpm.Region.Frames.{FramesAre, enable_frames-Marked, disable_frames-Marked}
use nulix.Kpm.Region.Clip.{
  Fits, Clipped, clip-Clipped, Clipped-Covers, page_aligned, page_down, page_next,
}

-- What an operation on a region leaves: the invariant, and every frame in memory with the value
-- `allocated` and `enabled` where `chosen` says so, and its old values elsewhere.
pub record Regioned (b b' : Buddy) (chosen : ℕ → Bool) (allocated enabled : Bool) : Type 0 where
  pub valid : IsValid b'
  pub frames : b'.nframes ≡ b.nframes
  pub extent : b'.size ≡ b.size
  pub bits :
      (j : ℕ)
      → j < b.nframes
      → is_allocated b' 0 j ≡ (if chosen j then allocated else is_allocated b 0 j)
  pub enables :
      (j : ℕ) → j < b.nframes → is_enabled b' j ≡ (if chosen j then enabled else is_enabled b j)

pub Regioned-same :
    {b d : Buddy} {f g : ℕ → Bool} {x y : Bool}
    → ((j : ℕ) → f j ≡ g j)
    → Regioned b d f x y
    → Regioned b d g x y
Regioned-same e r = record {
  valid = r.valid;
  frames = r.frames;
  extent = r.extent;
  bits = λ j hj. rw (← e j) (r.bits j hj);
  enables = λ j hj. rw (← e j) (r.enables j hj);
}

-- The frames between `base` and `base + limit`.
abbrev pub between : ℕ → ℕ → ℕ → Bool
between base limit j = leb base (j * page_size) && ltb (j * page_size) (base + limit)

-- The frames of the loop, by address.
between_frames :
    (b : Buddy) (base whole limit j : ℕ)
    → base % page_size ≡ 0
    → Clipped b base whole limit
    → j < b.nframes
    → between base whole j
      ≡ (leb (base / page_size) j && ltb j (base / page_size + limit / page_size))
between_frames b base whole limit j page clip hj =
    rw (← clip.same j hj) (ground (arith, clip.pages))

-- A bit that is `new` in the loop's range and `old` outside it.
chosen_bit :
    (b : Buddy) (base whole limit j : ℕ) (new old got : Bool)
    → base % page_size ≡ 0
    → Clipped b base whole limit
    → j < b.nframes
    → (base / page_size ≤ j → j < base / page_size + limit / page_size → got ≡ new)
    → ((j < base / page_size) ⊎ (base / page_size + limit / page_size ≤ j) → got ≡ old)
    → got ≡ (if between base whole j then new else old)
chosen_bit b base whole limit j new old got page clip hj inside outside =
    rw (between_frames b base whole limit j page clip hj) (elim (dec_lt j (base / page_size)) [
      | yes below ↦ ground (arith, outside (inl below))
      | no above ↦ elim (dec_lt j (base / page_size + limit / page_size)) [
        | yes low ↦ ground (arith, inside (omega arith) low)
        | no high ↦ ground (arith, outside (inr (omega arith)))
      ]
    ])

Regioned-close :
    (b c : Buddy) (base whole limit : ℕ) (x y : Bool)
    → IsValid b
    → base % page_size ≡ 0
    → Clipped b base whole limit
    → Marked b (base / page_size) (base / page_size + limit / page_size) c
    → FramesAre (base / page_size) (base / page_size + limit / page_size) x y c
    → ((j : ℕ) → j < b.nframes → is_enabled c j ≡ false → is_allocated c 0 j ≡ true)
    → Regioned b (update_all base limit c) (between base whole) x y
Regioned-close b c base whole limit x y v page clip m f dis = record {
  valid = r.valid;
  frames = r.frames;
  extent = r.extent;
  bits = λ j hj.
      r.allocated j ∙ chosen_bit b base whole limit j x _ _ page clip hj (f.bit j) (m.outside j);
  enables = λ j hj.
      r.enabled j ∙ chosen_bit b base whole limit j y _ _ page clip hj (f.on j) (m.enabled j);
}
  where
    r : Closed b c (update_all base limit c)
    r =
        update_all-Closed b c base limit (base / page_size) (base / page_size + limit / page_size) v
          m (Clipped-Covers b base whole limit page clip) (omega (arith, clip.inside, clip.pages))
          clip.inside dis

-- The frames of a region keep the rule that a disabled frame is allocated.
disabled_frames :
    (b c : Buddy) (lo hi : ℕ) (x y : Bool)
    → IsValid b
    → Marked b lo hi c
    → FramesAre lo hi x y c
    → (y ≡ false → x ≡ true)
    → (j : ℕ) → j < b.nframes
    → is_enabled c j ≡ false
    → is_allocated c 0 j ≡ true
disabled_frames b c lo hi x y v m f rule j hj off = elim (dec_lt j lo) [
  | yes below ↦ m.outside j (inl below) ∙ v.disabled j hj (sym (m.enabled j (inl below)) ∙ off)
  | no above ↦ elim (dec_lt j hi) [
    | yes low ↦ f.bit j (omega arith) low ∙ rule (sym (f.on j (omega arith) low) ∙ off)
    | no high ↦
        m.outside j (inr (omega arith))
        ∙ v.disabled j hj (sym (m.enabled j (inr (omega arith))) ∙ off)
  ]
]

-- The frames that lie wholly in `[base, base + limit)`.
abbrev pub frame_within : ℕ → ℕ → ℕ → Bool
frame_within base limit j = leb base (j * page_size) && leb ((j + 1) * page_size) (base + limit)

-- The frames that `[base, base + limit)` meets.
abbrev pub frame_met : ℕ → ℕ → ℕ → Bool
frame_met base limit j =
    ltb base ((j + 1) * page_size) && ltb (j * page_size) (base + limit) && ltb 0 limit

aligned :
    (b : Buddy) (base limit : ℕ)
    → Fits b.nframes base limit
    → not (is_aligned base page_size) ≡ false
aligned b base limit fits = ground (arith, page_aligned base, fits.page, fits.high)

-- Both branches of `kpm_disable` round the size up to whole pages.
rounded :
    (b : Buddy) (base limit : ℕ)
    → Fits b.nframes base limit
    → (if not (is_aligned limit page_size) then align_next limit page_size else limit)
      ≡ (limit + 4095) / page_size * page_size
rounded b base limit fits = ground (arith, page_aligned limit, page_next limit, fits.high)

-- On a valid allocator, and for a region that begins on a page in memory and ends a page or more
-- below 4 GiB, `kpm_enable` keeps the invariant, makes exactly the frames in memory that lie
-- wholly in the region free and enabled, and leaves every other frame as it was.
pub kpm_enable-Regioned :
    (b : Buddy) (base limit : ℕ)
    → IsValid b
    → Fits b.nframes base limit
    → Regioned b (kpm_enable base limit b) (frame_within base limit) false true
unfolding kpm_enable
kpm_enable-Regioned b base limit v fits =
    rw (aligned b base limit fits, page_down limit (omega arith))
      (Regioned-same (λ j. ground (arith, fits.page))
        (Regioned-close b _ base whole (clip b base whole) false true v fits.page clipped done.0
          done.1 (disabled_frames b _ _ _ false true v done.0 done.1 (λ e. cc))))
  where
    whole : ℕ
    whole = limit / page_size * page_size

    clipped : Clipped b base whole (clip b base whole)
    clipped = clip-Clipped b base whole v.sized fits.page fits.low (omega arith) (omega arith)

    done :
        Marked b
          (base / page_size)
          (base / page_size + clip b base whole / page_size)
          (enable_frames (clip b base whole / page_size) (base / page_size) b)
        × FramesAre
            (base / page_size)
            (base / page_size + clip b base whole / page_size)
            false
            true
            (enable_frames (clip b base whole / page_size) (base / page_size) b)
    done =
        enable_frames-Marked (clip b base whole / page_size) (base / page_size) b v.sized
          (omega (arith, clipped.inside))

-- On a valid allocator, and for a region that begins on a page in memory and ends a page or more
-- below 4 GiB, `kpm_disable` keeps the invariant, makes exactly the frames in memory that the
-- region meets allocated and disabled, and leaves every other frame as it was.
pub kpm_disable-Regioned :
    (b : Buddy) (base limit : ℕ)
    → IsValid b
    → Fits b.nframes base limit
    → Regioned b (kpm_disable base limit b) (frame_met base limit) true false
unfolding kpm_disable
kpm_disable-Regioned b base limit v fits =
    rw (aligned b base limit fits, rounded b base limit fits)
      (Regioned-same (λ j. ground (arith, fits.page))
        (Regioned-close b _ base whole (clip b base whole) true false v fits.page clipped done.0
          done.1 (disabled_frames b _ _ _ true false v done.0 done.1 (λ e. refl))))
  where
    whole : ℕ
    whole = (limit + 4095) / page_size * page_size

    clipped : Clipped b base whole (clip b base whole)
    clipped = clip-Clipped b base whole v.sized fits.page fits.low (omega arith) (omega arith)

    done :
        Marked b
          (base / page_size)
          (base / page_size + clip b base whole / page_size)
          (disable_frames (clip b base whole / page_size) (base / page_size) b)
        × FramesAre
            (base / page_size)
            (base / page_size + clip b base whole / page_size)
            true
            false
            (disable_frames (clip b base whole / page_size) (base / page_size) b)
    done =
        disable_frames-Marked (clip b base whole / page_size) (base / page_size) b v.sized
          (omega (arith, clipped.inside))

-- A region that does not begin on a page changes nothing.
pub kpm_enable_unaligned :
    (b : Buddy) (base limit : ℕ)
    → base < 2 ^ 32
    → base % page_size ≢ 0
    → (kpm_enable base limit b ≡ b) × (kpm_disable base limit b ≡ b)
unfolding kpm_enable kpm_disable
kpm_enable_unaligned b base limit h ne =
    (ground (arith, page_aligned base h), ground (arith, page_aligned base h))
