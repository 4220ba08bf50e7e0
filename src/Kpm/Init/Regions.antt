-- ===== src/Kpm/Init/Regions.antt =====
-- `kpm_init`: which frames are free when it returns.
use nulix.Common.{
  ℕ, ◌+◌, ◌-◌, ◌%◌, ◌^◌, ◌<◌, ◌≡◌, refl, ◌∙◌, Bool, true, false, not, ◌&&◌, ◌||◌, arith, ◌==◌, ap,
  List, [], ◌∷◌, ◌≢◌, ◌⊎◌, inl, inr, if◌then◌else◌, some, Bool-cases,
}
use nulix.Kpm.Align.{page_size, u32, align_next}
use nulix.Kpm.Buddy.{Buddy, is_allocated, is_enabled}
use nulix.Kpm.Update.Close.{IsValid}
use nulix.Kpm.Region.{kpm_enable}
use nulix.Kpm.Region.Clip.{Fits}
use nulix.Kpm.Region.Enable.{
  Regioned, Regioned-same, frame_within, frame_met, kpm_enable-Regioned, kpm_disable-Regioned,
  kpm_enable_unaligned,
}
use nulix.Kpm.Init.{
  MmapEntry, memory_available, kernel_virt_offset, fresh_buddy, frames_of_memory, enable_entries,
  disable_kernel, kpm_init,
}
use nulix.Kpm.Init.Fresh.{nframes-fresh_buddy, fresh_buddy-IsValid, fresh_buddy_bits}

-- A region of available memory, with its 64-bit address and length, begins on a page inside memory
-- and ends a page or more below 4 GiB, or does not begin on a page.
abbrev pub EntryFits : ℕ → MmapEntry → Type 0
EntryFits nframes e =
    e.type ≡ memory_available → (e.addr % page_size ≢ 0) ⊎ Fits nframes e.addr e.len

abbrev pub MapFits : ℕ → List MmapEntry → Type 0
MapFits nframes [] = Unit
MapFits nframes (e ∷ es) = EntryFits nframes e × MapFits nframes es

-- The map has an entry of size 0.
abbrev pub has_end : List MmapEntry → Bool
has_end [] = false
has_end (e ∷ es) = (e.size == 0) || has_end es

-- A frame that lies wholly in a region of available memory, as the map gives it, that begins on a
-- page, of those before the end of the map.
abbrev pub available : List MmapEntry → ℕ → Bool
available [] j = false
available (e ∷ es) j =
    if e.size == 0
    then false
    else ((e.type == memory_available) && (e.addr % page_size == 0) && frame_within e.addr e.len j)
      || available es j

Regioned-none : (b : Buddy) (x y : Bool) → IsValid b → Regioned b b (λ j. false) x y
Regioned-none b x y v = record {
  valid = v;
  frames = refl;
  extent = refl;
  bits = λ j hj. refl;
  enables = λ j hj. refl;
}

Regioned-both :
    {b c d : Buddy} {f g : ℕ → Bool} {x y : Bool}
    → Regioned b c f x y
    → Regioned c d g x y
    → Regioned b d (λ j. f j || g j) x y
Regioned-both r s = record {
  valid = s.valid;
  frames = s.frames ∙ r.frames;
  extent = s.extent ∙ r.extent;
  bits = λ j hj. ground (arith, s.bits j (rw r.frames hj), r.bits j hj);
  enables = λ j hj. ground (arith, s.enables j (rw r.frames hj), r.enables j hj);
}

enable_entry :
    (b : Buddy) (e : MmapEntry)
    → IsValid b
    → EntryFits b.nframes e
    → Regioned b
        (if e.type == memory_available then kpm_enable (u32 e.addr) (u32 e.len) b else b)
        (λ j.
          (e.type == memory_available) && (e.addr % page_size == 0) && frame_within e.addr e.len j)
        false
        true
enable_entry b e v fits = elim (Bool-cases (e.type == memory_available)) [
  | inr skip ↦ rw skip (Regioned-none b false true v)
  | inl use_it ↦ rw use_it (elim (fits (ground arith)) [
    | inl odd ↦
        let off : (e.addr % page_size == 0) ≡ false = ground arith in
        let kept = kpm_enable_unaligned b (u32 e.addr) (u32 e.len) (omega arith) (omega arith) in
        rw (off, kept.0) (Regioned-none b false true v)
    | inr region ↦
        let on : (e.addr % page_size == 0) ≡ true = ground (arith, region.page) in
        let addr : u32 e.addr ≡ e.addr = omega (arith, region.high) in
        let len : u32 e.len ≡ e.len = omega (arith, region.high) in
        rw (on, addr, len) (kpm_enable-Regioned b e.addr e.len v region)
  ])
]

-- Regions that are changed one after the other.
enable_entries-Regioned :
    (es : List MmapEntry) (b : Buddy)
    → IsValid b
    → MapFits b.nframes es
    → has_end es ≡ true
    → (b' : Buddy) × (enable_entries es b ≡ some b') × Regioned b b' (available es) false true
unfolding enable_entries
enable_entries-Regioned [] b v fits ends = cc
enable_entries-Regioned (e ∷ es) b v fits ends = elim (Bool-cases (e.size == 0)) [
  | inl last ↦ (b, rw last, Regioned-same (λ j. ground arith) (Regioned-none b false true v))
  | inr more ↦
      let one = enable_entry b e v fits.0 in
      let (b', runs, rest) =
        enable_entries-Regioned es _ one.valid (rw one.frames fits.1) (ground arith) in
      (b', rw more runs, Regioned-same (λ j. ground arith) (Regioned-both one rest))
]

-- Where `kpm_init` puts `*buddy`, by physical address.
abbrev pub buddy_base : ℕ → ℕ
buddy_base ek = u32 (align_next ek page_size + 2 ^ 32 - kernel_virt_offset)

-- The size of the kernel's image.
abbrev pub kernel_size : ℕ → ℕ → ℕ
kernel_size sk ek = u32 (u32 (ek + 2 ^ 32 - kernel_virt_offset) + 2 ^ 32 - sk)

-- The frames of page 0, of the kernel, and of `*buddy`, which takes `size` bytes.
abbrev pub reserved : ℕ → ℕ → ℕ → ℕ → Bool
reserved sk ek size j =
    frame_met 0 page_size j
    || frame_met sk (kernel_size sk ek) j
    || frame_met (buddy_base ek) size j

-- The kernel and `*buddy` lie in memory.
pub record ImageFits (nframes sk ek size : ℕ) : Type 0 where
  pub kernel : Fits nframes sk (kernel_size sk ek)
  pub buddy : Fits nframes (buddy_base ek) size

disable_kernel-Regioned :
    (sk ek size : ℕ) (b : Buddy)
    → IsValid b
    → b.size ≡ size
    → ImageFits b.nframes sk ek size
    → Regioned b (disable_kernel sk ek b) (reserved sk ek size) true false
unfolding disable_kernel
disable_kernel-Regioned sk ek size b v e fits =
    let own : Fits b.nframes (buddy_base ek) b.size = omega (arith, e, fits.buddy) in
    let first = kpm_disable-Regioned b 0 page_size v (omega arith) in
    let second =
      kpm_disable-Regioned _ sk (kernel_size sk ek) first.valid (rw first.frames fits.kernel) in
    let third =
      kpm_disable-Regioned _ (buddy_base ek) b.size second.valid
        (rw (second.frames ∙ first.frames) own) in
    Regioned-same (λ j. ground (arith, e, ap (λ (n : ℕ). reserved sk ek n j) e))
      (Regioned-both first (Regioned-both second third))

-- What `kpm_init` leaves: the invariant, and exactly the frames free that an available region of the
-- map contains and that are none of page 0's, the kernel's and the allocator's own.
pub record Initialised (sk ek memkb : ℕ) (es : List MmapEntry) (b : Buddy) : Type 0 where
  pub valid : IsValid b
  pub frames : b.nframes ≡ frames_of_memory memkb
  pub free :
      (j : ℕ)
      → j < b.nframes
      → is_allocated b 0 j ≡ not (available es j && not (reserved sk ek (fresh_buddy memkb).size j))
  pub enabled :
      (j : ℕ)
      → j < b.nframes
      → is_enabled b j ≡ (available es j && not (reserved sk ek (fresh_buddy memkb).size j))

init_result :
    (sk ek memkb : ℕ) (es : List MmapEntry) (b c : Buddy)
    → Regioned (fresh_buddy memkb) b (available es) false true
    → Regioned b c (reserved sk ek (fresh_buddy memkb).size) true false
    → Initialised sk ek memkb es c
init_result sk ek memkb es b c on off = record {
  valid = off.valid;
  frames = off.frames ∙ on.frames ∙ nframes-fresh_buddy memkb;
  free = λ j hj.
      let h = below j hj in
      ground (arith, on.bits j h.0, off.bits j h.1, fresh_buddy_bits memkb j h.2);
  enabled = λ j hj.
      let h = below j hj in
      ground (arith, on.enables j h.0, off.enables j h.1, fresh_buddy_bits memkb j h.2);
}
  where
    below :
        (j : ℕ)
        → j < c.nframes
        → (j < (fresh_buddy memkb).nframes) × (j < b.nframes) × (j < frames_of_memory memkb)
    below j hj = omega (arith, off.frames, on.frames, nframes-fresh_buddy memkb)

-- For a memory map that ends with an entry of size 0, whose available regions, where they begin
-- on a page, begin in memory and end a page or more below 4 GiB, and with the kernel and `*buddy`
-- in memory, `kpm_init` returns, and leaves exactly the frames free and enabled that lie wholly
-- in an available region which begins on a page, by the 64-bit addresses of the map, and meet
-- neither page 0, nor the kernel, nor `*buddy`.
pub kpm_init-Initialised :
    (sk ek : ℕ) (es : List MmapEntry) (count memkb : ℕ)
    → has_end es ≡ true
    → MapFits (frames_of_memory memkb) es
    → ImageFits (frames_of_memory memkb) sk ek (fresh_buddy memkb).size
    → (b : Buddy) × (kpm_init sk ek es count memkb ≡ some b) × Initialised sk ek memkb es b
unfolding kpm_init
kpm_init-Initialised sk ek es count memkb ends fits image =
    let nf = nframes-fresh_buddy memkb in
    let (b, runs, on) =
      enable_entries-Regioned es (fresh_buddy memkb) (fresh_buddy-IsValid memkb) (rw nf fits)
        ends in
    (
      disable_kernel sk ek b,
      rw runs,
      init_result sk ek memkb es b _ on (
          disable_kernel-Regioned sk ek (fresh_buddy memkb).size b on.valid on.extent
            (rw (on.frames ∙ nf) image)),
    )
