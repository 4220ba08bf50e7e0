-- ===== src/Commands/Screens.antt =====
-- next and prev of kernel/nsh/builtins/utils.c, on the array of screens of kernel/screenbuf.c;
-- `current` is the index of sb_current there.
use nulix.Common.{
  Option, ◌∙◌, ℕ, zero, suc, ◌+◌, ◌-◌, ◌<◌, ◌≡◌, refl, ap, ◌==◌, Bool, true, false, if◌then◌else◌,
  List, [], ◌∷◌, length, arith,
}
use nulix.Screen.Buffer.{Screenbuf, sb_load, sb_unload, sb_sync, cursor_update}

-- The memory at VGA_PTR and the hardware cursor are shared; those of a screen in the list count for
-- nothing until it is worked on.
pub record Screens : Type 0 where
  pub screens : List Screenbuf
  pub current : ℕ
  pub vga : List ℕ
  pub shown : Option ℕ

abbrev pub update_at : List Screenbuf → ℕ → (Screenbuf → Screenbuf) → List Screenbuf
update_at [] i f = []
update_at (x ∷ xs) zero f = f x ∷ xs
update_at (x ∷ xs) (suc i) f = x ∷ update_at xs i f

abbrev pub lend : List ℕ → Option ℕ → Screenbuf → Screenbuf
lend vga shown x = record x { vga = vga; shown = shown }

-- What an operation on the screen at an index left in the shared memory and in the cursor.
abbrev pub vga_of : List Screenbuf → ℕ → List ℕ → List ℕ
vga_of [] i vga = vga
vga_of (x ∷ xs) zero vga = x.vga
vga_of (x ∷ xs) (suc i) vga = vga_of xs i vga

abbrev pub shown_of : List Screenbuf → ℕ → Option ℕ → Option ℕ
shown_of [] i shown = shown
shown_of (x ∷ xs) zero shown = x.shown
shown_of (x ∷ xs) (suc i) shown = shown_of xs i shown

-- The screens after an operation on the one at an index.
abbrev pub worked_on : ℕ → Screens → List Screenbuf → Screens
worked_on i s after = record s {
  screens = after;
  vga = vga_of after i s.vga;
  shown = shown_of after i s.shown;
}

abbrev pub on_screen : ℕ → (Screenbuf → Screenbuf) → Screens → Screens
on_screen i f s = worked_on i s (update_at s.screens i (λ x. f (lend s.vga s.shown x)))

abbrev pub unload_current : Screens → Screens
unload_current s = on_screen s.current sb_unload s

-- Another screen becomes the current one.
abbrev pub move_to : ℕ → Screens → Screens
move_to to s = record (on_screen to sb_load (unload_current s)) { current = to }

unfoldable pub next : Screens → Screens
next s = move_to (if s.current + 1 == length s.screens then 0 else s.current + 1) s

unfoldable pub prev : Screens → Screens
prev s = move_to (if s.current == 0 then length s.screens - 1 else s.current - 1) s

-- Whether a screen is loaded.
unfoldable pub is_loaded : List Screenbuf → ℕ → Bool
is_loaded [] i = false
is_loaded (x ∷ xs) zero = x.loaded
is_loaded (x ∷ xs) (suc i) = is_loaded xs i

-- The current screen is loaded, and no other is.
pub record OneLoaded (s : Screens) : Type 0 where
  pub inside : s.current < length s.screens
  pub only : (i : ℕ) → is_loaded s.screens i ≡ (i == s.current)

pub length-update_at :
    (xs : List Screenbuf) (i : ℕ) (f : Screenbuf → Screenbuf)
    → length (update_at xs i f) ≡ length xs
length-update_at [] i f = refl
length-update_at (x ∷ xs) zero f = refl
length-update_at (x ∷ xs) (suc i) f = ap suc (length-update_at xs i f)

pub loaded-update_at :
    (xs : List Screenbuf) (i j : ℕ) (f : Screenbuf → Screenbuf) (b : Bool)
    → ((x : Screenbuf) → (f x).loaded ≡ b)
    → i < length xs
    → is_loaded (update_at xs i f) j ≡ (if j == i then b else is_loaded xs j)
unfolding is_loaded
loaded-update_at [] i j f b h k = absurd (omega arith)
loaded-update_at (x ∷ xs) zero zero f b h k = h x
loaded-update_at (x ∷ xs) zero (suc j) f b h k = ground arith
loaded-update_at (x ∷ xs) (suc i) zero f b h k = ground arith
loaded-update_at (x ∷ xs) (suc i) (suc j) f b h k =
    let rest = loaded-update_at xs i j f b h (omega arith) in ground (arith, rest)

pub loads : (x : Screenbuf) → (sb_load x).loaded ≡ true
unfolding sb_load sb_sync cursor_update
loads x = refl

-- Moving from the current screen to another leaves that one loaded alone.
moved-OneLoaded :
    (s : Screens) (to : ℕ) → OneLoaded s → to < length s.screens → OneLoaded (move_to to s)
unfolding sb_unload
moved-OneLoaded s to v h =
    let left = unload_current s in
    let drop = λ (x : Screenbuf). sb_unload (lend s.vga s.shown x) in
    let show = λ (x : Screenbuf). sb_load (lend left.vga left.shown x) in
    let size = length-update_at s.screens s.current drop in
    record {
      inside = omega (arith, length-update_at left.screens to show, size);
      only = λ i.
          let unloaded = loaded-update_at s.screens s.current i drop false (λ x. refl) v.inside in
          let loaded =
            loaded-update_at left.screens to i show true (λ x. loads _) (omega (arith, size)) in
          ground (arith, loaded, unloaded, v.only i);
    }

length-move_to : (s : Screens) (to : ℕ) → length (move_to to s).screens ≡ length s.screens
length-move_to s to =
    length-update_at (unload_current s).screens to _ ∙ length-update_at s.screens s.current _

-- If the current screen is loaded and no other, this stays so after next and after prev, and each
-- of them goes back to the screen that the other one left.
pub next-prev :
    (s : Screens)
    → OneLoaded s
    → OneLoaded (next s)
      × OneLoaded (prev s)
      × ((prev (next s)).current ≡ s.current)
      × ((next (prev s)).current ≡ s.current)
unfolding next prev
next-prev s v =
    let size = length-move_to s in
    (
      moved-OneLoaded s (if s.current + 1 == length s.screens then 0 else s.current + 1) v
          (ground (arith, v.inside)),
      moved-OneLoaded s (if s.current == 0 then length s.screens - 1 else s.current - 1) v
          (ground (arith, v.inside)),
      ground (arith, v.inside, size (next s).current),
      ground (arith, v.inside, size (prev s).current),
    )
