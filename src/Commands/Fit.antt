-- ===== src/Commands/Fit.antt =====
-- Operations of kernel/screenbuf.c on one screen of an array: the others stay as they are.
use nulix.Common.{
  ℕ, zero, suc, ◌≡◌, refl, sym, ◌∙◌, ap, Bool, true, false, List, [], ◌∷◌, length, arith, Option,
  some,
}
use nulix.Screen.Buffer.{Screenbuf, sb_load, sb_unload, sb_clear, sb_set_color, sb_whitespace}
use nulix.Screen.Output.{sb_scroll_top}
use nulix.Screen.Pointers.{length-sb_memset}
use nulix.Screen.Bounds.{Within, Stays, see-Within, sb_sync-Within}
use nulix.Screen.Strings.{zero-IsLine}
use nulix.Screen.Loaded.{loaded_or, loaded-sb_sync}
use nulix.Commands.Screens.{update_at, is_loaded, lend}
use nulix.Commands.Entry.{cons_some, try_at}

-- The pointers of each screen are starts of lines of its buffer, and its offset is inside a line.
pub data Fit : List Screenbuf → Type 0 where
  none_left : Fit []
  also : {s : Screenbuf} {ss : List Screenbuf} → Within 79 s → Fit ss → Fit (s ∷ ss)

pub update_at-Fit :
    (ss : List Screenbuf) (i : ℕ) (f : Screenbuf → Screenbuf)
    → ((s : Screenbuf) → Within 79 s → Within 79 (f s))
    → Fit ss
    → Fit (update_at ss i f)
update_at-Fit [] i f h none_left = none_left
update_at-Fit (s ∷ ss) zero f h (also w rest) = also (h s w) rest
update_at-Fit (s ∷ ss) (suc i) f h (also w rest) = also w (update_at-Fit ss i f h rest)

recolour-Within :
    (s : Screenbuf) (color : ℕ) (loaded : Bool)
    → Within 79 s
    → Within 79 (record s { color = color; loaded = loaded })
recolour-Within s color loaded w = record {
  endbuf = w.endbuf;
  size = w.size;
  top = w.top;
  viewport = w.viewport;
  cursor = w.cursor;
  offset = w.offset;
}

-- The shared memory is no part of what a screen keeps.
pub lend-Within :
    (vga : List ℕ) (shown : Option ℕ) (s : Screenbuf) → Within 79 s → Within 79 (lend vga shown s)
lend-Within vga shown s w = record {
  endbuf = w.endbuf;
  size = w.size;
  top = w.top;
  viewport = w.viewport;
  cursor = w.cursor;
  offset = w.offset;
}

pub sb_load-Within : (s : Screenbuf) → Within 79 s → Within 79 (sb_load s)
unfolding sb_load
sb_load-Within s w = sb_sync-Within _ (recolour-Within s s.color true w)

pub sb_unload-Within : (s : Screenbuf) → Within 79 s → Within 79 (sb_unload s)
unfolding sb_unload
sb_unload-Within s w = recolour-Within s s.color false w

pub sb_set_color-Within :
    (color : ℕ) (s : Screenbuf) → Within 79 s → Within 79 (sb_set_color s color)
unfolding sb_set_color
sb_set_color-Within color s w = recolour-Within s color s.loaded w

pub sb_clear-Within : (s : Screenbuf) → Within 79 s → Within 79 (sb_clear s)
unfolding sb_clear
sb_clear-Within s w = sb_sync-Within _ (record {
  endbuf = w.endbuf;
  size = length-sb_memset s.buf 0 sb_whitespace 16000 ∙ w.size;
  top = zero-IsLine;
  viewport = zero-IsLine;
  cursor = zero-IsLine;
  offset = omega arith;
})

pub sb_scroll_top-Within : (s : Screenbuf) → Within 79 s → Within 79 (sb_scroll_top s)
unfolding sb_scroll_top
sb_scroll_top-Within s w = sb_sync-Within _ (see-Within s s.top w w.top)

pub loaded-sb_clear : (s : Screenbuf) → (sb_clear s).loaded ≡ s.loaded
unfolding sb_clear
loaded-sb_clear s = loaded-sb_sync _

pub is_loaded-update_at :
    (ss : List Screenbuf) (i j : ℕ) (f : Screenbuf → Screenbuf)
    → ((s : Screenbuf) → (f s).loaded ≡ s.loaded)
    → is_loaded (update_at ss i f) j ≡ is_loaded ss j
unfolding is_loaded
is_loaded-update_at [] i j f h = refl
is_loaded-update_at (s ∷ ss) zero zero f h = h s
is_loaded-update_at (s ∷ ss) zero (suc j) f h = refl
is_loaded-update_at (s ∷ ss) (suc i) zero f h = refl
is_loaded-update_at (s ∷ ss) (suc i) (suc j) f h = is_loaded-update_at ss i j f h

-- One screen has been written to, and the same ones are loaded.
pub record Written (ss : List Screenbuf) (o : Option (List Screenbuf)) : Type 0 where
  pub after : List Screenbuf
  pub is_some : o ≡ some after
  pub fit : Fit after
  pub size : length after ≡ length ss
  pub same : (j : ℕ) → is_loaded after j ≡ is_loaded ss j

pub loaded-Stays :
    (s t : Screenbuf) (o : Option Screenbuf)
    → o ≡ some t
    → loaded_or s.loaded o ≡ s.loaded
    → t.loaded ≡ s.loaded
loaded-Stays s t o e h = sym (ap (loaded_or s.loaded) e) ∙ h

pub try_at-Written :
    (f : Screenbuf → Option Screenbuf) (ss : List Screenbuf) (i : ℕ)
    → ((s : Screenbuf) → Within 79 s → Stays 79 (f s))
    → ((s : Screenbuf) → loaded_or s.loaded (f s) ≡ s.loaded)
    → Fit ss
    → Written ss (try_at f ss i)
unfolding try_at is_loaded
try_at-Written f [] i h l none_left = record {
  after = [];
  is_some = refl;
  fit = none_left;
  size = refl;
  same = λ j. refl;
}
try_at-Written f (s ∷ ss) zero h l (also w rest) =
    let wrote = h s w in
    record {
      after = wrote.after ∷ ss;
      is_some = ap (λ o. cons_some o (some ss)) wrote.is_some;
      fit = also wrote.within rest;
      size = refl;
      same = elim [ zero ↦ loaded-Stays s wrote.after _ wrote.is_some (l s) | suc j ↦ refl ];
    }
try_at-Written f (s ∷ ss) (suc i) h l (also w rest) =
    let later = try_at-Written f ss i h l rest in
    record {
      after = s ∷ later.after;
      is_some = ap (cons_some (some s)) later.is_some;
      fit = also w later.fit;
      size = ap suc later.size;
      same = elim [ zero ↦ refl | suc j ↦ later.same j ];
    }
