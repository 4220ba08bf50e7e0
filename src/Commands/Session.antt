-- ===== src/Commands/Session.antt =====
-- The screens of kernel/kernel.c from its start on, under the commands of the shell.
use nulix.Common.{
  ℕ, zero, suc, ◌≡◌, refl, ◌∙◌, ap, true, false, List, [], ◌∷◌, length, arith, Option, some,
}
use nulix.Screen.Buffer.{Screenbuf, sb_init, sb_load, negsuc, sb_clear, sb_set_color}
use nulix.Screen.Output.{sb_putstr, sb_scroll, sb_scroll_top}
use nulix.Screen.Bounds.{Within, Stays}
use nulix.Screen.Strings.{has_no_backspace, sb_init-Within, sb_putstr-Stays}
use nulix.Screen.Loaded.{loaded_or, loaded-sb_putstr, loaded-sb_scroll_top, loaded-sb_scroll_back}
use nulix.Commands.Screens.{
  lend, worked_on, on_screen, move_to, Screens, next, prev, is_loaded, OneLoaded, next-prev,
  length-update_at, loads, unload_current,
}
use nulix.Commands.Entry.{
  welcome, init_screens, start_screens, try_at, keep, try_on, Action, puts, paint, scroll_back,
  scroll_top, wipe, forward, back, clear, act, then_act, act_all, session, is_plain, are_plain,
}
use nulix.Screen.Erase.{sb_scroll_back-Stays}
use nulix.Commands.Fit.{
  lend-Within, Fit, none_left, also, update_at-Fit, sb_load-Within, sb_unload-Within,
  sb_set_color-Within, sb_clear-Within, sb_scroll_top-Within, loaded-sb_clear, is_loaded-update_at,
  loaded-Stays, try_at-Written,
}

-- There are screens, one of them is loaded, the current one, and all pointers are in their buffers.
pub record Ready (o : Option Screens) : Type 0 where
  pub after : Screens
  pub is_some : o ≡ some after
  pub one : OneLoaded after
  pub fit : Fit after.screens

record Welcomed (s : Screenbuf) : Type 0 where
  after : Screenbuf
  is_some : sb_putstr welcome (sb_init s) ≡ some after
  within : Within 79 after
  dark : after.loaded ≡ false

welcomed : (s : Screenbuf) → length s.buf ≡ 16000 → Welcomed s
unfolding has_no_backspace sb_init
welcomed s h =
    let wrote = sb_putstr-Stays welcome (sb_init s) (sb_init-Within s h) refl in
    record {
      after = wrote.after;
      is_some = wrote.is_some;
      within = wrote.within;
      dark =
          loaded-Stays (sb_init s) wrote.after _ wrote.is_some
            (loaded-sb_putstr welcome (sb_init s));
    }

-- The two screens of the kernel, the shared memory and the cursor.
abbrev pub kernel_screens : Screenbuf → Screenbuf → ℕ → List ℕ → Option ℕ → Screens
kernel_screens a b current vga shown = record {
  screens = a ∷ b ∷ [];
  current = current;
  vga = vga;
  shown = shown;
}

start_screens-Ready :
    (a b : Screenbuf) (current : ℕ) (vga : List ℕ) (shown : Option ℕ)
    → length a.buf ≡ 16000
    → length b.buf ≡ 16000
    → Ready (start_screens (kernel_screens a b current vga shown))
unfolding start_screens init_screens try_at is_loaded
start_screens-Ready a b current vga shown ha hb =
    let x = welcomed (lend vga shown a) ha in
    let y = welcomed (lend x.after.vga x.after.shown b) hb in
    let first = lend y.after.vga y.after.shown x.after in
    record {
      after = record {
        screens = sb_load first ∷ y.after ∷ [];
        current = 0;
        vga = (sb_load first).vga;
        shown = (sb_load first).shown;
      };
      is_some = rw (x.is_some, y.is_some) refl;
      one = record {
        inside = omega arith;
        only = elim [ zero ↦ loads first | suc zero ↦ y.dark | suc (suc i) ↦ ground arith ];
      };
      fit =
          also (sb_load-Within first (lend-Within y.after.vga y.after.shown x.after x.within))
            (also y.within none_left);
    }

same-OneLoaded :
    (s : Screens) (ss : List Screenbuf)
    → length ss ≡ length s.screens
    → ((j : ℕ) → is_loaded ss j ≡ is_loaded s.screens j)
    → OneLoaded s
    → OneLoaded (worked_on s.current s ss)
same-OneLoaded s ss size same one = record {
  inside = omega (arith, size, one.inside);
  only = λ i. same i ∙ one.only i;
}

-- A change of the current screen that leaves it loaded.
changed-Ready :
    (s : Screens) (f : Screenbuf → Screenbuf)
    → ((x : Screenbuf) → Within 79 x → Within 79 (f x))
    → ((x : Screenbuf) → (f x).loaded ≡ x.loaded)
    → OneLoaded s
    → Fit s.screens
    → Ready (some (on_screen s.current f s))
changed-Ready s f h same one fit = record {
  after = _;
  is_some = refl;
  one =
      same-OneLoaded s _ (length-update_at s.screens s.current _)
        (λ j. is_loaded-update_at s.screens s.current j _ (λ x. same (lend s.vga s.shown x))) one;
  fit = update_at-Fit s.screens s.current _ (λ x w. h _ (lend-Within s.vga s.shown x w)) fit;
}

moved-Fit : (s : Screens) (to : ℕ) → Fit s.screens → Fit (move_to to s).screens
moved-Fit s to fit =
    let left = unload_current s in
    update_at-Fit left.screens to _ (λ x w. sb_load-Within _ (lend-Within left.vga left.shown x w))
      (update_at-Fit s.screens s.current _
        (λ x w. sb_unload-Within _ (lend-Within s.vga s.shown x w)) fit)

next-Ready : (s : Screens) → OneLoaded s → Fit s.screens → Ready (some (next s))
unfolding next
next-Ready s one fit = record {
  after = next s;
  is_some = refl;
  one = (next-prev s one).0;
  fit = moved-Fit s _ fit;
}

prev-Ready : (s : Screens) → OneLoaded s → Fit s.screens → Ready (some (prev s))
unfolding prev
prev-Ready s one fit = record {
  after = prev s;
  is_some = refl;
  one = (next-prev s one).1;
  fit = moved-Fit s _ fit;
}

-- An operation on the current screen that may fail.
tried-Ready :
    (s : Screens) (f : Screenbuf → Option Screenbuf)
    → ((x : Screenbuf) → Within 79 x → Stays 79 (f x))
    → ((x : Screenbuf) → loaded_or x.loaded (f x) ≡ x.loaded)
    → OneLoaded s
    → Fit s.screens
    → Ready (try_on s.current f s)
tried-Ready s f h l one fit =
    let wrote =
      try_at-Written (λ x. f (lend s.vga s.shown x)) s.screens s.current
        (λ x w. h _ (lend-Within s.vga s.shown x w)) (λ x. l (lend s.vga s.shown x)) fit in
    record {
      after = worked_on s.current s wrote.after;
      is_some = ap (keep s.current s) wrote.is_some;
      one = same-OneLoaded s wrote.after wrote.size wrote.same one;
      fit = wrote.fit;
    }

act-Ready :
    (a : Action) (s : Screens) → is_plain a ≡ true → OneLoaded s → Fit s.screens → Ready (act a s)
unfolding act clear sb_set_color is_plain
act-Ready (puts text) s h one fit =
    tried-Ready s (sb_putstr text) (λ x w. sb_putstr-Stays text x w h) (loaded-sb_putstr text) one
      fit
act-Ready scroll_back s h one fit =
    tried-Ready s (λ x. sb_scroll x (negsuc 0)) sb_scroll_back-Stays loaded-sb_scroll_back one fit
act-Ready scroll_top s h one fit =
    changed-Ready s sb_scroll_top sb_scroll_top-Within loaded-sb_scroll_top one fit
act-Ready (paint color) s h one fit =
    changed-Ready s (λ x. sb_set_color x color) (sb_set_color-Within color) (λ x. refl) one fit
act-Ready wipe s h one fit = changed-Ready s sb_clear sb_clear-Within loaded-sb_clear one fit
act-Ready forward s h one fit = next-Ready s one fit
act-Ready back s h one fit = prev-Ready s one fit

act_all-Ready :
    (actions : List Action) (o : Option Screens)
    → are_plain actions ≡ true
    → Ready o
    → Ready (then_act (act_all actions) o)
unfolding act_all are_plain
act_all-Ready [] o h r =
    rw r.is_some record { after = r.after; is_some = refl; one = r.one; fit = r.fit }
act_all-Ready (a ∷ actions) o h r = rw r.is_some (
    act_all-Ready actions (act a r.after) (ground arith)
      (act-Ready a r.after (ground arith) r.one r.fit))

-- From the start of the kernel, whatever its two screens hold, and through any row of texts
-- without backspaces, scrolls back or to the top, colours, clears, and moves to the next or the
-- previous screen, nothing leaves a buffer: every pointer of each screen is the start of a line
-- of its buffer, and the current screen is loaded and no other.
pub session-Ready :
    (actions : List Action) (a b : Screenbuf) (current : ℕ) (vga : List ℕ) (shown : Option ℕ)
    → are_plain actions ≡ true
    → length a.buf ≡ 16000
    → length b.buf ≡ 16000
    → Ready (session actions (kernel_screens a b current vga shown))
unfolding session
session-Ready actions a b current vga shown h ha hb =
    act_all-Ready actions _ h (start_screens-Ready a b current vga shown ha hb)
