-- ===== src/Commands/Entry.antt =====
-- The screens of kernel_main in kernel/kernel.c, and what the shell's commands do to them from there
-- on.
use nulix.Common.{◌+◌, ℕ, zero, suc, Bool, true, ◌&&◌, List, [], ◌∷◌, Option, none, some}
use nulix.Screen.Buffer.{Screenbuf, negsuc, sb_init, sb_load, sb_clear, sb_set_color}
use nulix.Screen.Output.{sb_putstr, sb_scroll, sb_scroll_top}
use nulix.Screen.Strings.{has_no_backspace}
use nulix.Commands.Screens.{Screens, lend, worked_on, on_screen, next, prev}

-- "Welcome to nulix-2.0.1\n"
abbrev pub welcome : List ℕ
welcome =
    87 ∷ 101 ∷ 108 ∷ 99 ∷ 111 ∷ 109 ∷ 101 ∷ 32 ∷ 116 ∷ 111 ∷ 32 ∷ 110 ∷ 117 ∷ 108 ∷ 105 ∷ 120 ∷ 45
    ∷ 50 ∷ 46 ∷ 48 ∷ 46 ∷ 49 ∷ 10 ∷ []

abbrev pub cons_some : Option Screenbuf → Option (List Screenbuf) → Option (List Screenbuf)
cons_some (some s) (some ss) = some (s ∷ ss)
cons_some (some s) none = none
cons_some none ss = none

-- An operation that may fail, on the screen at an index.
unfoldable pub try_at :
    (Screenbuf → Option Screenbuf) → List Screenbuf → ℕ → Option (List Screenbuf)
try_at f [] i = some []
try_at f (s ∷ ss) zero = cons_some (f s) (some ss)
try_at f (s ∷ ss) (suc i) = cons_some (some s) (try_at f ss i)

abbrev pub keep : ℕ → Screens → Option (List Screenbuf) → Option Screens
keep i s none = none
keep i s (some after) = some (worked_on i s after)

abbrev pub try_on : ℕ → (Screenbuf → Option Screenbuf) → Screens → Option Screens
try_on i f s = keep i s (try_at (λ x. f (lend s.vga s.shown x)) s.screens i)

abbrev pub then_act : (Screens → Option Screens) → Option Screens → Option Screens
then_act f none = none
then_act f (some s) = f s

-- The loop over the screens, from `i` on.
unfoldable pub init_screens : ℕ → ℕ → Screens → Option Screens
init_screens zero i s = some s
init_screens (suc rounds) i s =
    then_act (init_screens rounds (i + 1)) (try_on i (λ x. sb_putstr welcome (sb_init x)) s)

abbrev pub load_first : Screens → Option Screens
load_first s = some (record (on_screen 0 sb_load s) { current = 0 })

-- NBSCREENBUF
abbrev pub nbscreenbuf : ℕ
nbscreenbuf = 2

-- The screens, up to the call of nsh.
unfoldable pub start_screens : Screens → Option Screens
start_screens s = then_act load_first (init_screens nbscreenbuf 0 s)

-- What the shell and its commands do to the screens: sb_putstr, sb_scroll by -1, sb_scroll_top,
-- sb_set_color, clear, next and prev.
pub data Action : Type 0 where
  puts : List ℕ → Action
  scroll_back : Action
  scroll_top : Action
  paint : ℕ → Action
  wipe : Action
  forward : Action
  back : Action

unfoldable pub clear : Screens → Screens
clear s = on_screen s.current sb_clear s

unfoldable pub act : Action → Screens → Option Screens
act (puts text) s = try_on s.current (sb_putstr text) s
act scroll_back s = try_on s.current (λ x. sb_scroll x (negsuc 0)) s
act scroll_top s = some (on_screen s.current sb_scroll_top s)
act (paint color) s = some (on_screen s.current (λ x. sb_set_color x color) s)
act wipe s = some (clear s)
act forward s = some (next s)
act back s = some (prev s)

unfoldable pub act_all : List Action → Screens → Option Screens
act_all [] s = some s
act_all (a ∷ actions) s = then_act (act_all actions) (act a s)

-- The actions from the start of the kernel on.
unfoldable pub session : List Action → Screens → Option Screens
session actions s = then_act (act_all actions) (start_screens s)

-- A text that an action writes has no backspace.
unfoldable pub is_plain : Action → Bool
is_plain (puts text) = has_no_backspace text
is_plain scroll_back = true
is_plain scroll_top = true
is_plain (paint color) = true
is_plain wipe = true
is_plain forward = true
is_plain back = true

unfoldable pub are_plain : List Action → Bool
are_plain [] = true
are_plain (a ∷ actions) = is_plain a && are_plain actions
