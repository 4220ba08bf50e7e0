-- ===== src/Commands/Settings.antt =====
-- color.c, keymap.c, interrupt.c and info.c of kernel/nsh/builtins/: what their words set or show.
use nulix.Common.{ℕ, ◌==◌, ltb, leb, ◌||◌, if◌then◌else◌, Option, none, some, List, [], ◌∷◌}
use nulix.Stdlib.Strtol.{strtol}
use nulix.Screen.Buffer.{Screenbuf, sb_dfl_color, sb_set_color, sb_set_fg, sb_set_bg}
use nulix.Keyboard.State.{Keyboard, kbd_setkeymap}
use nulix.Keyboard.Us104.{us104_getkeymapentry}
use nulix.Keyboard.Fr.{fr_getkeymapentry}
use nulix.Kpm.Buddy.{norders}
use nulix.Commands.Args.{
  Argv, Reply, usage, badly_formatted, unknown, silent, done, has_rest, is_negative_int, is_word,
  find_word,
}

-- black, blue, green, cyan, red, magenta, brown, lightgrey, darkgrey, lightblue, lightgreen, lightcyan,
-- lightred, lightmagenta, lightbrown and white.
abbrev pub colors : List (List ℕ)
colors =
    (98 ∷ 108 ∷ 97 ∷ 99 ∷ 107 ∷ [])
    ∷ (98 ∷ 108 ∷ 117 ∷ 101 ∷ [])
    ∷ (103 ∷ 114 ∷ 101 ∷ 101 ∷ 110 ∷ [])
    ∷ (99 ∷ 121 ∷ 97 ∷ 110 ∷ [])
    ∷ (114 ∷ 101 ∷ 100 ∷ [])
    ∷ (109 ∷ 97 ∷ 103 ∷ 101 ∷ 110 ∷ 116 ∷ 97 ∷ [])
    ∷ (98 ∷ 114 ∷ 111 ∷ 119 ∷ 110 ∷ [])
    ∷ (108 ∷ 105 ∷ 103 ∷ 104 ∷ 116 ∷ 103 ∷ 114 ∷ 101 ∷ 121 ∷ [])
    ∷ (100 ∷ 97 ∷ 114 ∷ 107 ∷ 103 ∷ 114 ∷ 101 ∷ 121 ∷ [])
    ∷ (108 ∷ 105 ∷ 103 ∷ 104 ∷ 116 ∷ 98 ∷ 108 ∷ 117 ∷ 101 ∷ [])
    ∷ (108 ∷ 105 ∷ 103 ∷ 104 ∷ 116 ∷ 103 ∷ 114 ∷ 101 ∷ 101 ∷ 110 ∷ [])
    ∷ (108 ∷ 105 ∷ 103 ∷ 104 ∷ 116 ∷ 99 ∷ 121 ∷ 97 ∷ 110 ∷ [])
    ∷ (108 ∷ 105 ∷ 103 ∷ 104 ∷ 116 ∷ 114 ∷ 101 ∷ 100 ∷ [])
    ∷ (108 ∷ 105 ∷ 103 ∷ 104 ∷ 116 ∷ 109 ∷ 97 ∷ 103 ∷ 101 ∷ 110 ∷ 116 ∷ 97 ∷ [])
    ∷ (108 ∷ 105 ∷ 103 ∷ 104 ∷ 116 ∷ 98 ∷ 114 ∷ 111 ∷ 119 ∷ 110 ∷ [])
    ∷ (119 ∷ 104 ∷ 105 ∷ 116 ∷ 101 ∷ [])
    ∷ []

pub record Colored : Type 0 where
  pub reply : Reply
  pub screen : Screenbuf

abbrev pub set_found : (ℕ → Screenbuf) → Screenbuf → Option ℕ → Colored
set_found set sb none = record { reply = unknown; screen = sb }
set_found set sb (some i) = record { reply = done; screen = set i }

-- The words are "reset", "fg" and "bg".
unfoldable pub color : ℕ → Argv → Screenbuf → Colored
color argc argv sb =
    let fg = set_found (sb_set_fg sb) sb (find_word (argv 2) colors) in
    let bg = set_found (sb_set_bg sb) sb (find_word (argv 2) colors) in
    if ltb argc 2
    then record { reply = usage; screen = sb }
    else if is_word (argv 1) (114 ∷ 101 ∷ 115 ∷ 101 ∷ 116 ∷ [])
    then record { reply = silent; screen = sb_set_color sb sb_dfl_color }
    else if ltb argc 3
    then record { reply = usage; screen = sb }
    else if is_word (argv 1) (102 ∷ 103 ∷ [])
    then fg
    else if is_word (argv 1) (98 ∷ 103 ∷ [])
    then bg
    else record { reply = unknown; screen = sb }

pub record Mapped : Type 0 where
  pub reply : Reply
  pub keyboard : Keyboard

-- The words are "list", "us" and "fr"; the list itself is not in the model.
unfoldable pub keymap : ℕ → Argv → Keyboard → Mapped
keymap argc argv kbd =
    if ltb argc 2
    then record { reply = usage; keyboard = kbd }
    else if is_word (argv 1) (108 ∷ 105 ∷ 115 ∷ 116 ∷ [])
    then record { reply = silent; keyboard = kbd }
    else if is_word (argv 1) (117 ∷ 115 ∷ [])
    then record { reply = done; keyboard = kbd_setkeymap us104_getkeymapentry kbd }
    else if is_word (argv 1) (102 ∷ 114 ∷ [])
    then record { reply = done; keyboard = kbd_setkeymap fr_getkeymapentry kbd }
    else record { reply = unknown; keyboard = kbd }

-- The interrupt that is raised, if one is. Another number gets a message, and returns 0.
pub record Raised : Type 0 where
  pub reply : Reply
  pub number : Option ℕ

unfoldable pub interrupt : ℕ → Argv → Raised
interrupt argc argv =
    let c = strtol (argv 1) 0 in
    if ltb argc 2
    then record { reply = usage; number = none }
    else if has_rest (argv 1) c
    then record { reply = badly_formatted; number = none }
    else record {
      reply = done;
      number = if c.value == 0 || c.value == 4 || c.value == 8 then some c.value else none;
    }

-- What info shows; the buddy allocator with one of its orders, or without.
pub data Part : Type 0 where
  gdt : Part
  stack : Part
  buddy : Option ℕ → Part
  idt : Part
  registers : Part

pub record Shown : Type 0 where
  pub reply : Reply
  pub part : Option Part

abbrev pub info_buddy : ℕ → Argv → Shown
info_buddy argc argv =
    let c = strtol (argv 2) 0 in
    if ltb 2 argc
    then (if has_rest (argv 2) c || is_negative_int c.value || leb norders c.value
        then record { reply = badly_formatted; part = none }
        else record { reply = done; part = some (buddy (some c.value)) })
    else record { reply = done; part = some (buddy none) }

-- The words are "gdt", "stack", "buddy", "idt" and "registers".
unfoldable pub info : ℕ → Argv → Shown
info argc argv =
    if ltb argc 2
    then record { reply = usage; part = none }
    else if is_word (argv 1) (103 ∷ 100 ∷ 116 ∷ [])
    then record { reply = done; part = some gdt }
    else if is_word (argv 1) (115 ∷ 116 ∷ 97 ∷ 99 ∷ 107 ∷ [])
    then record { reply = done; part = some stack }
    else if is_word (argv 1) (98 ∷ 117 ∷ 100 ∷ 100 ∷ 121 ∷ [])
    then info_buddy argc argv
    else if is_word (argv 1) (105 ∷ 100 ∷ 116 ∷ [])
    then record { reply = done; part = some idt }
    else if is_word (argv 1) (114 ∷ 101 ∷ 103 ∷ 105 ∷ 115 ∷ 116 ∷ 101 ∷ 114 ∷ 115 ∷ [])
    then record { reply = done; part = some registers }
    else record { reply = unknown; part = none }
