-- ===== src/Keyboard/Tests.antt =====
-- Runs of the keyboard driver, and instances of its theorems.
use nulix.Common.{◌≤◌, ◌≡◌, refl, true, false, none, some, List, [], ◌∷◌, if◌then◌else◌, ◌-◌}
use nulix.Keyboard.Keycode.{unknown, key_a, key_left_shift, key_caps_lock, key_right_alt}
use nulix.Keyboard.State.{
  Keyboard, Modifiers, Event, key_pressed, key_released, set_modifiers, kbd_getchar, entry_char,
}
use nulix.Keyboard.Driver.{got, kbd_geteventbytype, kbd_getevent, take_scancode, take_key, table_at}
use nulix.Keyboard.Held.{Follows, follow, follow-Follows}
use nulix.Keyboard.Strokes.{
  Stroke, bytes, next_stroke, last_byte, key_of, table_of, is_known, all_known,
  kbd_geteventbytype-next_stroke,
}
use nulix.Keyboard.Us104.{us104_getkeymapentry}
use nulix.Keyboard.Letters.{is_capital, kbd_getchar-letter}

abbrev no_modifiers : Modifiers
no_modifiers = record {
  lshift = false;
  rshift = false;
  capslock = false;
  lctrl = false;
  rctrl = false;
  lalt = false;
  ralt = false;
  numlock = false;
}

abbrev us_keyboard : Keyboard
us_keyboard = record {
  getkeymapentry = some us104_getkeymapentry;
  modifiers = no_modifiers;
  ext = false;
}

abbrev no_event : Event
no_event = record { type = key_pressed; key = unknown }

-- Shift goes down, right alt goes down and up, and then A goes down.
abbrev shift_and_alt : List Event
shift_and_alt =
    record { type = key_pressed; key = key_left_shift }
    ∷ record { type = key_pressed; key = key_right_alt }
    ∷ record { type = key_released; key = key_right_alt }
    ∷ record { type = key_released; key = key_caps_lock }
    ∷ []

abbrev alt_then_a : List Stroke
alt_then_a =
    record { extended = true; type = key_released; scancode = 0x38 }
    ∷ record { extended = false; type = key_pressed; scancode = 0x1E }
    ∷ record { extended = false; type = key_released; scancode = 0x1E }
    ∷ []

alt_then_a_bytes : bytes alt_then_a ≡ 0xE0 ∷ 0xB8 ∷ 0x1E ∷ 0x9E ∷ []
unfolding bytes last_byte
alt_then_a_bytes = refl

alt_then_a_read :
    kbd_geteventbytype key_pressed (0xE0 ∷ 0xB8 ∷ 0x1E ∷ 0x9E ∷ []) us_keyboard no_event
    ≡ got (record { type = key_pressed; key = key_a }) us_keyboard (0x9E ∷ [])
unfolding kbd_geteventbytype kbd_getevent take_scancode take_key table_at set_modifiers
alt_then_a_read = refl

-- A scancode after the table's last.
past_the_table : kbd_getevent us_keyboard no_event 0x59 ≡ none
unfolding kbd_getevent take_scancode table_at
past_the_table = refl

alt_then_a-known : all_known alt_then_a ≡ true
unfolding all_known is_known key_of table_of
alt_then_a-known = refl

follow-Follows_example : Follows no_modifiers shift_and_alt (follow shift_and_alt no_modifiers)
follow-Follows_example = follow-Follows shift_and_alt no_modifiers

kbd_geteventbytype-next_stroke_example :
    kbd_geteventbytype key_pressed (bytes alt_then_a) us_keyboard no_event
    ≡ next_stroke key_pressed us_keyboard no_event alt_then_a
kbd_geteventbytype-next_stroke_example =
    kbd_geteventbytype-next_stroke key_pressed alt_then_a us_keyboard no_event alt_then_a-known refl

abbrev shifted_keyboard : Keyboard
shifted_keyboard = record us_keyboard { modifiers = record no_modifiers { lshift = true } }

abbrev a_pressed : Event
a_pressed = record { type = key_pressed; key = key_a }

capital_a : kbd_getchar shifted_keyboard a_pressed ≡ 65
unfolding kbd_getchar entry_char us104_getkeymapentry
capital_a = refl

kbd_getchar-letter_example :
    (97 ≤ (us104_getkeymapentry key_a).reg)
    × ((us104_getkeymapentry key_a).reg ≤ 122)
    × (kbd_getchar shifted_keyboard a_pressed ≡ (
        if shifted_keyboard.modifiers.ralt
        then 0
        else if is_capital shifted_keyboard.modifiers
        then (us104_getkeymapentry key_a).reg - 32
        else (us104_getkeymapentry key_a).reg))
unfolding us104_getkeymapentry
kbd_getchar-letter_example = kbd_getchar-letter shifted_keyboard a_pressed refl refl
