-- ===== src/Keyboard/Driver.antt =====
-- KBD_getevent and KBD_geteventbytype of kernel/keyboard/keyboard.c, as functions of the bytes
-- that the PS/2 data port gives.
use nulix.Common.{
  ℕ, ◌-◌, ◌==◌, ltb, Bool, true, false, ◌&&◌, if◌then◌else◌, Option, none, some, List, [], ◌∷◌,
  length, get_or,
}
use nulix.Keyboard.Keycode.{Keycode, unknown, same_key}
use nulix.Keyboard.Scancodes.{kbd_reg_keycodes, kbd_ext_keycodes}
use nulix.Keyboard.Us104.{us104_getkeymapentry}
use nulix.Keyboard.State.{
  kbd_setkeymap, Keyboard, Event, EventType, key_pressed, key_released, set_modifiers,
}

-- KBD_initialize: the functions that set the lamps do nothing yet.
abbrev pub kbd_initialize : Keyboard → Keyboard
kbd_initialize st = kbd_setkeymap us104_getkeymapentry st

-- What KBD_getevent returns: 0, -1 or -2.
pub data Status : Type 0 where
  available : Status
  failed : Status
  waiting : Status

pub record Read : Type 0 where
  pub status : Status
  pub event : Event
  pub keyboard : Keyboard

-- An entry of a table; none is a read past its end.
unfoldable pub table_at : List Keycode → ℕ → Option Keycode
table_at table sc = if ltb sc (length table) then some (get_or table sc unknown) else none

-- The part after the type and the table are known.
unfoldable pub take_key : Keyboard → EventType → Keycode → Read
take_key st type key =
    let evt : Event = record { type = type; key = key } in
    record {
      status = if same_key key unknown then failed else available;
      event = evt;
      keyboard = record st { modifiers = set_modifiers evt st.modifiers; ext = false };
    }

abbrev pub found_key : Keyboard → EventType → Option Keycode → Option Read
found_key st type none = none
found_key st type (some key) = some (take_key st type key)

-- A byte other than the prefix. None is a read past the end of a table of key codes.
unfoldable pub take_scancode : Keyboard → EventType → ℕ → Option Read
take_scancode st type sc =
    found_key st type (table_at (if st.ext then kbd_ext_keycodes else kbd_reg_keycodes) sc)

-- The keyboard with an event structure and the byte of the port.
unfoldable pub kbd_getevent : Keyboard → Event → ℕ → Option Read
kbd_getevent st evt sc =
    if sc == 0xE0
    then (if st.ext
        then some (record { status = failed; event = evt; keyboard = st })
        else some (record { status = waiting; event = evt; keyboard = record st { ext = true } }))
    else if ltb 0x80 sc
    then take_scancode st key_released (sc - 0x80)
    else take_scancode st key_pressed sc

abbrev pub is_available : Status → Bool
is_available available = true
is_available _ = false

abbrev pub same_type : EventType → EventType → Bool
same_type key_pressed key_pressed = true
same_type key_released key_released = true
same_type _ _ = false

-- How a wait for an event ends: with an event, with a read out of a table, or not before the
-- bytes at hand are used up.
pub data Wait : Type 0 where
  got : Event → Keyboard → List ℕ → Wait
  out_of_table : Wait
  pending : Event → Keyboard → Wait

-- What one read does to the wait; `later` waits for the rest of the bytes.
abbrev pub on_read : EventType → List ℕ → (Keyboard → Event → Wait) → Option Read → Wait
on_read type rest later none = out_of_table
on_read type rest later (some r) =
    let next = later r.keyboard r.event in
    if is_available r.status && same_type r.event.type type
    then got r.event r.keyboard rest
    else next

unfoldable pub kbd_geteventbytype : EventType → List ℕ → Keyboard → Event → Wait
kbd_geteventbytype type [] st evt = pending evt st
kbd_geteventbytype type (sc ∷ rest) st evt =
    on_read type rest (kbd_geteventbytype type rest) (kbd_getevent st evt sc)
