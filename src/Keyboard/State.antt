-- ===== src/Keyboard/State.antt =====
-- The keyboard's state (include/kernel/keyboard.h) and the functions of
-- kernel/keyboard/keyboard.c that change it or read it, apart from the bytes of the port.
use nulix.Common.{
  ℕ, ◌==◌, Bool, true, false, ◌&&◌, ◌||◌, not, if◌then◌else◌, bit_and, Option, none, some,
}
use nulix.Keyboard.Keycode.{
  key_left_ctrl, key_left_shift, key_right_shift, key_left_alt, key_caps_lock, key_numlock,
  key_right_ctrl, key_right_alt, same_key, Keycode,
}

pub data EventType : Type 0 where
  key_pressed : EventType
  key_released : EventType

pub record Event : Type 0 where
  pub type : EventType
  pub key : Keycode

pub record Modifiers : Type 0 where
  pub lshift : Bool
  pub rshift : Bool
  pub capslock : Bool
  pub lctrl : Bool
  pub rctrl : Bool
  pub lalt : Bool
  pub ralt : Bool
  pub numlock : Bool

-- The flags of a keymap's entry.
abbrev pub no_mod : ℕ
no_mod = 0b100

abbrev pub capslock_flag : ℕ
capslock_flag = 0b010

abbrev pub numlock_flag : ℕ
numlock_flag = 0b001

pub record KeymapEntry : Type 0 where
  pub flags : ℕ
  pub reg : ℕ
  pub shift : ℕ
  pub altgr : ℕ

abbrev pub entry : ℕ → ℕ → ℕ → ℕ → KeymapEntry
entry flags reg shift altgr = record { flags = flags; reg = reg; shift = shift; altgr = altgr }

abbrev pub has_capslock_effect : KeymapEntry → Bool
has_capslock_effect e = not (bit_and e.flags 0b010 == 0)

abbrev pub has_no_modifiers : KeymapEntry → Bool
has_no_modifiers e = not (bit_and e.flags 0b100 == 0)

pub record Keyboard : Type 0 where
  pub getkeymapentry : Option (Keycode → KeymapEntry)
  pub modifiers : Modifiers
  pub ext : Bool

abbrev pub is_pressed : EventType → Bool
is_pressed key_pressed = true
is_pressed key_released = false

abbrev pub is_released : EventType → Bool
is_released t = not (is_pressed t)

unfoldable pub set_modifiers : Event → Modifiers → Modifiers
set_modifiers evt m =
    if same_key evt.key key_left_shift
    then record m { lshift = is_pressed evt.type }
    else if same_key evt.key key_right_shift
    then record m { rshift = is_pressed evt.type }
    else if same_key evt.key key_caps_lock
    then (if is_released evt.type then record m { capslock = not m.capslock } else m)
    else if same_key evt.key key_numlock
    then (if is_released evt.type then record m { numlock = not m.numlock } else m)
    else if same_key evt.key key_left_ctrl
    then record m { lctrl = is_pressed evt.type }
    else if same_key evt.key key_right_ctrl
    then record m { rctrl = is_pressed evt.type }
    else if same_key evt.key key_left_alt
    then record m { lalt = is_pressed evt.type }
    else if same_key evt.key key_right_alt
    then record m { ralt = is_pressed evt.type }
    else m

-- The character of a key by its entry.
unfoldable pub entry_char : Modifiers → KeymapEntry → ℕ
entry_char m ent =
    if ent.reg == 0
    then 0
    else if has_no_modifiers ent
    then ent.reg
    else if m.ralt
    then ent.altgr
    else if m.capslock && has_capslock_effect ent
    then (if m.lshift || m.rshift then ent.reg else ent.shift)
    else (if m.lshift || m.rshift then ent.shift else ent.reg)

unfoldable pub kbd_getchar : Keyboard → Event → ℕ
kbd_getchar st evt = elim st.getkeymapentry [
  | none ↦ 0
  | some f ↦ entry_char st.modifiers (f evt.key)
]

abbrev pub kbd_setkeymap : (Keycode → KeymapEntry) → Keyboard → Keyboard
kbd_setkeymap f st = record st { getkeymapentry = some f }
