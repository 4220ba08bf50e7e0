-- ===== src/Keyboard/Letters.antt =====
-- KBD_getchar of kernel/keyboard/keyboard.c on the letters of the US keymap.
use nulix.Common.{◌+◌, ◌-◌, ◌≤◌, ◌≡◌, Bool, true, false, ◌||◌, not, if◌then◌else◌, some, arith}
use nulix.Keyboard.Keycode.{Keycode}
use nulix.Keyboard.State.{
  Keyboard, KeymapEntry, Event, Modifiers, kbd_getchar, entry_char, has_capslock_effect,
  has_no_modifiers,
}
use nulix.Keyboard.Us104.{us104_getkeymapentry}

abbrev xor : Bool → Bool → Bool
xor true b = not b
xor false b = b

pub record Letter (e : KeymapEntry) : Type 0 where
  pub lower : 97 ≤ e.reg
  pub upper : e.reg ≤ 122
  pub shifted : e.shift + 32 ≡ e.reg
  pub altgr_none : e.altgr ≡ 0
  pub modifiable : has_no_modifiers e ≡ false

-- Whether a letter is a capital: one of the locks and shift, and not both.
unfoldable pub is_capital : Modifiers → Bool
is_capital m = xor m.capslock (m.lshift || m.rshift)

us104-Letter :
    (k : Keycode)
    → has_capslock_effect (us104_getkeymapentry k) ≡ true
    → Letter (us104_getkeymapentry k)
unfolding us104_getkeymapentry
us104-Letter _ h = record {
  lower = ground arith;
  upper = ground arith;
  shifted = ground arith;
  altgr_none = ground arith;
  modifiable = ground arith;
}

entry_char-Letter :
    (m : Modifiers) (e : KeymapEntry)
    → has_capslock_effect e ≡ true
    → Letter e
    → entry_char m e ≡ (if m.ralt then 0 else if is_capital m then e.reg - 32 else e.reg)
unfolding entry_char is_capital
entry_char-Letter m e h l = ground (arith, l.lower, l.upper, l.shifted, l.altgr_none, l.modifiable)

-- With the US keymap a key that capslock affects gives a small letter, or the capital of that
-- letter if exactly one of capslock and the shift keys is on; with the right alt key it gives
-- nothing.
pub kbd_getchar-letter :
    (st : Keyboard) (evt : Event)
    → st.getkeymapentry ≡ some us104_getkeymapentry
    → has_capslock_effect (us104_getkeymapentry evt.key) ≡ true
    → (97 ≤ (us104_getkeymapentry evt.key).reg)
      × ((us104_getkeymapentry evt.key).reg ≤ 122)
      × (kbd_getchar st evt ≡ (
          if st.modifiers.ralt
          then 0
          else if is_capital st.modifiers
          then (us104_getkeymapentry evt.key).reg - 32
          else (us104_getkeymapentry evt.key).reg))
unfolding kbd_getchar
kbd_getchar-letter st evt e h =
    let letter = us104-Letter evt.key h in
    (
      letter.lower,
      letter.upper,
      rw e (entry_char-Letter st.modifiers (us104_getkeymapentry evt.key) h letter),
    )
