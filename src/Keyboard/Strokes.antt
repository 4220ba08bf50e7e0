-- ===== src/Keyboard/Strokes.antt =====
-- The bytes of kernel/keyboard/keyboard.c against the strokes that they stand for: a stroke of a
-- key sends its scancode, with 0x80 added when the key is let go, after 0xE0 for an extended key.
use nulix.Common.{
  ℕ, ◌+◌, ◌-◌, ◌≤◌, ◌<◌, ◌≡◌, ◌≢◌, refl, sym, ap, ◌∙◌, leb, Bool, true, false, ◌&&◌, not,
  if◌then◌else◌, some, List, [], ◌∷◌, length, get_or, get_or_past, arith, Bool-cases, inl, inr,
}
use nulix.Keyboard.Keycode.{Keycode, unknown, same_key}
use nulix.Keyboard.Scancodes.{kbd_reg_keycodes, kbd_ext_keycodes}
use nulix.Keyboard.State.{
  Keyboard, Event, EventType, key_pressed, key_released, is_pressed, set_modifiers,
}
use nulix.Keyboard.Driver.{
  Read, available, waiting, Wait, got, pending, table_at, take_key, found_key, take_scancode,
  kbd_getevent, kbd_geteventbytype, on_read, same_type, is_available,
}

pub record Stroke : Type 0 where
  pub extended : Bool
  pub type : EventType
  pub scancode : ℕ

unfoldable pub table_of : Bool → List Keycode
table_of extended = if extended then kbd_ext_keycodes else kbd_reg_keycodes

unfoldable pub key_of : Stroke → Keycode
key_of s = get_or (table_of s.extended) s.scancode unknown

-- The key has a scancode in its table.
unfoldable pub is_known : Stroke → Bool
is_known s = leb 1 s.scancode && not (same_key (key_of s) unknown)

unfoldable pub all_known : List Stroke → Bool
all_known [] = true
all_known (s ∷ ss) = is_known s && all_known ss

unfoldable pub last_byte : Stroke → ℕ
last_byte s = if is_pressed s.type then s.scancode else s.scancode + 0x80

unfoldable pub bytes : List Stroke → List ℕ
bytes [] = []
bytes (s ∷ ss) = if s.extended then 0xE0 ∷ last_byte s ∷ bytes ss else last_byte s ∷ bytes ss

unfoldable pub event_of : Stroke → Event
event_of s = record { type = s.type; key = key_of s }

-- The keyboard after a stroke.
unfoldable pub after : Keyboard → Stroke → Keyboard
after st s = record st { modifiers = set_modifiers (event_of s) st.modifiers; ext = false }

-- The wait for an event, on strokes in place of bytes.
unfoldable pub next_stroke : EventType → Keyboard → Event → List Stroke → Wait
next_stroke type st evt [] = pending evt st
next_stroke type st evt (s ∷ ss) =
    let later = next_stroke type (after st s) (event_of s) ss in
    if same_type s.type type then got (event_of s) (after st s) (bytes ss) else later

known-bounds : (s : Stroke) → is_known s ≡ true → s.scancode < length (table_of s.extended)
unfolding is_known key_of
known-bounds s h = ground (arith, get_or_past (table_of s.extended) s.scancode unknown)

known-pos : (s : Stroke) → is_known s ≡ true → 1 ≤ s.scancode
unfolding is_known
known-pos s h = ground arith

length-table_of : (b : Bool) → length (table_of b) ≤ 110
unfolding table_of
length-table_of true = omega arith
length-table_of false = omega arith

unknown_at_0x60 : (b : Bool) → get_or (table_of b) 0x60 unknown ≡ unknown
unfolding table_of
unknown_at_0x60 true = refl
unknown_at_0x60 false = refl

-- So a release is not taken for the prefix.
known-not_prefix : (s : Stroke) → is_known s ≡ true → s.scancode ≢ 0x60
unfolding is_known key_of
known-not_prefix s h e =
    let none : key_of s ≡ unknown =
      ap (λ (i : ℕ). get_or (table_of s.extended) i unknown) e ∙ unknown_at_0x60 s.extended in
    ground (arith, ap (λ (k : Keycode). same_key k unknown) none)

table_at_known :
    (s : Stroke) → is_known s ≡ true → table_at (table_of s.extended) s.scancode ≡ some (key_of s)
unfolding table_at key_of
table_at_known s h = ground (arith, known-bounds s h)

take_scancode_known :
    (s : Stroke) (st : Keyboard)
    → is_known s ≡ true
    → st.ext ≡ s.extended
    → take_scancode st s.type s.scancode ≡ some (take_key st s.type (key_of s))
unfolding take_scancode table_of
take_scancode_known s st h e =
    ap (λ (b : Bool). found_key st s.type (table_at (table_of b) s.scancode)) e
    ∙ ap (found_key st s.type) (table_at_known s h)

byte_of : EventType → ℕ → ℕ
byte_of type sc = if is_pressed type then sc else sc + 0x80

kbd_getevent-byte_of :
    (type : EventType) (sc : ℕ) (st : Keyboard) (evt : Event)
    → 1 ≤ sc
    → sc < 110
    → sc ≢ 0x60
    → kbd_getevent st evt (byte_of type sc) ≡ take_scancode st type sc
unfolding kbd_getevent byte_of
kbd_getevent-byte_of key_pressed sc st evt lo hi ne = ground arith
kbd_getevent-byte_of key_released sc st evt lo hi ne =
    let back : sc + 0x80 - 0x80 ≡ sc = omega arith in
    ground (arith, ap (take_scancode st key_released) back)

-- The byte that ends a stroke.
kbd_getevent-last_byte :
    (s : Stroke) (st : Keyboard) (evt : Event)
    → is_known s ≡ true
    → st.ext ≡ s.extended
    → kbd_getevent st evt (last_byte s) ≡ some (take_key st s.type (key_of s))
unfolding last_byte byte_of
kbd_getevent-last_byte s st evt h e =
    let table_size = length-table_of s.extended in
    kbd_getevent-byte_of s.type s.scancode st evt (known-pos s h) (omega (arith, known-bounds s h))
      (known-not_prefix s h)
    ∙ take_scancode_known s st h e

kbd_getevent-prefix :
    (st : Keyboard) (evt : Event)
    → st.ext ≡ false
    → kbd_getevent st evt 0xE0
      ≡ some (record { status = waiting; event = evt; keyboard = record st { ext = true } })
unfolding kbd_getevent
kbd_getevent-prefix st evt e = ground arith

is_available-known :
    (s : Stroke) (st : Keyboard)
    → is_known s ≡ true
    → (take_key st s.type (key_of s)).status ≡ available
unfolding is_known take_key
is_available-known s st h = ground arith

wait-read :
    (type : EventType) (st : Keyboard) (evt : Event) (sc : ℕ) (rest : List ℕ) (r : Read)
    → kbd_getevent st evt sc ≡ some r
    → kbd_geteventbytype type (sc ∷ rest) st evt ≡ (
        if is_available r.status && same_type r.event.type type
        then got r.event r.keyboard rest
        else kbd_geteventbytype type rest r.keyboard r.event)
unfolding kbd_geteventbytype
wait-read type st evt sc rest r e = ap (on_read type rest (kbd_geteventbytype type rest)) e

wait-prefix :
    (type : EventType) (st : Keyboard) (evt : Event) (rest : List ℕ)
    → st.ext ≡ false
    → kbd_geteventbytype type (0xE0 ∷ rest) st evt
      ≡ kbd_geteventbytype type rest (record st { ext = true }) evt
wait-prefix type st evt rest e = wait-read type st evt 0xE0 rest _ (kbd_getevent-prefix st evt e)

wait-last_byte :
    (type : EventType) (s : Stroke) (st : Keyboard) (evt : Event) (rest : List ℕ)
    → is_known s ≡ true
    → st.ext ≡ s.extended
    → kbd_geteventbytype type (last_byte s ∷ rest) st evt ≡ (
        if same_type s.type type
        then got (event_of s) (after st s) rest
        else kbd_geteventbytype type rest (after st s) (event_of s))
unfolding take_key after event_of
wait-last_byte type s st evt rest h e =
    let read =
      wait-read type st evt (last_byte s) rest (take_key st s.type (key_of s))
        (kbd_getevent-last_byte s st evt h e) in
    read ∙ ground (arith, is_available-known s st h)

wait-stroke :
    (type : EventType) (s : Stroke) (ss : List Stroke) (st : Keyboard) (evt : Event)
    → is_known s ≡ true
    → st.ext ≡ false
    → kbd_geteventbytype type (bytes (s ∷ ss)) st evt ≡ (
        if same_type s.type type
        then got (event_of s) (after st s) (bytes ss)
        else kbd_geteventbytype type (bytes ss) (after st s) (event_of s))
unfolding bytes after
wait-stroke type s ss st evt h e = elim (Bool-cases s.extended) [
  | inl x ↦ ground (
    arith,
    wait-prefix type st evt (last_byte s ∷ bytes ss) e,
    wait-last_byte type s (record st { ext = true }) evt (bytes ss) h (sym x),
  )
  | inr r ↦ ground (arith, wait-last_byte type s st evt (bytes ss) h (e ∙ sym r))
]

-- On the bytes of strokes of known keys, extended or not, the wait for an event reads whole
-- strokes: it ends with the first one of the wanted type and leaves the bytes of the later ones,
-- and every stroke on the way is in the modifiers.
pub kbd_geteventbytype-next_stroke :
    (type : EventType) (ss : List Stroke) (st : Keyboard) (evt : Event)
    → all_known ss ≡ true
    → st.ext ≡ false
    → kbd_geteventbytype type (bytes ss) st evt ≡ next_stroke type st evt ss
unfolding kbd_geteventbytype next_stroke bytes all_known after
kbd_geteventbytype-next_stroke type [] st evt h e = refl
kbd_geteventbytype-next_stroke type (s ∷ ss) st evt h e =
    let rest =
      kbd_geteventbytype-next_stroke type ss (after st s) (event_of s) (ground arith) refl in
    wait-stroke type s ss st evt (ground arith) e
    ∙ ap
        (λ (w : Wait).
          if same_type s.type type then got (event_of s) (after st s) (bytes ss) else w)
        rest
