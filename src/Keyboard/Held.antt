-- ===== src/Keyboard/Held.antt =====
-- What the modifiers of kernel/keyboard/keyboard.c mean: which keys are held down, and how often a
-- lock key has been released.
use nulix.Common.{◌≡◌, refl, ap, ◌∙◌, Bool, not, if◌then◌else◌, List, [], ◌∷◌, arith}
use nulix.Keyboard.Keycode.{
  Keycode, same_key, key_left_shift, key_right_shift, key_caps_lock, key_numlock, key_left_ctrl,
  key_right_ctrl, key_left_alt, key_right_alt,
}
use nulix.Keyboard.State.{Event, is_pressed, Modifiers, set_modifiers}

-- Whether a key is down after some events.
unfoldable pub held : Keycode → Bool → List Event → Bool
held key down [] = down
held key down (e ∷ es) = held key (if same_key e.key key then is_pressed e.type else down) es

-- Whether a lock is on after some events: each release of its key turns it.
unfoldable pub locked : Keycode → Bool → List Event → Bool
locked key on [] = on
locked key on (e ∷ es) =
    locked key (if same_key e.key key then (if is_pressed e.type then on else not on) else on) es

unfoldable pub follow : List Event → Modifiers → Modifiers
follow [] m = m
follow (e ∷ es) m = follow es (set_modifiers e m)

pub record Follows (m : Modifiers) (es : List Event) (n : Modifiers) : Type 0 where
  pub lshift : n.lshift ≡ held key_left_shift m.lshift es
  pub rshift : n.rshift ≡ held key_right_shift m.rshift es
  pub capslock : n.capslock ≡ locked key_caps_lock m.capslock es
  pub lctrl : n.lctrl ≡ held key_left_ctrl m.lctrl es
  pub rctrl : n.rctrl ≡ held key_right_ctrl m.rctrl es
  pub lalt : n.lalt ≡ held key_left_alt m.lalt es
  pub ralt : n.ralt ≡ held key_right_alt m.ralt es
  pub numlock : n.numlock ≡ locked key_numlock m.numlock es

-- One event.
set_modifiers-Follows : (e : Event) (m : Modifiers) → Follows m (e ∷ []) (set_modifiers e m)
unfolding held locked set_modifiers
set_modifiers-Follows e m = record {
  lshift = ground arith;
  rshift = ground arith;
  capslock = ground arith;
  lctrl = ground arith;
  rctrl = ground arith;
  lalt = ground arith;
  ralt = ground arith;
  numlock = ground arith;
}

-- After any events, each of the modifiers lshift, rshift, lctrl, rctrl, lalt and ralt says
-- whether its key is down, and capslock and numlock have turned once for each release of their
-- keys.
pub follow-Follows : (es : List Event) (m : Modifiers) → Follows m es (follow es m)
unfolding held locked follow
follow-Follows [] m = record {
  lshift = refl;
  rshift = refl;
  capslock = refl;
  lctrl = refl;
  rctrl = refl;
  lalt = refl;
  ralt = refl;
  numlock = refl;
}
follow-Follows (e ∷ es) m =
    let step = set_modifiers-Follows e m in
    let rest = follow-Follows es (set_modifiers e m) in
    record {
      lshift = rest.lshift ∙ ap (λ (b : Bool). held key_left_shift b es) step.lshift;
      rshift = rest.rshift ∙ ap (λ (b : Bool). held key_right_shift b es) step.rshift;
      capslock = rest.capslock ∙ ap (λ (b : Bool). locked key_caps_lock b es) step.capslock;
      lctrl = rest.lctrl ∙ ap (λ (b : Bool). held key_left_ctrl b es) step.lctrl;
      rctrl = rest.rctrl ∙ ap (λ (b : Bool). held key_right_ctrl b es) step.rctrl;
      lalt = rest.lalt ∙ ap (λ (b : Bool). held key_left_alt b es) step.lalt;
      ralt = rest.ralt ∙ ap (λ (b : Bool). held key_right_alt b es) step.ralt;
      numlock = rest.numlock ∙ ap (λ (b : Bool). locked key_numlock b es) step.numlock;
    }
