-- ===== src/Screen/Tests.antt =====
-- Runs of the screen buffer, and instances of its theorems.
use nulix.Common.{
  ◌+◌, ℕ, ◌≤◌, ◌≡◌, refl, true, none, some, List, [], ◌∷◌, length, replicate, length-replicate,
  arith, inl,
}
use nulix.Screen.Buffer.{Screenbuf, sb_sync, sb_dfl_color, sb_diff, sb_ldiff}
use nulix.Screen.Output.{sb_putchar, sb_putstr}
use nulix.Screen.Bounds.{Within, Stays}
use nulix.Screen.Erase.{sb_putchar-Stays}
use nulix.Screen.Display.{Shown, sb_sync-Shown}
use nulix.Screen.Line.{are_printable, Typeset, sb_putstr-Typeset}

-- A view that goes around the buffer's end: its first line is the buffer's last.
abbrev around : Screenbuf
around = record {
  top = 80;
  viewport = 15920;
  endbuf = 16000;
  cursor = 0;
  cursor_offset = 2;
  color = sb_dfl_color;
  loaded = true;
  buf = replicate 16000 0x0f41;
  vga = replicate 2000 0;
  shown = none;
}

around-Within : Within 79 around
around-Within = record {
  endbuf = refl;
  size = length-replicate {A = ℕ} 16000 0x0f41;
  top = record { inside = omega arith; aligned = refl };
  viewport = record { inside = omega arith; aligned = refl };
  cursor = record { inside = omega arith; aligned = refl };
  offset = omega arith;
}

around_distance : sb_ldiff around around.viewport around.cursor ≡ 1
unfolding sb_ldiff sb_diff
around_distance = refl

sb_putchar-Stays_example : Stays 79 (sb_putchar around 8)
sb_putchar-Stays_example = sb_putchar-Stays around 8 around-Within (λ e. inl (omega arith))

vga_size : 2000 ≤ length around.vga
vga_size = omega (arith, length-replicate {A = ℕ} 2000 0)

sb_sync-Shown_example : Shown around 0 25 around.vga (sb_sync around).vga
sb_sync-Shown_example = sb_sync-Shown around around-Within refl vga_size

-- "AB"
abbrev two_letters : List ℕ
two_letters = 65 ∷ 66 ∷ []

two_letters_lem : are_printable two_letters ≡ true
unfolding are_printable
two_letters_lem = refl

around_view : sb_diff around around.viewport around.cursor + 80 ≤ length around.vga
unfolding sb_diff
around_view = omega (arith, vga_size)

sb_putstr-Typeset_example :
    (t : Screenbuf) × (sb_putstr two_letters around ≡ some t) × Typeset two_letters around t
sb_putstr-Typeset_example =
    sb_putstr-Typeset two_letters around two_letters_lem (omega arith) (omega arith)
      (omega (arith, length-replicate {A = ℕ} 16000 0x0f41)) around_view
