-- ===== src/Screen/Strings.antt =====
-- Strings on the screen of kernel/screenbuf.c, from its initialisation on.
use nulix.Common.{ℕ, ◌≡◌, refl, ◌∙◌, ◌==◌, arith, Bool, true, ◌&&◌, not, List, [], ◌∷◌, length, ap}
use nulix.Screen.Buffer.{Screenbuf, sb_init, sb_whitespace}
use nulix.Screen.Output.{sb_putstr, then_put}
use nulix.Screen.Pointers.{IsLine, length-sb_memset}
use nulix.Screen.Bounds.{Within, Stays}
use nulix.Screen.Erase.{sb_putchar-Stays}

unfoldable pub has_no_backspace : List ℕ → Bool
has_no_backspace [] = true
has_no_backspace (c ∷ s) = not (c == 8) && has_no_backspace s

pub zero-IsLine : IsLine 0
zero-IsLine = record { inside = omega arith; aligned = refl }

pub sb_init-Within : (sb : Screenbuf) → length sb.buf ≡ 16000 → Within 79 (sb_init sb)
unfolding sb_init
sb_init-Within sb h = record {
  endbuf = refl;
  size =
      length-sb_memset _ 0 sb_whitespace 16000 ∙ length-sb_memset sb.buf 0 sb_whitespace 16000 ∙ h;
  top = zero-IsLine;
  viewport = zero-IsLine;
  cursor = zero-IsLine;
  offset = omega arith;
}

-- After a string without backspaces, of any length, every pointer is at the start of a line of the
-- buffer.
pub sb_putstr-Stays :
    (s : List ℕ) (sb : Screenbuf)
    → Within 79 sb
    → has_no_backspace s ≡ true
    → Stays 79 (sb_putstr s sb)
unfolding sb_putstr has_no_backspace
sb_putstr-Stays [] sb w h = record { after = sb; is_some = refl; within = w }
sb_putstr-Stays (c ∷ s) sb w h =
    let one = sb_putchar-Stays sb c w (λ e. absurd (ground arith)) in
    let rest = sb_putstr-Stays s one.after one.within (ground arith) in
    record {
      after = rest.after;
      is_some = ap (then_put (sb_putstr s)) one.is_some ∙ rest.is_some;
      within = rest.within;
    }
