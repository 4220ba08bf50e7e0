-- ===== src/Screen/Colors.antt =====
-- The colours of kernel/screenbuf.c: a nibble for the foreground and one for the background.
use nulix.Common.{
  ℕ, ◌+◌, ◌*◌, ◌<◌, ◌≡◌, refl, ◌==◌, ==_iff, true, holds_below, holds_below-at, bit_and, bit_or,
}
use nulix.Screen.Buffer.{Screenbuf, sb_set_color, sb_set_fg, sb_set_bg, sb_get_color}

color_table :
    holds_below 256 (λ c. holds_below 16 (λ f. holds_below 16 (λ b.
      bit_or (bit_and (b * 16) 0xf0) (bit_and (bit_or (bit_and c 0xf0) (bit_and f 0x0f)) 0x0f)
      == b * 16 + f)))
    ≡ true
unfolding holds_below
color_table = refl

-- Setting both colours, of 16 each, gives the byte of the two, whatever colour there was before.
pub sb_set_bg-sb_set_fg :
    (sb : Screenbuf) (old fg bg : ℕ)
    → old < 256
    → fg < 16
    → bg < 16
    → sb_get_color (sb_set_bg (sb_set_fg (sb_set_color sb old) fg) bg) ≡ bg * 16 + fg
unfolding sb_set_bg sb_set_fg sb_set_color
sb_set_bg-sb_set_fg sb old fg bg ho hf hb = (==_iff _ _).0 (
    holds_below-at 16 _ bg (holds_below-at 16 _ fg (holds_below-at 256 _ old color_table ho) hf) hb)
