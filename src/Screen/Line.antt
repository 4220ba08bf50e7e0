-- ===== src/Screen/Line.antt =====
-- A text of one line on the screen of kernel/screenbuf.c.
use nulix.Common.{
  ℕ, zero, suc, ◌+◌, ◌*◌, ◌≤◌, ◌<◌, ◌≡◌, refl, ◌∙◌, ap, arith, ◌==◌, ==_iff, ltb, leb, ◌&&◌, Bool,
  true, false, Bool-cases, if◌then◌else◌, some, List, [], ◌∷◌, length, ◌⊎◌, inl, inr, get_or,
  length-set, get_or-set_self, get_or-set_ne, bit_or, holds_below, holds_below-at,
}
use nulix.Screen.Buffer.{Screenbuf, sb_diff, cursor_update}
use nulix.Screen.Output.{sb_putchar, sb_putstr, sb_regular, put_word, then_put}

-- Characters that a line shows as they are, of 7 bits.
unfoldable pub are_printable : List ℕ → Bool
are_printable [] = true
are_printable (c ∷ s) = leb 32 c && ltb c 128 && are_printable s

-- The first cell of the cursor, and its place in the VGA memory.
abbrev pub cell : Screenbuf → ℕ
cell sb = sb.cursor + sb.cursor_offset

abbrev pub place : Screenbuf → ℕ
place sb = sb_diff sb sb.viewport sb.cursor + sb.cursor_offset

-- A text with its colour from the cursor on, and nothing else written.
pub record Typeset (s : List ℕ) (sb t : Screenbuf) : Type 0 where
  pub offset : t.cursor_offset ≡ sb.cursor_offset + length s
  pub cursor : t.cursor ≡ sb.cursor
  pub inside : (k : ℕ) → k < length s → get_or t.buf (cell sb + k) 0 ≡ get_or s k 0 + sb.color * 256
  pub outside :
      (k : ℕ) → ((k < cell sb) ⊎ (cell sb + length s ≤ k)) → get_or t.buf k 0 ≡ get_or sb.buf k 0
  pub display :
      (k : ℕ)
      → k < length s
      → get_or t.vga (place sb + k) 0
        ≡ (if sb.loaded then get_or s k 0 + sb.color * 256 else get_or sb.vga (place sb + k) 0)
  pub elsewhere :
      (k : ℕ) → ((k < place sb) ⊎ (place sb + length s ≤ k)) → get_or t.vga k 0 ≡ get_or sb.vga k 0

-- A character under its colour.
words :
    holds_below 128 (λ c. holds_below 256 (λ color. bit_or c (color * 256) == c + color * 256))
    ≡ true
unfolding holds_below
words = refl

word : (c color : ℕ) → c < 128 → color < 256 → bit_or c (color * 256) ≡ c + color * 256
word c color hc hd =
    (==_iff _ _).0 (holds_below-at 256 _ color (holds_below-at 128 _ c words hc) hd)

-- The state after one printable character.
abbrev printed : Screenbuf → ℕ → Screenbuf
printed sb c =
    let next = put_word sb c in
    cursor_update (sb_diff next next.viewport next.cursor + next.cursor_offset) next

sb_putchar-printed :
    (sb : Screenbuf) (c : ℕ)
    → 32 ≤ c
    → sb.cursor_offset + 1 < 80
    → sb_putchar sb c ≡ some (printed sb c)
unfolding sb_putchar sb_regular put_word
sb_putchar-printed sb c h room =
    let newline : (c == 10) ≡ false = ground arith in
    let tab : (c == 9) ≡ false = ground arith in
    let back : (c == 8) ≡ false = ground arith in
    let fits : (sb.cursor_offset + 1 == 80) ≡ false = ground arith in
    rw (newline, tab, back, fits) refl

printed-Typeset :
    (sb : Screenbuf) (c : ℕ)
    → c < 128
    → sb.color < 256
    → cell sb < length sb.buf
    → place sb < length sb.vga
    → Typeset (c ∷ []) sb (printed sb c)
unfolding cursor_update put_word sb_diff
printed-Typeset sb c hc hd hb hv =
    let low : ltb c 128 ≡ true = ground arith in
    rw low record {
      offset = refl;
      cursor = refl;
      inside = λ k lt.
          let here : cell sb + k ≡ cell sb = omega arith in
          let first : k ≡ 0 = omega arith in
          rw (here, first) (get_or-set_self sb.buf (cell sb) _ 0 hb ∙ word c sb.color hc hd);
      outside = λ k o. get_or-set_ne sb.buf (cell sb) k _ 0 (λ e. ground arith);
      display = λ k lt.
          let here : place sb + k ≡ place sb = omega arith in
          let first : k ≡ 0 = omega arith in
          elim (Bool-cases sb.loaded) [
            | inl on ↦
                rw (on, here, first)
                  (get_or-set_self sb.vga (place sb) _ 0 hv
                    ∙ get_or-set_self sb.buf (cell sb) _ 0 hb
                    ∙ word c sb.color hc hd)
            | inr off ↦ rw off refl
          ];
      elsewhere = λ k o. elim (Bool-cases sb.loaded) [
        | inl on ↦ rw on (get_or-set_ne sb.vga (place sb) k _ 0 (λ e. ground arith))
        | inr off ↦ rw off refl
      ];
    }

Typeset-cons :
    (c : ℕ) (s : List ℕ) (sb m t : Screenbuf)
    → m.loaded ≡ sb.loaded
    → m.color ≡ sb.color
    → place m ≡ place sb + 1
    → Typeset (c ∷ []) sb m
    → Typeset s m t
    → Typeset (c ∷ s) sb t
Typeset-cons c s sb m t l e p x y =
    let start : cell m ≡ cell sb + 1 = omega (arith, x.offset, x.cursor) in
    record {
      offset = omega (arith, x.offset, y.offset);
      cursor = y.cursor ∙ x.cursor;
      inside = elim [
        | zero ↦ λ lt. y.outside (cell sb + 0) (inl (omega arith)) ∙ x.inside 0 (omega arith)
        | suc k ↦ λ lt.
            let later : cell sb + suc k ≡ cell m + k = omega arith in
            rw (later, ← e) (y.inside k (omega arith))
      ];
      outside = λ k o. y.outside k (ground arith) ∙ x.outside k (ground arith);
      display = elim [
        | zero ↦ λ lt. y.elsewhere (place sb + 0) (inl (omega arith)) ∙ x.display 0 (omega arith)
        | suc k ↦ λ lt.
            let later : place sb + suc k ≡ place m + k = omega arith in
            let before : get_or m.vga (place m + k) 0 ≡ get_or sb.vga (place m + k) 0 =
              x.elsewhere (place m + k) (inr (omega arith)) in
            rw (later, ← e, ← l, ← before) (y.display k (omega arith))
      ];
      elsewhere = λ k o. y.elsewhere k (ground arith) ∙ x.elsewhere k (ground arith);
    }

Typeset-none : (sb : Screenbuf) → Typeset [] sb sb
Typeset-none sb = record {
  offset = omega arith;
  cursor = refl;
  inside = λ k lt. absurd (omega arith);
  outside = λ k o. refl;
  display = λ k lt. absurd (omega arith);
  elsewhere = λ k o. refl;
}

-- The vga memory of a screen is as long after a character as before.
length-printed :
    (sb : Screenbuf) (c : ℕ)
    → (length (printed sb c).buf ≡ length sb.buf) × (length (printed sb c).vga ≡ length sb.vga)
unfolding cursor_update put_word sb_diff
length-printed sb c = (
  length-set sb.buf (cell sb) _,
  elim (Bool-cases sb.loaded) [
    | inl on ↦ rw on (length-set sb.vga (place sb) _)
    | inr off ↦ rw off refl
  ],
)

-- A text of printable 7-bit characters with room for it in the cursor's line, and that line in
-- view, is written whole: each character stands in the buffer with the screen's colour, in its
-- place from the cursor on, and in the VGA memory too if the screen is loaded; the cursor is
-- behind it in the same line, and no other cell of the buffer or of the VGA memory has changed.
pub sb_putstr-Typeset :
    (s : List ℕ) (sb : Screenbuf)
    → are_printable s ≡ true
    → sb.color < 256
    → sb.cursor_offset + length s < 80
    → sb.cursor + 80 ≤ length sb.buf
    → sb_diff sb sb.viewport sb.cursor + 80 ≤ length sb.vga
    → (t : Screenbuf) × (sb_putstr s sb ≡ some t) × Typeset s sb t
unfolding sb_putstr are_printable cursor_update put_word sb_diff
sb_putstr-Typeset [] sb h hd room hb hv = (sb, refl, Typeset-none sb)
sb_putstr-Typeset (c ∷ s) sb h hd room hb hv =
    let m = printed sb c in
    let size = length-printed sb c in
    let (t, runs, rest) =
      sb_putstr-Typeset s m (ground arith) hd (omega arith) (omega (arith, size.0))
        (ground (arith, size.1)) in
    (
      t,
      ap (then_put (sb_putstr s)) (sb_putchar-printed sb c (ground arith) (omega arith)) ∙ runs,
      Typeset-cons c s sb m t refl refl (ground arith)
          (printed-Typeset sb c (ground arith) hd (omega arith) (omega arith)) rest,
    )
