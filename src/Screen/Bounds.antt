-- ===== src/Screen/Bounds.antt =====
-- The operations of kernel/screenbuf.c keep their pointers in `buf`.
use nulix.Common.{
  ℕ, zero, suc, ◌+◌, ◌%◌, ◌≤◌, ◌≡◌, refl, ◌∙◌, ◌==◌, leb, ltb, ◌&&◌, not, arith, length, length-set,
  Bool, true, false, if◌then◌else◌, Bool-cases, inl, inr, Option, some,
}
use nulix.Screen.Buffer.{
  Screenbuf, pos, sb_addline, sb_sync, cursor_update, sb_ldiff, sb_whitespace,
}
use nulix.Screen.Output.{
  sb_scroll, sb_write_word, next_line, push_top, sb_crlf, to_tab_stop, put_word, blank,
  crlf_if_full,
}
use nulix.Screen.Pointers.{IsLine, sb_addline-IsLine, length-sb_memset}

-- Every pointer is the start of a line of the buffer, and the offset is at most `bound`.
pub record Within (bound : ℕ) (sb : Screenbuf) : Type 0 where
  pub endbuf : sb.endbuf ≡ 16000
  pub size : length sb.buf ≡ 16000
  pub top : IsLine sb.top
  pub viewport : IsLine sb.viewport
  pub cursor : IsLine sb.cursor
  pub offset : sb.cursor_offset ≤ bound

pub bounded : {a b : ℕ} (s : Screenbuf) → Within a s → s.cursor_offset ≤ b → Within b s
bounded s w h = record {
  endbuf = w.endbuf;
  size = w.size;
  top = w.top;
  viewport = w.viewport;
  cursor = w.cursor;
  offset = h;
}

-- What a step that only shows the buffer leaves.
pub record SamePlaces (s t : Screenbuf) : Type 0 where
  pub endbuf : t.endbuf ≡ s.endbuf
  pub buf : t.buf ≡ s.buf
  pub top : t.top ≡ s.top
  pub viewport : t.viewport ≡ s.viewport
  pub cursor : t.cursor ≡ s.cursor
  pub offset : t.cursor_offset ≡ s.cursor_offset

pub sb_sync-SamePlaces : (s : Screenbuf) → SamePlaces s (sb_sync s)
unfolding sb_sync cursor_update
sb_sync-SamePlaces s = record {
  endbuf = ground arith;
  buf = ground arith;
  top = ground arith;
  viewport = ground arith;
  cursor = ground arith;
  offset = ground arith;
}

pub SamePlaces-Within :
    {bound : ℕ} (s t : Screenbuf) → SamePlaces s t → Within bound s → Within bound t
SamePlaces-Within s t p w = record {
  endbuf = rw p.endbuf w.endbuf;
  size = rw p.buf w.size;
  top = rw p.top w.top;
  viewport = rw p.viewport w.viewport;
  cursor = rw p.cursor w.cursor;
  offset = rw p.offset w.offset;
}

pub sb_sync-Within : {bound : ℕ} (s : Screenbuf) → Within bound s → Within bound (sb_sync s)
sb_sync-Within s w = SamePlaces-Within s (sb_sync s) (sb_sync-SamePlaces s) w

next_line-Within : {bound : ℕ} (s : Screenbuf) → Within bound s → Within 0 (next_line s)
unfolding next_line
next_line-Within s w = record {
  endbuf = w.endbuf;
  size =
      omega
        (arith, length-sb_memset s.buf (sb_addline s s.cursor (pos 1)) sb_whitespace 80, w.size);
  top = w.top;
  viewport = w.viewport;
  cursor = sb_addline-IsLine s s.cursor 1 w.endbuf w.cursor;
  offset = omega arith;
}

-- Moving the view.
abbrev pub see : Screenbuf → ℕ → Screenbuf
see s p = record s { viewport = p }

pub see-Within :
    {bound : ℕ} (s : Screenbuf) (p : ℕ) → Within bound s → IsLine p → Within bound (see s p)
see-Within s p w l = record {
  endbuf = w.endbuf;
  size = w.size;
  top = w.top;
  viewport = l;
  cursor = w.cursor;
  offset = w.offset;
}

Within-if :
    {bound : ℕ} (b : Bool) (s t : Screenbuf)
    → Within bound s
    → Within bound t
    → Within bound (if b then s else t)
Within-if true s t v w = v
Within-if false s t v w = w

raise-Within :
    {bound : ℕ} (s : Screenbuf)
    → Within bound s
    → Within bound (record s { top = sb_addline s s.top (pos 1) })
raise-Within s w = record {
  endbuf = w.endbuf;
  size = w.size;
  top = sb_addline-IsLine s s.top 1 w.endbuf w.top;
  viewport = w.viewport;
  cursor = w.cursor;
  offset = w.offset;
}

push_top-Within : {bound : ℕ} (s : Screenbuf) → Within bound s → Within bound (push_top s)
unfolding push_top
push_top-Within s w =
    let next = sb_addline s s.top (pos 1) in
    let seen =
      sb_sync-Within (see s next)
        (see-Within s next w (sb_addline-IsLine s s.top 1 w.endbuf w.top)) in
    let moved = Within-if (s.viewport == s.top) (sb_sync (see s next)) s seen w in
    Within-if (s.cursor == s.top) _ s (raise-Within _ moved) w

pub record Stays (bound : ℕ) (r : Option Screenbuf) : Type 0 where
  pub after : Screenbuf
  pub is_some : r ≡ some after
  pub within : Within bound after

pub Stays-mono : (a b : ℕ) (r : Option Screenbuf) → Stays a r → a ≤ b → Stays b r
Stays-mono a b r s h = record {
  after = s.after;
  is_some = s.is_some;
  within = bounded s.after s.within (omega (arith, s.within.offset));
}

-- A new line never needs the scroll that may leave the buffer.
pub sb_crlf-Stays : {bound : ℕ} (s : Screenbuf) → Within bound s → Stays 0 (sb_crlf s)
unfolding sb_crlf sb_scroll
sb_crlf-Stays s w =
    let next = push_top (next_line s) in
    let blank_line = push_top-Within (next_line s) (next_line-Within s w) in
    let ahead = sb_addline next next.viewport (pos 1) in
    elim (Bool-cases (sb_ldiff next next.viewport next.cursor == 25)) [
      | inl full ↦ record {
        after = sb_sync (see next ahead);
        is_some =
            let enough : leb (1 + 24) (sb_ldiff next next.viewport next.cursor) ≡ true =
              ground arith in
            rw (full, enough) refl;
        within = sb_sync-Within (see next ahead) (
            see-Within next ahead blank_line
              (sb_addline-IsLine next next.viewport 1 blank_line.endbuf blank_line.viewport));
      }
      | inr room ↦ record { after = next; is_some = rw room refl; within = blank_line }
    ]

pub crlf_if_full-Stays : (s : Screenbuf) → Within 80 s → Stays 79 (crlf_if_full s)
crlf_if_full-Stays s w = elim (Bool-cases (s.cursor_offset == 80)) [
  | inl full ↦ rw full (Stays-mono 0 79 _ (sb_crlf-Stays s w) (omega arith))
  | inr room ↦
      rw room record { after = s; is_some = refl; within = bounded s w (ground (arith, w.offset)) }
]

pub put_word-Within : (s : Screenbuf) (c : ℕ) → Within 79 s → Within 80 (put_word s c)
unfolding put_word
put_word-Within s c w = record {
  endbuf = w.endbuf;
  size = length-set s.buf (s.cursor + s.cursor_offset) _ ∙ w.size;
  top = w.top;
  viewport = w.viewport;
  cursor = w.cursor;
  offset = omega (arith, w.offset);
}

blank-Within : (s : Screenbuf) → Within 79 s → Within 80 (blank s)
unfolding sb_write_word
blank-Within s w = record {
  endbuf = w.endbuf;
  size = length-set s.buf (s.cursor + s.cursor_offset) _ ∙ w.size;
  top = w.top;
  viewport = w.viewport;
  cursor = w.cursor;
  offset = omega (arith, w.offset);
}

pub to_tab_stop-Within : (fuel : ℕ) (s : Screenbuf) → Within 79 s → Within 80 (to_tab_stop fuel s)
unfolding to_tab_stop
to_tab_stop-Within zero s w = bounded s w (omega (arith, w.offset))
to_tab_stop-Within (suc fuel) s w =
    let next = blank s in
    let more = not (next.cursor_offset % 4 == 0) && ltb next.cursor_offset 80 in
    elim (Bool-cases more) [
      | inl on ↦
          rw on (to_tab_stop-Within fuel next (bounded next (blank-Within s w) (ground arith)))
      | inr off ↦ rw off (blank-Within s w)
    ]
