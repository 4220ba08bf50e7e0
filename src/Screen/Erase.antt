-- ===== src/Screen/Erase.antt =====
-- Backspace in kernel/screenbuf.c, and what every character does to the pointers.
use nulix.Common.{
  ℕ, zero, suc, ◌+◌, ◌≤◌, ◌≡◌, ◌≢◌, refl, ap, sym, ◌∙◌, ◌==◌, leb, arith, length-set, true, false,
  Bool-cases, inl, inr, Option, some, get_or, ◌⊎◌,
}
use nulix.Screen.Buffer.{
  Screenbuf, negsuc, sb_addline, sb_sync, cursor_update, sb_ldiff, sb_diff, sb_whitespace,
}
use nulix.Screen.Output.{
  sb_scroll, sb_scroll_top, sb_write_word, line_end, erase, previous_line, sb_backspace, sb_putchar,
  sb_regular, sb_tabulation, put_word, to_tab_stop, erase_before, show_cursor,
}
use nulix.Screen.Pointers.{sb_addline-back, sb_addline_back-IsLine}
use nulix.Screen.Bounds.{
  Within, Stays, sb_sync-SamePlaces, sb_sync-Within, bounded, see, see-Within, Stays-mono,
  sb_crlf-Stays, crlf_if_full-Stays, put_word-Within, to_tab_stop-Within,
}

erase-Within : (s : Screenbuf) → Within 80 s → 1 ≤ s.cursor_offset → Within 79 (erase s)
unfolding erase sb_write_word
erase-Within s w h = record {
  endbuf = w.endbuf;
  size = length-set s.buf _ _ ∙ w.size;
  top = w.top;
  viewport = w.viewport;
  cursor = w.cursor;
  offset = omega (arith, w.offset);
}

line_end-bound : (s : Screenbuf) (fuel offset : ℕ) → line_end s fuel offset ≤ offset + fuel
unfolding line_end
line_end-bound s zero offset = omega arith
line_end-bound s (suc fuel) offset = ground (arith, line_end-bound s fuel (offset + 1))

le-line_end : (s : Screenbuf) (fuel offset : ℕ) → offset ≤ line_end s fuel offset
unfolding line_end
le-line_end s zero offset = omega arith
le-line_end s (suc fuel) offset = ground (arith, le-line_end s fuel (offset + 1))

-- The line before the cursor's does not begin with a blank.
pub data HasText (s : Screenbuf) : Type 0 where
  has_text : get_or s.buf (sb_addline s s.cursor (negsuc 0)) 0 ≢ sb_whitespace → HasText s

line_end-text : (s : Screenbuf) → get_or s.buf s.cursor 0 ≢ sb_whitespace → 1 ≤ line_end s 80 0
unfolding line_end
line_end-text s t =
    let here : s.cursor + 0 ≡ s.cursor = omega arith in
    ground (arith, le-line_end s 79 1, ap (λ (i : ℕ). get_or s.buf i 0) here)

previous_line-Within :
    {bound : ℕ} (s : Screenbuf)
    → Within bound s
    → HasText s
    → Within 80 (previous_line s) × (1 ≤ (previous_line s).cursor_offset)
unfolding previous_line
previous_line-Within s w (has_text t) =
    let back = record s { cursor = sb_addline s s.cursor (negsuc 0) } in
    let long = line_end-text back t in
    (
      record {
        endbuf = w.endbuf;
        size = w.size;
        top = w.top;
        viewport = w.viewport;
        cursor = sb_addline_back-IsLine s s.cursor w.endbuf w.cursor;
        offset = omega (arith, line_end-bound back 80 0);
      },
      long,
    )

see-HasText :
    {bound : ℕ} (s : Screenbuf) (p : ℕ) → Within bound s → HasText s → HasText (sb_sync (see s p))
unfolding sb_addline
see-HasText s p w (has_text t) =
    let same = sb_sync-SamePlaces (see s p) in
    let before : sb_addline (sb_sync (see s p)) s.cursor (negsuc 0)
        ≡ sb_addline s s.cursor (negsuc 0) =
      sb_addline-back (sb_sync (see s p)) s.cursor (same.endbuf ∙ w.endbuf) w.cursor.inside
      ∙ sym (sb_addline-back s s.cursor w.endbuf w.cursor.inside) in
    has_text (rw (same.buf, same.cursor, before) t)

-- A step back of the view always stays in the buffer.
scroll_back-see :
    (s : Screenbuf)
    → (sb_scroll s (negsuc 0) ≡ some (sb_sync (see s (sb_addline s s.viewport (negsuc 0)))))
      ⊎ (sb_scroll s (negsuc 0) ≡ some (sb_sync (see s s.top)))
unfolding sb_scroll sb_scroll_top
scroll_back-see s = elim (Bool-cases (leb (0 + 1) (sb_ldiff s s.top s.viewport))) [
  | inl room ↦ inl (rw room refl)
  | inr full ↦ inr (rw full refl)
]

erase_before-Stays : (s : Screenbuf) → Within 0 s → HasText s → Stays 79 (erase_before (some s))
erase_before-Stays s w t =
    let back = previous_line-Within s w t in
    record {
      after = erase (previous_line s);
      is_some = refl;
      within = erase-Within (previous_line s) back.0 back.1;
    }

-- There is something to erase, or the cursor is at the oldest line's start.
abbrev pub Erasable : Screenbuf → Type 0
Erasable s = (1 ≤ s.cursor_offset) ⊎ (s.cursor ≡ s.top) ⊎ HasText s

text_below :
    (s : Screenbuf)
    → Erasable s
    → (s.cursor_offset == 0) ≡ true
    → (s.cursor == s.top) ≡ false
    → HasText s
text_below s (inl some_offset) z b = absurd (ground arith)
text_below s (inr (inl at_top)) z b = absurd (ground arith)
text_below s (inr (inr t)) z b = t

pub sb_scroll_back-Stays :
    {bound : ℕ} (s : Screenbuf) → Within bound s → Stays bound (sb_scroll s (negsuc 0))
sb_scroll_back-Stays s w = elim (scroll_back-see s) [
  | inl back ↦ record {
    after = _;
    is_some = back;
    within =
        sb_sync-Within _
          (see-Within s _ w (sb_addline_back-IsLine s s.viewport w.endbuf w.viewport));
  }
  | inr top ↦ record {
    after = _;
    is_some = top;
    within = sb_sync-Within _ (see-Within s s.top w w.top);
  }
]

scroll_and_erase-Stays :
    (s : Screenbuf) → Within 0 s → HasText s → Stays 79 (erase_before (sb_scroll s (negsuc 0)))
scroll_and_erase-Stays s w t = elim (scroll_back-see s) [
  | inl back ↦
      let p = sb_addline s s.viewport (negsuc 0) in
      let seen = see-Within s p w (sb_addline_back-IsLine s s.viewport w.endbuf w.viewport) in
      rw back (
        erase_before-Stays (sb_sync (see s p)) (sb_sync-Within (see s p) seen)
          (see-HasText s p w t))
  | inr top ↦
      let seen = see-Within s s.top w w.top in
      rw top (
        erase_before-Stays (sb_sync (see s s.top)) (sb_sync-Within (see s s.top) seen)
          (see-HasText s s.top w t))
]

pub sb_backspace-Stays : (s : Screenbuf) → Within 79 s → Erasable s → Stays 79 (sb_backspace s)
unfolding sb_backspace
sb_backspace-Stays s w e = elim (Bool-cases (s.cursor_offset == 0)) [
  | inr within_line ↦ rw within_line record {
    after = erase s;
    is_some = refl;
    within = erase-Within s (bounded s w (omega (arith, w.offset))) (ground arith);
  }
  | inl start ↦ elim (Bool-cases (s.cursor == s.top)) [
    | inl oldest ↦ rw (start, oldest) record { after = s; is_some = refl; within = w }
    | inr below ↦
        let t = text_below s e start below in
        let first = bounded {b = 0} s w (ground arith) in
        elim (Bool-cases (s.viewport == s.cursor)) [
          | inl hidden ↦ rw (start, below, hidden) (scroll_and_erase-Stays s first t)
          | inr shown ↦ rw (start, below, shown) (erase_before-Stays s first t)
        ]
  ]
]

show_cursor-Stays : {bound : ℕ} (r : Option Screenbuf) → Stays bound r → Stays bound (show_cursor r)
unfolding cursor_update
show_cursor-Stays r s = rw s.is_some record {
  after =
      cursor_update (sb_diff s.after s.after.viewport s.after.cursor + s.after.cursor_offset)
        s.after;
  is_some = refl;
  within = record {
    endbuf = s.within.endbuf;
    size = s.within.size;
    top = s.within.top;
    viewport = s.within.viewport;
    cursor = s.within.cursor;
    offset = s.within.offset;
  };
}

-- Writing a character, a new line or a tabulation from a state whose pointers are starts of lines
-- of the buffer and whose offset is inside a line ends in such a state, without leaving the
-- buffer, and so does a backspace if there is something to erase.
pub sb_putchar-Stays :
    (s : Screenbuf) (c : ℕ) → Within 79 s → (c ≡ 8 → Erasable s) → Stays 79 (sb_putchar s c)
unfolding sb_putchar sb_regular sb_tabulation
sb_putchar-Stays s c w e = elim (Bool-cases (c == 10)) [
  | inl newline ↦
      rw newline (show_cursor-Stays _ (Stays-mono 0 79 _ (sb_crlf-Stays s w) (omega arith)))
  | inr a ↦ elim (Bool-cases (c == 9)) [
    | inl tab ↦
        rw (a, tab)
          (show_cursor-Stays _ (crlf_if_full-Stays (to_tab_stop 4 s) (to_tab_stop-Within 4 s w)))
    | inr b ↦ elim (Bool-cases (c == 8)) [
      | inl back ↦ rw (a, b, back) (show_cursor-Stays _ (sb_backspace-Stays s w (e (ground arith))))
      | inr d ↦
          rw (a, b, d)
            (show_cursor-Stays _ (crlf_if_full-Stays (put_word s c) (put_word-Within s c w)))
    ]
  ]
]
