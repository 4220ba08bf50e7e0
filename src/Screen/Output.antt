-- ===== src/Screen/Output.antt =====
-- Scrolling and writing in kernel/screenbuf.c. None is a pointer that has left `buf`.
use nulix.Common.{
  ℕ, zero, suc, ◌+◌, ◌-◌, ◌*◌, ◌/◌, ◌%◌, ◌==◌, ltb, leb, ◌&&◌, not, if◌then◌else◌, Option, none,
  some, List, [], ◌∷◌, get_or, set, bit_or,
}
use nulix.Screen.Buffer.{
  Screenbuf, ℤ, pos, negsuc, vga_width, vga_height, sb_whitespace, tabsize, cursor_update,
  sb_memset, sb_diff, sb_ldiff, sb_addline, sb_sync,
}

unfoldable pub sb_scroll_top : Screenbuf → Screenbuf
sb_scroll_top sb = sb_sync (record sb { viewport = sb.top })

unfoldable pub sb_scroll_down : Screenbuf → Option Screenbuf
sb_scroll_down sb =
    let back = vga_width * (vga_height - 1) in
    if ltb vga_height (sb_ldiff sb sb.viewport sb.cursor)
    then (if leb back sb.cursor
        then some (sb_sync (record sb { viewport = sb.cursor - back }))
        else none)
    else some sb

unfoldable pub sb_scroll : Screenbuf → ℤ → Option Screenbuf
sb_scroll sb (pos n) =
    if leb (n + (vga_height - 1)) (sb_ldiff sb sb.viewport sb.cursor)
    then some (sb_sync (record sb { viewport = sb_addline sb sb.viewport (pos n) }))
    else sb_scroll_down sb
sb_scroll sb (negsuc n) =
    if leb (n + 1) (sb_ldiff sb sb.top sb.viewport)
    then some (sb_sync (record sb { viewport = sb_addline sb sb.viewport (negsuc n) }))
    else some (sb_scroll_top sb)

unfoldable pub sb_write_word : Screenbuf → ℕ → Screenbuf
sb_write_word sb word =
    let diff = sb_diff sb sb.viewport sb.cursor in
    record sb {
      buf = set sb.buf (sb.cursor + sb.cursor_offset) word;
      vga =
          if sb.loaded
          then (if ltb (diff / vga_width) vga_height
              then set sb.vga (diff + sb.cursor_offset) word
              else sb.vga)
          else sb.vga;
    }

-- The cursor at the start of the next line, which is blank.
unfoldable pub next_line : Screenbuf → Screenbuf
next_line sb =
    let cursor = sb_addline sb sb.cursor (pos 1) in
    record sb {
      cursor_offset = 0;
      cursor = cursor;
      buf = sb_memset sb.buf cursor sb_whitespace vga_width;
    }

-- The oldest line gives way when the cursor meets it.
unfoldable pub push_top : Screenbuf → Screenbuf
push_top sb =
    let moved =
      if sb.viewport == sb.top
      then sb_sync (record sb { viewport = sb_addline sb sb.top (pos 1) })
      else sb in
    if sb.cursor == sb.top then record moved { top = sb_addline moved moved.top (pos 1) } else sb

unfoldable pub sb_crlf : Screenbuf → Option Screenbuf
sb_crlf sb =
    let next = push_top (next_line sb) in
    if sb_ldiff next next.viewport next.cursor == vga_height
    then sb_scroll next (pos 1)
    else some next

-- The length of a line, up to the first blank.
unfoldable pub line_end : Screenbuf → ℕ → ℕ → ℕ
line_end sb zero offset = offset
line_end sb (suc fuel) offset =
    let later = line_end sb fuel (offset + 1) in
    if ltb offset vga_width && not (get_or sb.buf (sb.cursor + offset) 0 == sb_whitespace)
    then later
    else offset

-- `cursor_offset` is an unsigned short.
unfoldable pub erase : Screenbuf → Screenbuf
erase sb =
    sb_write_word (record sb { cursor_offset = (sb.cursor_offset + 65535) % 65536 }) sb_whitespace

unfoldable pub previous_line : Screenbuf → Screenbuf
previous_line sb =
    let back = record sb { cursor = sb_addline sb sb.cursor (negsuc 0) } in
    record back { cursor_offset = line_end back vga_width 0 }

abbrev pub erase_before : Option Screenbuf → Option Screenbuf
erase_before none = none
erase_before (some sb) = some (erase (previous_line sb))

unfoldable pub sb_backspace : Screenbuf → Option Screenbuf
sb_backspace sb =
    if sb.cursor_offset == 0
    then (if sb.cursor == sb.top
        then some sb
        else erase_before (if sb.viewport == sb.cursor then sb_scroll sb (negsuc 0) else some sb))
    else some (erase sb)

abbrev pub blank : Screenbuf → Screenbuf
blank sb =
    let written = sb_write_word sb (bit_or (sb.color * 256) 0) in
    record written { cursor_offset = sb.cursor_offset + 1 }

-- At most `tabsize` blanks lead to the next stop.
unfoldable pub to_tab_stop : ℕ → Screenbuf → Screenbuf
to_tab_stop zero sb = sb
to_tab_stop (suc fuel) sb =
    let next = blank sb in
    let later = to_tab_stop fuel next in
    if not (next.cursor_offset % tabsize == 0) && ltb next.cursor_offset vga_width
    then later
    else next

abbrev pub crlf_if_full : Screenbuf → Option Screenbuf
crlf_if_full sb = if sb.cursor_offset == vga_width then sb_crlf sb else some sb

unfoldable pub sb_tabulation : Screenbuf → Option Screenbuf
sb_tabulation sb = crlf_if_full (to_tab_stop tabsize sb)

-- A char is signed.
abbrev pub extend : ℕ → ℕ
extend c = if ltb c 128 then c else c + 0xff00

unfoldable pub put_word : Screenbuf → ℕ → Screenbuf
put_word sb c =
    let words = set sb.buf (sb.cursor + sb.cursor_offset) (bit_or (extend c) (sb.color * 256)) in
    let diff = sb_diff sb sb.viewport sb.cursor in
    let place = sb.cursor_offset in
    record sb {
      buf = words;
      cursor_offset = place + 1;
      vga =
          if sb.loaded
          then set sb.vga (diff + place) (get_or words (sb.cursor + place) 0)
          else sb.vga;
    }

unfoldable pub sb_regular : Screenbuf → ℕ → Option Screenbuf
sb_regular sb c = crlf_if_full (put_word sb c)

abbrev pub show_cursor : Option Screenbuf → Option Screenbuf
show_cursor none = none
show_cursor (some sb) =
    some (cursor_update (sb_diff sb sb.viewport sb.cursor + sb.cursor_offset) sb)

unfoldable pub sb_putchar : Screenbuf → ℕ → Option Screenbuf
sb_putchar sb c = show_cursor (
    if c == 10
    then sb_crlf sb
    else if c == 9
    then sb_tabulation sb
    else if c == 8
    then sb_backspace sb
    else sb_regular sb c)

abbrev pub then_put : (Screenbuf → Option Screenbuf) → Option Screenbuf → Option Screenbuf
then_put put none = none
then_put put (some sb) = put sb

-- A string is the list of its bytes before the NUL.
unfoldable pub sb_putstr : List ℕ → Screenbuf → Option Screenbuf
sb_putstr [] sb = some sb
sb_putstr (c ∷ s) sb = then_put (sb_putstr s) (sb_putchar sb c)
