-- ===== src/Screen/Buffer.antt =====
-- The state of kernel/screenbuf.c, its pointer arithmetic and its view on the VGA memory. A pointer
-- into `buf` is its offset there, in words.
use nulix.Common.{
  bit_or, bit_and, ℕ, zero, suc, ◌+◌, ◌-◌, ◌*◌, ◌/◌, ◌%◌, ltb, leb, Bool, true, false,
  if◌then◌else◌, Option, none, some, List, get_or, set,
}

abbrev pub vga_width : ℕ
vga_width = 80

abbrev pub vga_height : ℕ
vga_height = 25

abbrev pub sb_height : ℕ
sb_height = 200

abbrev pub sb_dfl_color : ℕ
sb_dfl_color = 0x0f

abbrev pub sb_whitespace : ℕ
sb_whitespace = 0x0f00

abbrev pub tabsize : ℕ
tabsize = 4

-- `vga` is the memory at VGA_PTR, and `shown` the place of the hardware cursor, if it is enabled, as an
-- operation on the screen finds and leaves them. They are no fields of `struct screenbuf`, and all
-- screens share them: Commands.Screens lends them to the screen that is worked on.
pub record Screenbuf : Type 0 where
  pub top : ℕ
  pub viewport : ℕ
  pub endbuf : ℕ
  pub cursor : ℕ
  pub cursor_offset : ℕ
  pub color : ℕ
  pub loaded : Bool
  pub buf : List ℕ
  pub vga : List ℕ
  pub shown : Option ℕ

-- A signed number of lines.
pub data ℤ : Type 0 where
  pos : ℕ → ℤ
  negsuc : ℕ → ℤ

-- The port gets the low 16 bits.
unfoldable pub cursor_update : ℕ → Screenbuf → Screenbuf
cursor_update place sb = record sb {
  shown = if ltb place (vga_width * sb_height) then some (place % 65536) else none;
}

unfoldable pub sb_memset : List ℕ → ℕ → ℕ → ℕ → List ℕ
sb_memset words ptr word zero = words
sb_memset words ptr word (suc n) = sb_memset (set words ptr word) (ptr + 1) word n

unfoldable pub sb_diff : Screenbuf → ℕ → ℕ → ℕ
sb_diff sb a b = if leb a b then b - a else sb.endbuf - a + b

unfoldable pub sb_ldiff : Screenbuf → ℕ → ℕ → ℕ
sb_ldiff sb a b = sb_diff sb a b / vga_width

-- `while (newpos >= sb->endbuf) newpos -= bufsize`
unfoldable pub wrap_down : ℕ → ℕ → ℕ → ℕ
wrap_down zero size newpos = newpos
wrap_down (suc fuel) size newpos =
    let less = wrap_down fuel size (newpos - size) in if leb size newpos then less else newpos

-- `while (newpos < sb->buf) newpos += bufsize`, for a pointer `below` words before `buf`.
unfoldable pub wrap_up : ℕ → ℕ → ℕ → ℕ
wrap_up zero size below = 0
wrap_up (suc fuel) size below =
    let more = wrap_up fuel size (below - size) in if leb below size then size - below else more

-- Each round of a loop moves the pointer by the size of the buffer, so a round for each line, and
-- one more, are enough.
unfoldable pub sb_addline : Screenbuf → ℕ → ℤ → ℕ
sb_addline sb a (pos n) = wrap_down (n + 1) sb.endbuf (a + n * vga_width)
sb_addline sb a (negsuc n) =
    let by = suc n * vga_width in
    if leb by a then wrap_down (n + 1) sb.endbuf (a - by) else wrap_up (n + 2) sb.endbuf (by - a)

-- A memcpy of `n` words.
unfoldable pub copy_words : List ℕ → ℕ → List ℕ → ℕ → ℕ → List ℕ
copy_words words dst from src zero = words
copy_words words dst from src (suc n) =
    copy_words (set words dst (get_or from src 0)) (dst + 1) from (src + 1) n

-- The rows from `i` on.
unfoldable pub copy_rows : Screenbuf → ℕ → ℕ → List ℕ → List ℕ
copy_rows sb i zero vga = vga
copy_rows sb i (suc n) vga =
    copy_rows sb (i + 1) n
      (copy_words vga (i * vga_width) sb.buf (sb_addline sb sb.viewport (pos i)) vga_width)

unfoldable pub sb_sync : Screenbuf → Screenbuf
sb_sync sb =
    if sb.loaded
    then cursor_update (sb_diff sb sb.viewport sb.cursor + sb.cursor_offset)
        (record sb { vga = copy_rows sb 0 vga_height sb.vga })
    else sb

unfoldable pub sb_load : Screenbuf → Screenbuf
sb_load sb = sb_sync (record sb { loaded = true })

unfoldable pub sb_unload : Screenbuf → Screenbuf
sb_unload sb = record sb { loaded = false }

unfoldable pub sb_init : Screenbuf → Screenbuf
sb_init sb = record sb {
  top = 0;
  viewport = 0;
  cursor = 0;
  cursor_offset = 0;
  color = sb_dfl_color;
  endbuf = vga_width * sb_height;
  loaded = false;
  buf =
      sb_memset (sb_memset sb.buf 0 sb_whitespace (vga_width * sb_height)) 0 sb_whitespace
        (vga_width * sb_height);
}

unfoldable pub sb_clear : Screenbuf → Screenbuf
sb_clear sb = sb_sync (record sb {
  top = 0;
  viewport = 0;
  cursor = 0;
  cursor_offset = 0;
  buf = sb_memset sb.buf 0 sb_whitespace (vga_width * sb_height);
})

unfoldable pub sb_set_color : Screenbuf → ℕ → Screenbuf
sb_set_color sb color = record sb { color = color }

-- The low four bits are the foreground, and the high four the background.
unfoldable pub sb_set_fg : Screenbuf → ℕ → Screenbuf
sb_set_fg sb fg = record sb { color = bit_or (bit_and sb.color 0xf0) (bit_and fg 0x0f) }

unfoldable pub sb_set_bg : Screenbuf → ℕ → Screenbuf
sb_set_bg sb bg = record sb { color = bit_or (bit_and (bg * 16) 0xf0) (bit_and sb.color 0x0f) }

abbrev pub sb_get_color : Screenbuf → ℕ
sb_get_color sb = sb.color
