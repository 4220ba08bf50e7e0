-- ===== src/Commands/Dump.antt =====
-- kernel/nsh/builtins/hexdump.c: the rows of a dump of the memory.
use nulix.Common.{
  ℕ, zero, suc, ◌+◌, ◌-◌, ◌/◌, ◌==◌, ltb, leb, ◌||◌, if◌then◌else◌, Option, none, some, List, [],
  ◌∷◌,
}
use nulix.Cstring.Memory.{Mem}
use nulix.Stdlib.Strtol.{strtoul}
use nulix.Commands.Args.{Argv, Reply, usage, badly_formatted, done, has_rest}

abbrev pub nbytes_line : ℕ
nbytes_line = 16

abbrev pub sb_color_light_red : ℕ
sb_color_light_red = 12

abbrev pub sb_dfl_fg_color : ℕ
sb_dfl_fg_color = 15

-- A column of a row: what is printed there, and in what colour.
pub record Cell : Type 0 where
  pub shown : ℕ
  pub color : ℕ

-- A byte in hexadecimal.
abbrev pub hex_cell : ℕ → Cell
hex_cell byte = record {
  shown = byte;
  color = if byte == 0 then sb_dfl_fg_color else sb_color_light_red;
}

-- A byte as a character, or a dot.
abbrev pub char_cell : ℕ → Cell
char_cell byte =
    if byte == 0
    then record { shown = 46; color = sb_dfl_fg_color }
    else if ltb byte 32 || ltb 127 byte
    then record { shown = 46; color = sb_dfl_fg_color }
    else record { shown = byte; color = sb_color_light_red }

-- The columns from `i` on, `columns` of them, with `nb` bytes left; a column without a byte is none.
unfoldable pub cells : (ℕ → Cell) → Mem → ℕ → ℕ → ℕ → ℕ → List (Option Cell)
cells cell m base zero i nb = []
cells cell m base (suc columns) i nb =
    (if ltb 0 nb then some (cell (m (base + i))) else none)
    ∷ cells cell m base columns (i + 1) (nb - 1)

pub record Row : Type 0 where
  pub base : ℕ
  pub hex : List (Option Cell)
  pub chars : List (Option Cell)

unfoldable pub hx_printline : Mem → ℕ → ℕ → Row
hx_printline m base nbytes = record {
  base = base;
  hex = cells hex_cell m base nbytes_line 0 nbytes;
  chars = cells char_cell m base nbytes_line 0 nbytes;
}

-- The rows, with `fuel` rounds for the whole ones.
unfoldable pub hx_print : ℕ → Mem → ℕ → ℕ → List Row
hx_print zero m base size = if size == 0 then [] else hx_printline m base size ∷ []
hx_print (suc fuel) m base size =
    let rest = hx_print fuel m (base + nbytes_line) (size - nbytes_line) in
    if leb nbytes_line size
    then hx_printline m base nbytes_line ∷ rest
    else if size == 0
    then []
    else hx_printline m base size ∷ []

pub record Dumped : Type 0 where
  pub reply : Reply
  pub rows : List Row

unfoldable pub hexdump : ℕ → Argv → Mem → Dumped
hexdump argc argv m =
    let addr = strtoul (argv 1) 0 in
    let size = strtoul (argv 2) 0 in
    let rows = hx_print (size.value / nbytes_line) m addr.value size.value in
    if ltb argc 3
    then record { reply = usage; rows = [] }
    else if has_rest (argv 1) addr
    then record { reply = badly_formatted; rows = [] }
    else if has_rest (argv 2) size
    then record { reply = badly_formatted; rows = [] }
    else record { reply = done; rows = rows }
