-- ===== src/Commands/Dumped.antt =====
-- kernel/nsh/builtins/hexdump.c shows the bytes of the memory.
use nulix.Common.{
  ℕ, zero, suc, ◌+◌, ◌-◌, ◌*◌, ◌/◌, ◌≤◌, ◌<◌, ◌≡◌, refl, ap, ◌∙◌, sym, ◌==◌, ltb, true, false,
  if◌then◌else◌, Option, none, some, List, [], ◌∷◌, ◌++◌, length, arith, Bool-cases, inl, inr,
  dec_le,
}
use mathlib.Core.List.{append-nil}
use nulix.Cstring.Memory.{Mem}
use nulix.Stdlib.Strtol.{strtoul}
use nulix.Commands.Args.{Argv, has_rest}
use nulix.Commands.Dump.{
  nbytes_line, Cell, hex_cell, char_cell, cells, Row, hx_printline, hx_print, hexdump,
}
use nulix.Cstring.Stored.{stored-append, stored}

-- The bytes that some columns show.
unfoldable pub column_bytes : List (Option Cell) → List ℕ
column_bytes [] = []
column_bytes (none ∷ cs) = column_bytes cs
column_bytes (some c ∷ cs) = c.shown ∷ column_bytes cs

unfoldable pub hex_bytes : List Row → List ℕ
hex_bytes [] = []
hex_bytes (r ∷ rs) = column_bytes r.hex ++ hex_bytes rs

-- Every row has 16 columns of either kind.
pub data AllWide : List Row → Type 0 where
  no_row : AllWide []
  wide_row :
      (r : Row) (rs : List Row)
      → length r.hex ≡ nbytes_line
      → length r.chars ≡ nbytes_line
      → AllWide rs
      → AllWide (r ∷ rs)

length-cells :
    (cell : ℕ → Cell) (m : Mem) (base columns i nb : ℕ)
    → length (cells cell m base columns i nb) ≡ columns
unfolding cells
length-cells cell m base zero i nb = refl
length-cells cell m base (suc columns) i nb =
    ap suc (length-cells cell m base columns (i + 1) (nb - 1))

cells-stored :
    (m : Mem) (base columns i nb : ℕ)
    → nb ≤ columns
    → column_bytes (cells hex_cell m base columns i nb) ≡ stored nb m (base + i)
unfolding cells column_bytes stored
cells-stored m base zero i zero h = refl
cells-stored m base zero i (suc nb) h = absurd (omega (arith, h))
cells-stored m base (suc columns) i zero h = cells-stored m base columns (i + 1) 0 (omega arith)
cells-stored m base (suc columns) i (suc nb) h =
    let less : suc nb - 1 ≡ nb = omega arith in
    let there : base + (i + 1) ≡ base + i + 1 = omega arith in
    let rest = cells-stored m base columns (i + 1) nb (omega arith) in
    let shown : ltb 0 (suc nb) ≡ true = ground arith in
    rw (shown, less) (ap (λ (xs : List ℕ). m (base + i) ∷ xs) (rest ∙ ap (stored nb m) there))

-- The bytes of one row.
row-stored :
    (m : Mem) (base n : ℕ)
    → n ≤ nbytes_line
    → column_bytes (hx_printline m base n).hex ≡ stored n m base
unfolding hx_printline
row-stored m base n h = cells-stored m base nbytes_line 0 n h ∙ ap (stored n m) (omega arith)

row-wide :
    (m : Mem) (base n : ℕ) (rs : List Row) → AllWide rs → AllWide (hx_printline m base n ∷ rs)
unfolding hx_printline
row-wide m base n rs w =
    wide_row _ rs (length-cells hex_cell m base nbytes_line 0 n)
      (length-cells char_cell m base nbytes_line 0 n) w

print-on :
    (fuel : ℕ) (m : Mem) (base size : ℕ)
    → nbytes_line ≤ size
    → hx_print (suc fuel) m base size
      ≡ hx_printline m base nbytes_line ∷ hx_print fuel m (base + nbytes_line) (size - nbytes_line)
unfolding hx_print
print-on fuel m base size h = ground arith

print-last :
    (fuel : ℕ) (m : Mem) (base size : ℕ)
    → size < nbytes_line
    → hx_print fuel m base size ≡ (if size == 0 then [] else hx_printline m base size ∷ [])
unfolding hx_print
print-last zero m base size h = refl
print-last (suc fuel) m base size h = ground arith

-- Rows, and the bytes that they show.
pub record Shows (rows : List Row) (bytes : List ℕ) : Type 0 where
  pub wide : AllWide rows
  pub same : hex_bytes rows ≡ bytes

last-Shows :
    (m : Mem) (base size : ℕ)
    → size < nbytes_line
    → Shows (if size == 0 then [] else hx_printline m base size ∷ []) (stored size m base)
unfolding hex_bytes stored
last-Shows m base size h = elim (Bool-cases (size == 0)) [
  | inl nothing ↦
      let empty : size ≡ 0 = ground (arith, nothing) in
      rw empty (record { wide = no_row; same = refl })
  | inr some_left ↦ rw some_left (record {
    wide = row-wide m base size [] no_row;
    same = append-nil _ ∙ row-stored m base size (omega arith);
  })
]

hx_print-Shows :
    (fuel : ℕ) (m : Mem) (base size : ℕ)
    → size < fuel * nbytes_line + nbytes_line
    → Shows (hx_print fuel m base size) (stored size m base)
unfolding hex_bytes
hx_print-Shows zero m base size h =
    rw (print-last zero m base size (omega arith)) (last-Shows m base size (omega arith))
hx_print-Shows (suc fuel) m base size h = elim (dec_le nbytes_line size) [
  | no short ↦
      rw (print-last (suc fuel) m base size (omega arith)) (last-Shows m base size (omega arith))
  | yes more ↦
      let rest = hx_print-Shows fuel m (base + nbytes_line) (size - nbytes_line) (omega arith) in
      let whole : size ≡ nbytes_line + (size - nbytes_line) = omega arith in
      rw (print-on fuel m base size more) (record {
        wide = row-wide m base nbytes_line _ rest.wide;
        same =
            ap
              (λ (xs : List ℕ).
                xs ++ hex_bytes (hx_print fuel m (base + nbytes_line) (size - nbytes_line)))
              (row-stored m base nbytes_line (omega arith))
            ∙ ap (λ (xs : List ℕ). stored nbytes_line m base ++ xs) rest.same
            ∙ sym (
                ap (λ n. stored n m base) whole
                ∙ stored-append nbytes_line (size - nbytes_line) m base);
      })
]

-- If strtoul reads both of its words in full, hexdump prints rows of 16 columns whose bytes in
-- hexadecimal are, in order, those of the memory from the address on, as many as asked for.
pub hexdump-Shows :
    (argc : ℕ) (argv : Argv) (m : Mem)
    → 3 ≤ argc
    → has_rest (argv 1) (strtoul (argv 1) 0) ≡ false
    → has_rest (argv 2) (strtoul (argv 2) 0) ≡ false
    → Shows
        (hexdump argc argv m).rows
        (stored (strtoul (argv 2) 0).value m (strtoul (argv 1) 0).value)
unfolding hexdump
hexdump-Shows argc argv m n first second =
    let size = (strtoul (argv 2) 0).value in
    let base = (strtoul (argv 1) 0).value in
    let shows = hx_print-Shows (size / nbytes_line) m base size (omega arith) in
    let same : (hexdump argc argv m).rows ≡ hx_print (size / nbytes_line) m base size =
      ground (arith, n, first, second) in
    rw same shows
