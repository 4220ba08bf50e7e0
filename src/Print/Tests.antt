-- ===== src/Print/Tests.antt =====
-- Runs of formatted printing, and instances of its theorems.
use nulix.Common.{
  ◌≤◌, ℕ, ◌-◌, ◌^◌, ◌≡◌, refl, true, List, [], ◌∷◌, Option, some, none, arith, replicate,
  length-replicate, false,
}
use nulix.Cstring.Text.{text_at}
use nulix.Screen.Buffer.{Screenbuf}
use nulix.Screen.Bounds.{Within}
use nulix.Screen.Strings.{has_no_backspace}
use nulix.Cstring.Stored.{stored}
use nulix.Stdlib.Strtol.{strtol}
use nulix.Print.ReadBack.{strtol-snprintnum}
use nulix.Print.Kprintf.{print_buffer, Shows, kprintf-Shows}
use nulix.Cstring.Memory.{Mem}
use nulix.Print.Number.{Printed, basepow, pad, put_digits, put_sign, snprintnum}
use nulix.Print.Format.{
  Arg, word, text, convert, write_text, write_number, write_pointer, format, vsnprintf,
}
use nulix.Print.Bounds.{Bounded, snprintnum-Bounded}
use nulix.Print.Output.{all_positive, Prints, vsnprintf-Prints}

abbrev empty_memory : Mem
empty_memory q = 0

-- -42 in three columns of digits.
abbrev minus_42 : Printed
minus_42 = snprintnum empty_memory 100 9 (2 ^ 32 - 42) 10 true 3

minus_42_bytes : List ℕ
minus_42_bytes =
    minus_42.mem 100
    ∷ minus_42.mem 101
    ∷ minus_42.mem 102
    ∷ minus_42.mem 103
    ∷ minus_42.mem 104
    ∷ []

minus_42_run : minus_42_bytes ≡ 45 ∷ 48 ∷ 52 ∷ 50 ∷ 0 ∷ []
unfolding minus_42_bytes snprintnum basepow pad put_digits put_sign
minus_42_run = refl

-- With room for one byte, a padded negative number runs over it.
minus_42_over : (snprintnum empty_memory 100 1 (2 ^ 32 - 42) 10 true 9).count ≡ 8
unfolding snprintnum basepow pad put_digits put_sign
minus_42_over = refl

snprintnum-Bounded_example : Bounded empty_memory 100 9 minus_42
snprintnum-Bounded_example =
    snprintnum-Bounded empty_memory 100 9 (2 ^ 32 - 42) 10 true 3 (λ e. absurd (omega arith))

-- "%4x=%s" with 255 and "ab", in a buffer of 6 bytes.
abbrev hex_and_text : List ℕ
hex_and_text = 37 ∷ 52 ∷ 120 ∷ 61 ∷ 37 ∷ 115 ∷ []

abbrev two_args : List Arg
two_args = word 255 ∷ text (97 ∷ 98 ∷ []) ∷ []

abbrev count_of : Option Printed → ℕ
count_of none = 0
count_of (some p) = p.count

hex_and_text_count : count_of (vsnprintf empty_memory 100 6 hex_and_text two_args) ≡ 6
unfolding vsnprintf format convert write_text write_number write_pointer snprintnum basepow pad
    put_digits put_sign
hex_and_text_count = refl

two_args_lem : all_positive two_args ≡ true
unfolding all_positive
two_args_lem = refl

vsnprintf-Prints_example :
    Prints empty_memory 100 6 (vsnprintf empty_memory 100 6 hex_and_text two_args)
vsnprintf-Prints_example = vsnprintf-Prints empty_memory 100 6 hex_and_text two_args two_args_lem

abbrev screen : Screenbuf
screen = record {
  top = 0;
  viewport = 0;
  endbuf = 16000;
  cursor = 80;
  cursor_offset = 3;
  color = 15;
  loaded = false;
  buf = replicate 16000 0x0f00;
  vga = replicate 2000 0;
  shown = none;
}

screen-Within : Within 79 screen
screen-Within = record {
  endbuf = refl;
  size = length-replicate {A = ℕ} 16000 0x0f00;
  top = record { inside = omega arith; aligned = refl };
  viewport = record { inside = omega arith; aligned = refl };
  cursor = record { inside = omega arith; aligned = refl };
  offset = omega arith;
}

abbrev or_empty : Option Printed → Printed
or_empty none = record { mem = empty_memory; count = 0 }
or_empty (some p) = p

-- "00ff=ab"
abbrev kprinted : Printed
kprinted = or_empty (print_buffer hex_and_text two_args)

kprinted_lem : print_buffer hex_and_text two_args ≡ some kprinted
unfolding print_buffer vsnprintf format convert write_text write_number snprintnum basepow pad
    put_digits put_sign
kprinted_lem = refl

kprinted_text : text_at 4096 kprinted.mem 0 ≡ 48 ∷ 48 ∷ 102 ∷ 102 ∷ 61 ∷ 97 ∷ 98 ∷ []
unfolding print_buffer vsnprintf format convert write_text write_number snprintnum basepow pad
    put_digits put_sign text_at
kprinted_text = refl

kprinted_plain : has_no_backspace (text_at 4096 kprinted.mem 0) ≡ true
unfolding has_no_backspace
kprinted_plain = rw kprinted_text refl

kprintf-Shows_example : Shows hex_and_text two_args screen kprinted
kprintf-Shows_example =
    kprintf-Shows hex_and_text two_args screen kprinted two_args_lem screen-Within kprinted_lem
      kprinted_plain

short_enough : basepow 32 255 10 ≤ 9
unfolding basepow
short_enough = omega arith

-- 255 in six columns.
strtol-snprintnum_example :
    (let r = snprintnum empty_memory 100 9 255 10 true 6 in
      strtol (stored r.count r.mem 100) 10 ≡ record { value = 255; end = r.count })
strtol-snprintnum_example =
    strtol-snprintnum empty_memory 100 9 255 10 true 6 (omega arith) (omega arith) (omega arith)
      (omega arith) short_enough (omega arith)
