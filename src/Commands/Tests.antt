-- ===== src/Commands/Tests.antt =====
-- Commands of kernel/nsh/builtins/, and instances of the theorems on them.
use nulix.Common.{
  List, length-replicate, ℕ, ◌≡◌, ◌==◌, refl, true, false, none, some, [], ◌∷◌, replicate, arith,
  if◌then◌else◌, zero, suc,
}
use nulix.Stdlib.Strtol.{
  strtol, strtoul, strto_signed, strto_unsigned, signed_prefix, unsigned_prefix, read_base,
  skip_spaces, scan, drop, signed_value,
}
use nulix.Kpm.Buddy.{Buddy}
use nulix.Kpm.Update.Close.{IsValid}
use nulix.Kpm.Region.{kpm_enable}
use nulix.Kpm.Region.Enable.{kpm_enable-Regioned}
use nulix.Kpm.Init.{fresh_buddy, frames_of_memory}
use nulix.Kpm.Align.{align_down}
use nulix.Kpm.Init.Fresh.{fresh_buddy-IsValid}
use nulix.Kpm.Trace.{start}
use nulix.Screen.Buffer.{Screenbuf, sb_dfl_color, sb_set_fg, sb_set_bg}
use nulix.Commands.Args.{Argv, has_rest, find_word}
use nulix.Commands.Memory.{Allocation, alloc}
use nulix.Commands.Allotted.{Allotted, alloc-Allotted}
use nulix.Commands.Screens.{Screens, next, prev, is_loaded, OneLoaded, next-prev}
use nulix.Commands.Settings.{color, interrupt, info}
use nulix.Commands.Dump.{hexdump}
use nulix.Commands.Dumped.{Shows, hexdump-Shows}
use nulix.Commands.Entry.{
  Action, puts, paint, wipe, scroll_back, scroll_top, forward, back, is_plain, are_plain, session,
}
use nulix.Screen.Strings.{has_no_backspace}
use nulix.Commands.Session.{kernel_screens, Ready, session-Ready}
use nulix.Cstring.Stored.{stored}

-- "20480", for alloc, and "0x10" "020", for hexdump.
abbrev alloc_argv : Argv
alloc_argv i = 50 ∷ 48 ∷ 52 ∷ 56 ∷ 48 ∷ []

abbrev dump_argv : Argv
dump_argv i = if i == 1 then 48 ∷ 120 ∷ 49 ∷ 48 ∷ [] else 48 ∷ 50 ∷ 48 ∷ []

-- Everything that reads a number.
number_run : ℕ
unfolding strto_signed strto_unsigned signed_prefix unsigned_prefix read_base skip_spaces scan drop
    signed_value
number_run = 0

-- Frames 3 to 7 free.
abbrev small_buddy : Buddy
small_buddy = kpm_enable 0x3000 0x5000 (fresh_buddy 4096)

small_buddy-IsValid : IsValid small_buddy
unfolding fresh_buddy frames_of_memory align_down
small_buddy-IsValid =
    (kpm_enable-Regioned (fresh_buddy 4096) 0x3000 0x5000 (fresh_buddy-IsValid 4096)
      (omega arith)).valid

alloc_size : (strtol (alloc_argv 1) 0).value ≡ 20480
unfolding number_run
alloc_size = refl

alloc_argv_whole : has_rest (alloc_argv 1) (strtol (alloc_argv 1) 0) ≡ false
unfolding number_run
alloc_argv_whole = refl

alloc-Allotted_example :
    (a : Allocation) × (alloc 2 alloc_argv small_buddy ≡ some a)
    × Allotted small_buddy (strtol (alloc_argv 1) 0).value [] [] a
alloc-Allotted_example =
    alloc-Allotted 2 alloc_argv small_buddy small_buddy [] small_buddy-IsValid start (omega arith)
      alloc_argv_whole (omega (arith, alloc_size))

abbrev dark : Screenbuf
dark = record {
  top = 0;
  viewport = 0;
  endbuf = 16000;
  cursor = 0;
  cursor_offset = 0;
  color = sb_dfl_color;
  loaded = false;
  buf = replicate 16000 0x0f00;
  vga = replicate 2000 0;
  shown = none;
}

abbrev two_screens : Screens
two_screens = record {
  screens = record dark { loaded = true } ∷ dark ∷ [];
  current = 0;
  vga = dark.vga;
  shown = none;
}

first_loaded : (i : ℕ) → is_loaded two_screens.screens i ≡ (i == 0)
unfolding is_loaded
first_loaded zero = refl
first_loaded (suc zero) = refl
first_loaded (suc (suc i)) = ground arith

two_screens-OneLoaded : OneLoaded two_screens
two_screens-OneLoaded = record { inside = omega arith; only = first_loaded }

next-prev_example :
    OneLoaded (next two_screens)
    × OneLoaded (prev two_screens)
    × ((prev (next two_screens)).current ≡ 0)
    × ((next (prev two_screens)).current ≡ 0)
next-prev_example = next-prev two_screens two_screens-OneLoaded

dump_argv_whole :
    (has_rest (dump_argv 1) (strtoul (dump_argv 1) 0) ≡ false)
    × (has_rest (dump_argv 2) (strtoul (dump_argv 2) 0) ≡ false)
unfolding number_run
dump_argv_whole = (refl, refl)

hexdump-Shows_example :
    Shows
      (hexdump 3 dump_argv (λ p. p)).rows
      (stored (strtoul (dump_argv 2) 0).value (λ p. p) (strtoul (dump_argv 1) 0).value)
hexdump-Shows_example =
    hexdump-Shows 3 dump_argv (λ p. p) (omega arith) dump_argv_whole.0 dump_argv_whole.1

-- "fg" and "cyan".
cyan :
    (color 3 (λ i. if i == 1 then 102 ∷ 103 ∷ [] else 99 ∷ 121 ∷ 97 ∷ 110 ∷ []) dark).screen.color
    ≡ 3
unfolding color find_word sb_set_fg sb_set_bg
cyan = refl

-- "buddy" with an order past the last one, "11".
no_order :
    (info 3 (λ i. if i == 1 then 98 ∷ 117 ∷ 100 ∷ 100 ∷ 121 ∷ [] else 49 ∷ 49 ∷ [])).part ≡ none
unfolding info number_run
no_order = refl

-- "8"
raised : (interrupt 2 (λ i. 56 ∷ [])).number ≡ some 8
unfolding interrupt number_run
raised = refl

-- Writing "A\n" on the second screen, then on the first one.
abbrev two_lines : List Action
two_lines =
    forward
    ∷ puts (65 ∷ 10 ∷ [])
    ∷ scroll_back
    ∷ paint 0x1f
    ∷ back
    ∷ puts (65 ∷ 10 ∷ [])
    ∷ scroll_top
    ∷ wipe
    ∷ []

two_lines_lem : are_plain two_lines ≡ true
unfolding are_plain is_plain has_no_backspace
two_lines_lem = refl

session-Ready_example : Ready (session two_lines (kernel_screens dark dark 0 dark.vga none))
session-Ready_example =
    session-Ready two_lines dark dark 0 dark.vga none two_lines_lem
      (length-replicate {A = ℕ} 16000 0x0f00) (length-replicate {A = ℕ} 16000 0x0f00)
