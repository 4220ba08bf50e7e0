-- ===== src/Print/Kprintf.antt =====
-- kprintf and snprintf of kernel/print.c: vsnprintf on a buffer of zeros of its own, and the screen of
-- kernel/screenbuf.c.
use nulix.Common.{
  ℕ, zero, suc, ◌+◌, ◌-◌, ◌≤◌, ◌<◌, ◌≡◌, ap, ◌∙◌, true, Option, none, some, List, [], length, arith,
  inr,
}
use nulix.Cstring.Memory.{Mem}
use nulix.Cstring.Text.{text_at}
use nulix.Print.Number.{Printed}
use nulix.Print.Format.{Arg, vsnprintf}
use nulix.Print.Bounds.{Bounded}
use nulix.Print.Output.{all_positive, Prints, printed, undefined_arg, vsnprintf-Prints}
use nulix.Screen.Buffer.{Screenbuf}
use nulix.Screen.Output.{sb_putstr}
use nulix.Screen.Bounds.{Within}
use nulix.Screen.Strings.{has_no_backspace, sb_putstr-Stays}

abbrev pub bufsize : ℕ
bufsize = 4096

-- snprintf returns what vsnprintf does.
abbrev pub snprintf : Mem → ℕ → ℕ → List ℕ → List Arg → Option Printed
snprintf m buf size fmt args = vsnprintf m buf size fmt args

-- `buf`, which is zero at first.
unfoldable pub print_buffer : List ℕ → List Arg → Option Printed
print_buffer fmt args = vsnprintf (λ q. 0) 0 (bufsize - 1) fmt args

abbrev pub buffer_text : Option Printed → List ℕ
buffer_text none = []
buffer_text (some p) = text_at bufsize p.mem 0

-- The number of bytes, and the screen.
pub record Kprinted : Type 0 where
  pub ret : ℕ
  pub screen : Screenbuf

abbrev pub with_ret : ℕ → Option Screenbuf → Option Kprinted
with_ret ret none = none
with_ret ret (some sb) = some (record { ret = ret; screen = sb })

abbrev pub put_buffer : Screenbuf → Option Printed → Option Kprinted
put_buffer sb none = none
put_buffer sb (some p) = with_ret p.count (sb_putstr (buffer_text (some p)) sb)

-- kprintf on the current screen, none if a conversion is undefined or the screen leaves its buffer.
unfoldable pub kprintf : List ℕ → List Arg → Screenbuf → Option Kprinted
kprintf fmt args sb = put_buffer sb (print_buffer fmt args)

text_at-length :
    (fuel : ℕ) (m : Mem) (p n : ℕ) → m (p + n) ≡ 0 → n < fuel → length (text_at fuel m p) ≤ n
unfolding text_at
text_at-length zero m p n e h = absurd (omega (arith, h))
text_at-length (suc fuel) m p zero e h =
    let here : m p ≡ 0 = ap m (omega arith) ∙ e in ground (arith, here)
text_at-length (suc fuel) m p (suc n) e h =
    let rest = text_at-length fuel m (p + 1) n (ap m (omega arith) ∙ e) (omega arith) in
    ground (arith, rest)

abbrev BoundedIf : Option Printed → Type 0
BoundedIf none = Unit
BoundedIf (some p) = Bounded (λ q. 0) 0 (bufsize - 1) p

bounded_if : (r : Option Printed) → Prints (λ q. 0) 0 (bufsize - 1) r → BoundedIf r
bounded_if _ (printed p b) = b
bounded_if _ undefined_arg = tt

all_bounded :
    (fmt : List ℕ) (args : List Arg) → all_positive args ≡ true → BoundedIf (print_buffer fmt args)
unfolding print_buffer
all_bounded fmt args pos =
    bounded_if (vsnprintf (λ q. 0) 0 (bufsize - 1) fmt args)
      (vsnprintf-Prints (λ q. 0) 0 (bufsize - 1) fmt args pos)

-- What kprintf does: its string fits the buffer with its NUL, and the screen's pointers stay in place.
pub record Shows (fmt : List ℕ) (args : List Arg) (sb : Screenbuf) (p : Printed) : Type 0 where
  pub fits : length (text_at bufsize p.mem 0) < bufsize
  pub counted : p.count < bufsize
  pub after : Screenbuf
  pub result : kprintf fmt args sb ≡ some (record { ret = p.count; screen = after })
  pub within : Within 79 after

-- For a format whose specifiers get arguments of their kinds, none of them a negative int, and a
-- text without backspaces, kprintf makes a string that fits its buffer with its NUL, returns less
-- than the buffer's size, and leaves every pointer of the screen at the start of a line of its
-- buffer, as before.
pub kprintf-Shows :
    (fmt : List ℕ) (args : List Arg) (sb : Screenbuf) (p : Printed)
    → all_positive args ≡ true
    → Within 79 sb
    → print_buffer fmt args ≡ some p
    → has_no_backspace (text_at bufsize p.mem 0) ≡ true
    → Shows fmt args sb p
unfolding kprintf
kprintf-Shows fmt args sb p pos w e b =
    let bounded : Bounded (λ q. 0) 0 (bufsize - 1) p = rw e at (all_bounded fmt args pos) in
    let stays = sb_putstr-Stays (text_at bufsize p.mem 0) sb w b in
    record {
      fits = omega (
        arith,
        text_at-length bufsize p.mem 0 (bufsize - 1)
            (bounded.outside (0 + (bufsize - 1)) (inr (omega arith))) (omega arith),
      );
      counted = omega (arith, bounded.count);
      after = stays.after;
      result = ap (put_buffer sb) e ∙ ap (with_ret p.count) stays.is_some;
      within = stays.within;
    }
