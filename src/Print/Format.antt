-- ===== src/Print/Format.antt =====
-- vsnprintf of kernel/print.c. The format and each string are the lists of their bytes before the
-- NUL; none is an argument that is missing, or is not of the kind that its specifier asks for.
use nulix.Common.{
  ℕ, ◌+◌, ◌-◌, ◌%◌, ◌==◌, ltb, leb, Bool, true, false, ◌&&◌, if◌then◌else◌, List, [], ◌∷◌, Option,
  none, some,
}
use nulix.Cstring.Memory.{Mem, put}
use nulix.Print.Number.{Printed, snprintnum}

pub data Arg : Type 0 where
  word : ℕ → Arg
  text : List ℕ → Arg

-- Where the loop is in the format: before any byte, after a `%`, or after `%` and a digit.
pub data Mode : Type 0 where
  plain : Mode
  percent : Mode
  specifier : Mode

-- What a specifier does: the arguments that are left and the output, an end, or undefined behaviour.
pub data Conversion : Type 0 where
  more : List Arg → Printed → Conversion
  stop : Conversion
  undefined : Conversion

abbrev pub write : ℕ → ℕ → Printed → Printed
write buf c p = record { mem = put p.mem (buf + p.count) c; count = p.count + 1 }

unfoldable pub write_text : ℕ → ℕ → List ℕ → Printed → Printed
write_text buf size [] p = p
write_text buf size (c ∷ s) p =
    let rest = write_text buf size s (write buf c p) in if ltb p.count size then rest else p

-- A call of snprintnum on what is left of the buffer.
unfoldable pub write_number : ℕ → ℕ → ℕ → ℕ → Bool → ℕ → Printed → Printed
write_number buf size n base issigned padding p =
    let r = snprintnum p.mem (buf + p.count) (size - p.count) n base issigned padding in
    record { mem = r.mem; count = p.count + r.count }

unfoldable pub write_pointer : ℕ → ℕ → ℕ → ℕ → Printed → Printed
write_pointer buf size n padding p =
    write_number buf size n 16 false padding (write buf 120 (write buf 48 p))

abbrev pub with_word : (ℕ → Printed) → List Arg → Conversion
with_word f (word n ∷ args) = more args (f n)
with_word f _ = undefined

abbrev pub with_text : (List ℕ → Printed) → List Arg → Conversion
with_text f (text s ∷ args) = more args (f s)
with_text f _ = undefined

unfoldable pub convert : ℕ → ℕ → ℕ → ℕ → List Arg → Printed → Conversion
convert buf size c padding args p =
    if c == 37
    then more args (write buf 37 p)
    else if c == 99
    then with_word (λ n. write buf (n % 256) p) args
    else if c == 115
    then with_text (λ s. write_text buf size s p) args
    else if c == 120
    then with_word (λ n. write_number buf size n 16 false padding p) args
    else if c == 112
    then (if ltb 2 (size - p.count)
        then with_word (λ n. write_pointer buf size n padding p) args
        else more args p)
    else if c == 98
    then with_word (λ n. write_number buf size n 2 false padding p) args
    else if c == 100
    then with_word (λ n. write_number buf size n 10 true padding p) args
    else if c == 117
    then with_word (λ n. write_number buf size n 10 false padding p) args
    else stop

abbrev pub on_step : (List Arg → Printed → Option Printed) → Printed → Conversion → Option Printed
on_step rest p (more args q) = rest args q
on_step rest p stop = some p
on_step rest p undefined = none

-- The padding stays from one specifier to the next.
unfoldable pub format : ℕ → ℕ → List ℕ → Mode → ℕ → List Arg → Printed → Option Printed
format buf size [] mode padding args p = some p
format buf size (c ∷ cs) plain padding args p =
    let literal = format buf size cs plain padding args (write buf c p) in
    let special = format buf size cs percent padding args p in
    if ltb p.count size then (if c == 37 then special else literal) else some p
format buf size (c ∷ cs) percent padding args p =
    let padded = format buf size cs specifier (c - 48) args p in
    if leb 48 c && leb c 57
    then padded
    else on_step (format buf size cs plain padding) p (convert buf size c padding args p)
format buf size (c ∷ cs) specifier padding args p =
    on_step (format buf size cs plain padding) p (convert buf size c padding args p)

unfoldable pub vsnprintf : Mem → ℕ → ℕ → List ℕ → List Arg → Option Printed
vsnprintf m buf size fmt args = format buf size fmt plain 0 args (record { mem = m; count = 0 })
