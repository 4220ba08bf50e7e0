-- ===== src/Print/Number.antt =====
-- basepow and snprintnum of kernel/print.c. The buffer is in the memory, at the address `buf`.
use nulix.Common.{
  ℕ, zero, suc, ◌+◌, ◌-◌, ◌/◌, ◌%◌, ◌^◌, ◌==◌, ltb, leb, Bool, ◌&&◌, ◌||◌, if◌then◌else◌,
}
use nulix.Cstring.Memory.{Mem, put}

-- The memory and the count of the bytes written.
pub record Printed : Type 0 where
  pub mem : Mem
  pub count : ℕ

-- The length of a number. The base is at least 2, so 32 rounds are enough for a word.
unfoldable pub basepow : ℕ → ℕ → ℕ → ℕ
basepow zero n base = 0
basepow (suc fuel) n base =
    let rest = basepow fuel (n / base) base in if n / base == 0 then 1 else rest + 1

abbrev pub digit_char : ℕ → ℕ
digit_char d = if ltb d 10 then 48 + d else 87 + d

-- At most `padding` zeros; `at` is where the next byte goes.
unfoldable pub pad : ℕ → ℕ → ℕ → Printed → Printed
pad zero size at p = p
pad (suc padding) size at p =
    let next : Printed = record { mem = put p.mem at 48; count = p.count + 1 } in
    let rest = pad padding size (at + 1) next in if next.count == size then next else rest

-- The last `nl` digits, from the last one on, at the address `at`.
unfoldable pub put_digits : ℕ → ℕ → ℕ → ℕ → ℕ → Printed → Printed
put_digits zero size base un at p = p
put_digits (suc nl) size base un at p =
    let next : Printed =
      if ltb (p.count + nl) size
      then record { mem = put p.mem (at + nl) (digit_char (un % base)); count = p.count + 1 }
      else p in
    let rest = put_digits nl size base (un / base) at next in if un / base == 0 then next else rest

abbrev pub is_negative : Bool → ℕ → Bool
is_negative issigned n = issigned && leb (2 ^ 31) n

-- The sign.
unfoldable pub put_sign : Mem → ℕ → ℕ → Bool → Printed
put_sign m buf n issigned =
    if is_negative issigned n
    then record { mem = put m buf 45; count = 1 }
    else record { mem = m; count = 0 }

-- `n` is an int, as a word.
unfoldable pub snprintnum : Mem → ℕ → ℕ → ℕ → ℕ → Bool → ℕ → Printed
snprintnum m buf size n base issigned padding =
    let signed = put_sign m buf n issigned in
    let un = if is_negative issigned n then (2 ^ 32 - n) % 2 ^ 32 else n in
    let nl = basepow 32 un base in
    let padded = pad (padding - nl) size (buf + signed.count) signed in
    if ltb 16 base || size == 0
    then record { mem = m; count = 0 }
    else put_digits nl size base un (buf + padded.count) padded
