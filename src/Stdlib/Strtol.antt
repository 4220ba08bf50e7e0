-- ===== src/Stdlib/Strtol.antt =====
-- strtol, strtoll, strtoul and strtoull of lib/std, with atoi. A string is the list of its bytes
-- before the NUL, which is what is read at its end.
use nulix.Common.{
  ℕ, zero, suc, ◌+◌, ◌-◌, ◌*◌, ◌/◌, ◌%◌, ◌^◌, ◌==◌, ltb, leb, Bool, true, false, ◌&&◌, ◌||◌,
  if◌then◌else◌, List, [], ◌∷◌, get_or,
}

-- `any`: 0 before the first digit, 1 after one, -1 after one that went past the limit.
pub data Any : Type 0 where
  nothing : Any
  in_range : Any
  overflowed : Any

abbrev pub is_overflowed : Any → Bool
is_overflowed overflowed = true
is_overflowed _ = false

abbrev pub is_nothing : Any → Bool
is_nothing nothing = true
is_nothing _ = false

abbrev pub is_digit_char : ℕ → Bool
is_digit_char c = (leb 48 c && leb c 57) || (leb 65 c && leb c 90) || (leb 97 c && leb c 122)

abbrev pub digit_value : ℕ → ℕ
digit_value c =
    if leb 48 c && leb c 57 then c - 48 else if leb 65 c && leb c 90 then c - 55 else c - 87

-- The end of the digit loop: the number, and how many characters it took.
pub record Scan : Type 0 where
  pub acc : ℕ
  pub any : Any
  pub used : ℕ

module _ (w base cutoff cutlim : ℕ) where
  abbrev pub goes_over : ℕ → Any → ℕ → Bool
  goes_over acc any d = is_overflowed any || ltb cutoff acc || (acc == cutoff && ltb cutlim d)

  -- The digit loop, with words of `w` bits.
  unfoldable pub scan : List ℕ → ℕ → Any → Scan
  scan [] acc any = record { acc = acc; any = any; used = 0 }
  scan (c ∷ cs) acc any =
      let over = goes_over acc any (digit_value c) in
      let rest =
        scan cs (if over then acc else (acc * base % 2 ^ w + digit_value c) % 2 ^ w)
          (if over then overflowed else in_range) in
      if is_digit_char c && ltb (digit_value c) base
      then record rest { used = rest.used + 1 }
      else record { acc = acc; any = any; used = 0 }

unfoldable pub skip_spaces : List ℕ → ℕ
skip_spaces [] = 0
skip_spaces (c ∷ cs) = let rest = skip_spaces cs in if c == 32 then rest + 1 else 0

unfoldable pub drop : ℕ → List ℕ → List ℕ
drop zero s = s
drop (suc n) [] = []
drop (suc n) (c ∷ s) = drop n s

-- What comes before the digits: the sign, the base, and where the digits begin.
pub record Prefix : Type 0 where
  pub neg : Bool
  pub base : ℕ
  pub start : ℕ

abbrev pub has_hex_prefix : List ℕ → ℕ → ℕ → Bool
has_hex_prefix s base i =
    (base == 0 || base == 16)
    && get_or s i 0 == 48
    && (get_or s (i + 1) 0 == 120 || get_or s (i + 1) 0 == 88)

unfoldable pub read_base : List ℕ → ℕ → Bool → ℕ → Prefix
read_base s base neg i =
    if has_hex_prefix s base i
    then record { neg = neg; base = 16; start = i + 2 }
    else if base == 0
    then record { neg = neg; base = if get_or s i 0 == 48 then 8 else 10; start = i }
    else record { neg = neg; base = base; start = i }

unfoldable pub signed_prefix : List ℕ → ℕ → Prefix
signed_prefix s base =
    let i = skip_spaces s in
    if get_or s i 0 == 45
    then read_base s base true (i + 1)
    else if get_or s i 0 == 43
    then read_base s base false (i + 1)
    else read_base s base false i

unfoldable pub unsigned_prefix : List ℕ → ℕ → Prefix
unsigned_prefix s base =
    let i = skip_spaces s in
    if get_or s i 0 == 43 then read_base s base false (i + 1) else read_base s base false i

-- The value as a word of `w` bits, and the offset of `*endptr`.
pub record Converted : Type 0 where
  pub value : ℕ
  pub end : ℕ

abbrev pub negate : ℕ → ℕ → ℕ
negate w x = (2 ^ w - x) % 2 ^ w

-- The greatest magnitude of a signed number: -LONG_MIN or LONG_MAX.
abbrev pub signed_limit : ℕ → Bool → ℕ
signed_limit w neg = if neg then 2 ^ (w - 1) else 2 ^ (w - 1) - 1

unfoldable pub signed_value : ℕ → Bool → Scan → ℕ
signed_value w neg r =
    if is_overflowed r.any
    then (if neg then 2 ^ (w - 1) else 2 ^ (w - 1) - 1)
    else if neg
    then negate w r.acc
    else r.acc

unfoldable pub strto_signed : ℕ → List ℕ → ℕ → Converted
strto_signed w s base =
    let p = signed_prefix s base in
    let limit = signed_limit w p.neg in
    let r = scan w p.base (limit / p.base) (limit % p.base) (drop p.start s) 0 nothing in
    record {
      value = signed_value w p.neg r;
      end = if is_nothing r.any then 0 else p.start + r.used;
    }

unfoldable pub strto_unsigned : ℕ → List ℕ → ℕ → Converted
strto_unsigned w s base =
    let p = unsigned_prefix s base in
    let limit = 2 ^ w - 1 in
    let r = scan w p.base (limit / p.base) (limit % p.base) (drop p.start s) 0 nothing in
    record {
      value = if is_overflowed r.any then limit else r.acc;
      end = if is_nothing r.any then 0 else p.start + r.used;
    }

abbrev pub strtol : List ℕ → ℕ → Converted
strtol s base = strto_signed 32 s base

abbrev pub strtoll : List ℕ → ℕ → Converted
strtoll s base = strto_signed 64 s base

abbrev pub strtoul : List ℕ → ℕ → Converted
strtoul s base = strto_unsigned 32 s base

abbrev pub strtoull : List ℕ → ℕ → Converted
strtoull s base = strto_unsigned 64 s base

-- `int` and `long` have 32 bits.
abbrev pub atoi : List ℕ → ℕ
atoi s = (strtol s 10).value
