-- ===== src/Stdlib/Written.antt =====
-- Numbers as lib/std's conversions expect them written: spaces, a sign, digits, and what follows.
use nulix.Common.{
  ℕ, ◌+◌, ◌≤◌, ◌≡◌, ◌≢◌, refl, ap, ◌∙◌, ◌==◌, ltb, Bool, true, false, ◌&&◌, if◌then◌else◌, List, [],
  ◌∷◌, ◌++◌, map, length, get_or, replicate, arith, suc, zero,
}
use nulix.Stdlib.Strtol.{
  is_digit_char, digit_value, skip_spaces, read_base, signed_prefix, drop, strto_signed,
}
use nulix.Stdlib.Numeral.{numeral, horner}
use nulix.Stdlib.Clamp.{clamp_signed, numeral_end, numeral_signed, strto_signed-clamp_signed}

pub data Sign : Type 0 where
  unsigned : Sign
  plus : Sign
  minus : Sign

unfoldable pub sign_chars : Sign → List ℕ
sign_chars unsigned = []
sign_chars plus = 43 ∷ []
sign_chars minus = 45 ∷ []

unfoldable pub is_minus : Sign → Bool
is_minus minus = true
is_minus _ = false

abbrev pub is_digit : ℕ → ℕ → Bool
is_digit base c = is_digit_char c && ltb (digit_value c) base

unfoldable pub all_digits : ℕ → List ℕ → Bool
all_digits base [] = true
all_digits base (c ∷ cs) = is_digit base c && all_digits base cs

-- The number as it is written.
unfoldable pub written : ℕ → Sign → List ℕ → List ℕ → List ℕ
written n sign cs rest = replicate n 32 ++ (sign_chars sign ++ (cs ++ rest))

skip_spaces-replicate :
    (n : ℕ) (t : List ℕ) → get_or t 0 0 ≢ 32 → skip_spaces (replicate n 32 ++ t) ≡ n
unfolding skip_spaces
skip_spaces-replicate zero [] h = refl
skip_spaces-replicate zero (c ∷ t) h = ground arith
skip_spaces-replicate (suc n) t h = ground (arith, skip_spaces-replicate n t h)

get_or-replicate_append :
    (n : ℕ) (x : ℕ) (t : List ℕ) → get_or (replicate n x ++ t) n 0 ≡ get_or t 0 0
get_or-replicate_append zero x t = refl
get_or-replicate_append (suc n) x t = get_or-replicate_append n x t

drop-replicate_append : (n k x : ℕ) (t : List ℕ) → drop (n + k) (replicate n x ++ t) ≡ drop k t
unfolding drop
drop-replicate_append zero k x t = let e : 0 + k ≡ k = omega arith in rw e refl
drop-replicate_append (suc n) k x t =
    let e : suc n + k ≡ suc (n + k) = omega arith in
    ap (λ (i : ℕ). drop i (replicate (suc n) x ++ t)) e ∙ drop-replicate_append n k x t

numeral-append :
    (base : ℕ) (cs rest : List ℕ)
    → all_digits base cs ≡ true
    → is_digit base (get_or rest 0 0) ≡ false
    → numeral base (cs ++ rest) ≡ map digit_value cs
unfolding numeral all_digits
numeral-append base [] [] h e = refl
numeral-append base [] (c ∷ rest) h e = ground arith
numeral-append base (c ∷ cs) rest h e = ground (arith, numeral-append base cs rest)

read_base-explicit :
    (s : List ℕ) (base : ℕ) (neg : Bool) (i : ℕ)
    → 1 ≤ base
    → base ≢ 16
    → read_base s base neg i ≡ record { neg = neg; base = base; start = i }
unfolding read_base
read_base-explicit s base neg i h k = ground arith

-- Past the spaces, only the next character decides on the sign.
signed_prefix-spaces :
    (base n : ℕ) (t : List ℕ)
    → 1 ≤ base
    → base ≢ 16
    → get_or t 0 0 ≢ 32
    → signed_prefix (replicate n 32 ++ t) base ≡ (
        if get_or t 0 0 == 45
        then record { neg = true; base = base; start = n + 1 }
        else if get_or t 0 0 == 43
        then record { neg = false; base = base; start = n + 1 }
        else record { neg = false; base = base; start = n + 0 })
unfolding signed_prefix
signed_prefix-spaces base n t h k x =
    let s = replicate n 32 ++ t in
    let none : n + 0 ≡ n = omega arith in
    rw
      (
        skip_spaces-replicate n t x,
        get_or-replicate_append n 32 t,
        none,
        read_base-explicit s base true (n + 1) h k,
        read_base-explicit s base false (n + 1) h k,
        read_base-explicit s base false n h k,
      )
      refl

signed_prefix-written :
    (base n : ℕ) (sign : Sign) (cs rest : List ℕ)
    → 1 ≤ base
    → base ≢ 16
    → all_digits base cs ≡ true
    → 1 ≤ length cs
    → signed_prefix (written n sign cs rest) base
      ≡ record { neg = is_minus sign; base = base; start = n + length (sign_chars sign) }
unfolding signed_prefix written sign_chars is_minus all_digits
signed_prefix-written base n sign [] rest h k d e = absurd (omega arith)
signed_prefix-written base n unsigned (c ∷ cs) rest h k d e =
    let step = signed_prefix-spaces base n (c ∷ (cs ++ rest)) h k (λ x. ground arith) in
    step ∙ ground arith
signed_prefix-written base n plus (c ∷ cs) rest h k d e =
    signed_prefix-spaces base n (43 ∷ c ∷ (cs ++ rest)) h k (λ x. ground arith)
signed_prefix-written base n minus (c ∷ cs) rest h k d e =
    signed_prefix-spaces base n (45 ∷ c ∷ (cs ++ rest)) h k (λ x. ground arith)

drop-written :
    (n : ℕ) (sign : Sign) (cs rest : List ℕ)
    → drop (n + length (sign_chars sign)) (written n sign cs rest) ≡ cs ++ rest
unfolding drop written sign_chars
drop-written n unsigned cs rest = drop-replicate_append n 0 32 (cs ++ rest)
drop-written n plus cs rest = drop-replicate_append n 1 32 (43 ∷ (cs ++ rest))
drop-written n minus cs rest = drop-replicate_append n 1 32 (45 ∷ (cs ++ rest))

length-map : (f : ℕ → ℕ) (cs : List ℕ) → length (map f cs) ≡ length cs
length-map f [] = refl
length-map f (c ∷ cs) = ap suc (length-map f cs)

numeral_end-some :
    (start : ℕ) (ds : List ℕ) → 1 ≤ length ds → numeral_end start ds ≡ start + length ds
numeral_end-some start [] h = absurd (omega arith)
numeral_end-some start (d ∷ ds) h = refl

-- A number written with spaces, a sign and digits of the base, up to a character that is no digit
-- of it, is read as that number, kept within the signed type of `w` bits, and `*endptr` is just
-- past its last digit. The base is given, and is not 16.
pub strto_signed-written :
    (w base n : ℕ) (sign : Sign) (cs rest : List ℕ)
    → 1 ≤ w
    → 1 ≤ base
    → base ≢ 16
    → all_digits base cs ≡ true
    → 1 ≤ length cs
    → is_digit base (get_or rest 0 0) ≡ false
    → strto_signed w (written n sign cs rest) base ≡ record {
      value = clamp_signed w (is_minus sign) (horner base 0 (map digit_value cs));
      end = n + length (sign_chars sign) + length cs;
    }
strto_signed-written w base n sign cs rest hw h k d e stop =
    let s = written n sign cs rest in
    let found = signed_prefix-written base n sign cs rest h k d e in
    let based : 1 ≤ (signed_prefix s base).base = rw found h in
    let ended =
      numeral_end-some (n + length (sign_chars sign)) (map digit_value cs)
        (rw (length-map digit_value cs) e) in
    strto_signed-clamp_signed w base s hw based
    ∙ ap (numeral_signed w s) found
    ∙ rw
        (
          drop-written n sign cs rest,
          numeral-append base cs rest d stop,
          ended,
          length-map digit_value cs,
        )
        refl
