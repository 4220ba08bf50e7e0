-- ===== src/Stdlib/Numeral.antt =====
-- What lib/std's conversions read: the longest run of digits of the base, and its value.
use nulix.Common.{
  ℕ, suc, dec_lt, ◌+◌, ◌*◌, ◌/◌, ◌%◌, ◌^◌, ◌≤◌, ◌<◌, ◌≡◌, refl, ◌==◌, ltb, true, false, ◌&&◌, ◌||◌,
  if◌then◌else◌, List, [], ◌∷◌, length, arith, Bool-cases, inl, inr,
}
use native.Mathlib.Nat.{le-mul_of_pos_right, mul-le-mul_right, div-add-mod', mod-lt, mod-eq_of_lt}
use nulix.Stdlib.Strtol.{
  Any, in_range, overflowed, is_overflowed, is_digit_char, digit_value, Scan, goes_over, scan,
}

-- The digits at the front of a string.
unfoldable pub numeral : ℕ → List ℕ → List ℕ
numeral base [] = []
numeral base (c ∷ cs) =
    let rest = numeral base cs in
    if is_digit_char c && ltb (digit_value c) base then digit_value c ∷ rest else []

-- The number that digits write after `acc`, without a bound.
unfoldable pub horner : ℕ → ℕ → List ℕ → ℕ
horner base acc [] = acc
horner base acc (d ∷ ds) = horner base (acc * base + d) ds

pub record Scanned (base limit acc : ℕ) (any : Any) (ds : List ℕ) (r : Scan) : Type 0 where
  pub used : r.used ≡ length ds
  pub idle : ds ≡ [] → r.any ≡ any
  pub fits : 1 ≤ length ds → horner base acc ds ≤ limit → r.any ≡ in_range
  pub over : limit < horner base acc ds → r.any ≡ overflowed
  pub total : horner base acc ds ≤ limit → r.acc ≡ horner base acc ds

le-horner : (base acc : ℕ) (ds : List ℕ) → 1 ≤ base → acc ≤ horner base acc ds
unfolding horner
le-horner base acc [] h = omega arith
le-horner base acc (d ∷ ds) h =
    omega (arith, le-horner base (acc * base + d) ds h, le-mul_of_pos_right acc h)

-- The test before a digit is taken says whether the number would go past the limit.
goes_over_lem :
    (base limit acc d : ℕ)
    → d < base
    → (ltb (limit / base) acc || (acc == limit / base && ltb (limit % base) d))
      ≡ ltb limit (acc * base + d)
goes_over_lem base limit acc d h =
    let parts = div-add-mod' limit base in
    let rest : limit % base < base = mod-lt limit (omega arith) in
    elim (dec_lt acc (limit / base)) [
      | yes less ↦ ground (arith, parts, rest, mul-le-mul_right {m = suc acc} base less)
      | no enough ↦ elim (dec_lt (limit / base) acc) [
        | yes more ↦
            ground (arith, parts, rest, mul-le-mul_right {m = suc (limit / base)} base more)
        | no most ↦ let same : acc ≡ limit / base = omega arith in rw same (ground (arith, parts))
      ]
    ]

-- One step of the description, for a digit that fits, for one that does not, and for the end.
module _ (base limit acc d : ℕ) (any : Any) (ds : List ℕ) (base_pos : 1 ≤ base) where
  Scanned-more :
      (r : Scan)
      → Scanned base limit (acc * base + d) in_range ds r
      → acc * base + d ≤ limit
      → Scanned base limit acc any (d ∷ ds) (record r { used = r.used + 1 })
  unfolding horner
  Scanned-more r s fit = record {
    used = omega (arith, s.used);
    idle = λ e. absurd (ground arith);
    fits = λ x y.
        elim ds as (λ (es : List ℕ). ds ≡ es → r.any ≡ in_range) [
          | [] ↦ λ e. s.idle e
          | f ∷ fs ↦ λ e. s.fits (rw e (omega arith)) y
        ]
          refl;
    over = s.over;
    total = s.total;
  }

  Scanned-over :
      (r : Scan)
      → r.any ≡ overflowed
      → r.used ≡ length ds
      → limit < acc * base + d
      → Scanned base limit acc any (d ∷ ds) (record r { used = r.used + 1 })
  unfolding horner
  Scanned-over r a u past =
      let grows = le-horner base (acc * base + d) ds base_pos in
      record {
        used = omega (arith, u);
        idle = λ e. absurd (ground arith);
        fits = λ x y. absurd (omega (arith, grows));
        over = λ x. a;
        total = λ y. absurd (omega (arith, grows));
      }

Scanned-end :
    (base limit acc : ℕ) (any : Any)
    → acc ≤ limit
    → Scanned base limit acc any [] (record { acc = acc; any = any; used = 0 })
unfolding horner
Scanned-end base limit acc any h = record {
  used = refl;
  idle = λ x. refl;
  fits = λ x y. absurd (omega arith);
  over = λ x. absurd (omega arith);
  total = λ x. refl;
}

numeral_more :
    (base c : ℕ) (cs : List ℕ)
    → (is_digit_char c && ltb (digit_value c) base) ≡ true
    → numeral base (c ∷ cs) ≡ digit_value c ∷ numeral base cs
unfolding numeral
numeral_more base c cs h = rw h refl

numeral_stop :
    (base c : ℕ) (cs : List ℕ)
    → (is_digit_char c && ltb (digit_value c) base) ≡ false
    → numeral base (c ∷ cs) ≡ []
unfolding numeral
numeral_stop base c cs h = rw h refl

module _ (w base limit : ℕ) (base_pos : 1 ≤ base) (limit_lt : limit < 2 ^ w) where
  -- The loop, with the limit that the caller divides by the base.
  abbrev pub digits : List ℕ → ℕ → Any → Scan
  digits cs acc any = scan w base (limit / base) (limit % base) cs acc any

  -- Once past the limit, the loop only looks for the end of the digits.
  scan-overflowed :
      (cs : List ℕ) (acc : ℕ)
      → ((digits cs acc overflowed).any ≡ overflowed)
        × ((digits cs acc overflowed).used ≡ length (numeral base cs))
  unfolding scan numeral
  scan-overflowed [] acc = (refl, refl)
  scan-overflowed (c ∷ cs) acc = ground (arith, scan-overflowed cs acc)

  module _ (c : ℕ) (cs : List ℕ) (acc : ℕ) (any : Any) where
    scan_more :
        (is_digit_char c && ltb (digit_value c) base) ≡ true
        → acc * base + digit_value c ≤ limit
        → is_overflowed any ≡ false
        → digits (c ∷ cs) acc any ≡ record (digits cs (acc * base + digit_value c) in_range) {
          used = (digits cs (acc * base + digit_value c) in_range).used + 1;
        }
    unfolding scan
    scan_more h k e =
        let sized : digit_value c < base = ground arith in
        let keeps : goes_over w base (limit / base) (limit % base) acc any (digit_value c) ≡ false =
          ground (arith, goes_over_lem base limit acc (digit_value c) sized) in
        let shifted : acc * base % 2 ^ w ≡ acc * base = mod-eq_of_lt (omega arith) in
        let word : (acc * base + digit_value c) % 2 ^ w ≡ acc * base + digit_value c =
          mod-eq_of_lt (omega arith) in
        rw (h, keeps, shifted, word) refl

    scan_over :
        (is_digit_char c && ltb (digit_value c) base) ≡ true
        → limit < acc * base + digit_value c
        → is_overflowed any ≡ false
        → digits (c ∷ cs) acc any
          ≡ record (digits cs acc overflowed) { used = (digits cs acc overflowed).used + 1 }
    unfolding scan
    scan_over h k e =
        let sized : digit_value c < base = ground arith in
        let goes : goes_over w base (limit / base) (limit % base) acc any (digit_value c) ≡ true =
          ground (arith, goes_over_lem base limit acc (digit_value c) sized) in
        rw (h, goes) refl

    scan_stop :
        (is_digit_char c && ltb (digit_value c) base) ≡ false
        → digits (c ∷ cs) acc any ≡ record { acc = acc; any = any; used = 0 }
    unfolding scan
    scan_stop h = rw h refl

  pub scan-Scanned :
      (cs : List ℕ) (acc : ℕ) (any : Any)
      → acc ≤ limit
      → is_overflowed any ≡ false
      → Scanned base limit acc any (numeral base cs) (digits cs acc any)
  unfolding scan numeral
  scan-Scanned [] acc any h e = Scanned-end base limit acc any h
  scan-Scanned (c ∷ cs) acc any h e =
      elim (Bool-cases (is_digit_char c && ltb (digit_value c) base)) [
        | inl digit ↦ elim (dec_lt limit (acc * base + digit_value c)) [
          | yes past ↦
              let rest = scan-overflowed cs acc in
              rw (numeral_more base c cs digit, scan_over c cs acc any digit past e)
                (Scanned-over base limit acc (digit_value c) any (numeral base cs) base_pos
                  (digits cs acc overflowed) rest.0 rest.1 past)
          | no fit ↦
              let rest = scan-Scanned cs (acc * base + digit_value c) in_range (omega arith) refl in
              rw (numeral_more base c cs digit, scan_more c cs acc any digit (omega arith) e)
                (Scanned-more base limit acc (digit_value c) any (numeral base cs) base_pos
                  (digits cs (acc * base + digit_value c) in_range) rest (omega arith))
        ]
        | inr other ↦
            rw (numeral_stop base c cs other, scan_stop c cs acc any other)
              (Scanned-end base limit acc any h)
      ]
