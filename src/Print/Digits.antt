-- ===== src/Print/Digits.antt =====
-- The digits that snprintnum of kernel/print.c writes.
use nulix.Common.{
  ℕ, zero, suc, ◌+◌, ◌*◌, ◌/◌, ◌%◌, ◌^◌, ◌≤◌, ◌<◌, ◌≡◌, ◌≢◌, refl, ap, ◌∙◌, sym, ◌==◌, ==_iff, true,
  ◌&&◌, if◌then◌else◌, List, [], ◌∷◌, ◌++◌, map, arith, Bool-cases, inl, inr, ◌⊎◌, holds_below,
  holds_below-at,
}
use native.Mathlib.Nat.{mod-lt, div-add-mod', mul-le-mul_left, pow-suc}
use nulix.Cstring.Memory.{put}
use nulix.Cstring.Stored.{stored, stored-snoc}
use nulix.Print.Number.{Printed, basepow, digit_char, put_digits}
use nulix.Stdlib.Strtol.{digit_value, is_digit_char}
use nulix.Stdlib.Numeral.{horner}
use nulix.Stdlib.Written.{is_digit, all_digits}

digit_table :
    holds_below 16 (λ d. digit_value (digit_char d) == d && is_digit_char (digit_char d)) ≡ true
unfolding holds_below
digit_table = refl

digit_lem :
    (base d : ℕ)
    → d < base
    → base ≤ 16
    → (digit_value (digit_char d) ≡ d) × (is_digit base (digit_char d) ≡ true)
digit_lem base d h k =
    let both = holds_below-at 16 _ d digit_table (omega arith) in
    (ground (arith, both), ground (arith, both, h))

-- A text that is a number in a base.
pub record Numbers (base n : ℕ) (cs : List ℕ) : Type 0 where
  pub digits : all_digits base cs ≡ true
  pub value : horner base 0 (map digit_value cs) ≡ n

all_digits-snoc :
    (base : ℕ) (cs : List ℕ) (c : ℕ)
    → all_digits base cs ≡ true
    → is_digit base c ≡ true
    → all_digits base (cs ++ (c ∷ [])) ≡ true
unfolding all_digits
all_digits-snoc base [] c h k = ground (arith, k)
all_digits-snoc base (x ∷ xs) c h k =
    ground (arith, h, all_digits-snoc base xs c (ground (arith, h)) k)

horner-snoc :
    (base acc : ℕ) (cs : List ℕ) (c : ℕ)
    → horner base acc (map digit_value (cs ++ (c ∷ [])))
      ≡ horner base acc (map digit_value cs) * base + digit_value c
unfolding horner
horner-snoc base acc [] c = refl
horner-snoc base acc (x ∷ xs) c = horner-snoc base (acc * base + digit_value x) xs c

Numbers-snoc :
    (base n : ℕ) (cs : List ℕ)
    → 1 ≤ base
    → base ≤ 16
    → Numbers base (n / base) cs
    → Numbers base n (cs ++ (digit_char (n % base) ∷ []))
Numbers-snoc base n cs lo hi v =
    let d = digit_lem base (n % base) (mod-lt n (omega arith)) hi in
    record {
      digits = all_digits-snoc base cs (digit_char (n % base)) v.digits d.1;
      value =
          horner-snoc base 0 cs (digit_char (n % base))
          ∙ ap (λ k. k * base + digit_value (digit_char (n % base))) v.value
          ∙ ap (λ k. n / base * base + k) d.0
          ∙ div-add-mod' n base;
    }

-- What the loop of digits leaves: the text of the number at `at`, and the rest of the memory.
pub record Digits (nl base un at : ℕ) (p p' : Printed) : Type 0 where
  pub count : p'.count ≡ p.count + nl
  pub numbers : Numbers base un (stored nl p'.mem at)
  pub outside : (q : ℕ) → (q < at) ⊎ (at + nl ≤ q) → p'.mem q ≡ p.mem q

basepow-step :
    (fuel n base : ℕ)
    → n / base ≢ 0
    → basepow (suc fuel) n base ≡ suc (basepow fuel (n / base) base)
unfolding basepow
basepow-step fuel n base h = ground (arith, h)

basepow-last : (fuel n base : ℕ) → n / base ≡ 0 → basepow (suc fuel) n base ≡ 1
unfolding basepow
basepow-last fuel n base h = ground (arith, h)

-- One round with room for its digit.
put_digits-step :
    (nl size base un at : ℕ) (p : Printed)
    → p.count + nl < size
    → put_digits (suc nl) size base un at p ≡ (
        let next : Printed = record {
          mem = put p.mem (at + nl) (digit_char (un % base));
          count = p.count + 1;
        } in
        if un / base == 0 then next else put_digits nl size base (un / base) at next)
unfolding put_digits
put_digits-step nl size base un at p h = ground (arith, h)

Digits-suc :
    (nl base un at : ℕ) (p p' : Printed)
    → 2 ≤ base
    → base ≤ 16
    → Digits nl base
        (un / base)
        at
        (record { mem = put p.mem (at + nl) (digit_char (un % base)); count = p.count + 1 })
        p'
    → Digits (suc nl) base un at p p'
Digits-suc nl base un at p p' lo hi d =
    let last : p'.mem (at + nl) ≡ digit_char (un % base) =
      ground (arith, d.outside (at + nl) (inr (omega arith))) in
    let text : stored (suc nl) p'.mem at ≡ stored nl p'.mem at ++ (digit_char (un % base) ∷ []) =
      stored-snoc nl p'.mem at ∙ ap (λ c. stored nl p'.mem at ++ (c ∷ [])) last in
    record {
      count = omega (arith, d.count);
      numbers = rw text (Numbers-snoc base un (stored nl p'.mem at) (omega arith) hi d.numbers);
      outside = λ q o. ground (arith, d.outside q, o);
    }

Digits-zero : (base at : ℕ) (p : Printed) (un : ℕ) → un ≡ 0 → Digits 0 base un at p p
unfolding stored all_digits horner
Digits-zero base at p un e = record {
  count = omega arith;
  numbers = record { digits = refl; value = sym e };
  outside = λ q o. refl;
}

basepow_zero :
    (size base un at : ℕ) (p : Printed)
    → un ≡ 0
    → Digits (basepow 0 un base) base un at p (put_digits (basepow 0 un base) size base un at p)
unfolding basepow put_digits
basepow_zero size base un at p e = Digits-zero base at p un e

-- A base of 2 or more takes a binary digit at least.
div_half : (un base bound : ℕ) → 2 ≤ base → un < bound * 2 → un / base < bound
div_half un base bound lo h = omega (arith, div-add-mod' un base, mul-le-mul_left (un / base) lo)

pub put_digits-Digits :
    (fuel size base un at : ℕ) (p : Printed)
    → 2 ≤ base
    → base ≤ 16
    → un < 2 ^ fuel
    → p.count + basepow fuel un base ≤ size
    → Digits
        (basepow fuel un base)
        base
        un
        at
        p
        (put_digits (basepow fuel un base) size base un at p)
put_digits-Digits zero size base un at p lo hi h room =
    basepow_zero size base un at p (omega (arith, h))
put_digits-Digits (suc fuel) size base un at p lo hi h room = elim (Bool-cases (un / base == 0)) [
  | inl last ↦
      let none_left : un / base ≡ 0 = (==_iff _ _).0 last in
      let one = basepow-last fuel un base none_left in
      let room' : p.count + 1 ≤ size = omega (arith, one, room) in
      rw (one, put_digits-step 0 size base un at p (omega arith), last)
        (Digits-suc 0 base un at p _ lo hi (Digits-zero base at _ (un / base) none_left))
  | inr more ↦
      let some_left : un / base ≢ 0 = λ e. absurd (ground (arith, e, more)) in
      let nl = basepow fuel (un / base) base in
      let long = basepow-step fuel un base some_left in
      let next : Printed = record {
        mem = put p.mem (at + nl) (digit_char (un % base));
        count = p.count + 1;
      } in
      let rest =
        put_digits-Digits fuel size base (un / base) at next lo hi
          (div_half un base (2 ^ fuel) lo (omega (arith, h, pow-suc 2 fuel)))
          (omega (arith, long, room)) in
      rw (long, put_digits-step nl size base un at p (omega (arith, long, room)), more)
        (Digits-suc nl base un at p _ lo hi rest)
]
