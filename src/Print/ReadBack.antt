-- ===== src/Print/ReadBack.antt =====
-- What snprintnum of kernel/print.c writes, read back by strtol of lib/std.
use nulix.Common.{
  ℕ, zero, suc, ◌+◌, ◌-◌, ◌^◌, ◌≤◌, ◌<◌, ◌≡◌, refl, ap, ◌∙◌, sym, ◌==◌, ltb, leb, false, Bool, ◌&&◌,
  ◌||◌, List, [], ◌++◌, map, length, arith, Bool-cases, inl, inr, ◌⊎◌,
}
use mathlib.Core.List.{append-nil}
use nulix.Cstring.Memory.{Mem, put}
use nulix.Cstring.Stored.{stored, stored-append, length-stored}
use nulix.Print.Number.{Printed, basepow, pad, put_digits, put_sign, snprintnum}
use nulix.Stdlib.Strtol.{digit_value, strtol}
use nulix.Stdlib.Numeral.{horner}
use nulix.Stdlib.Written.{all_digits, unsigned, sign_chars, is_minus, written, strto_signed-written}
use nulix.Stdlib.Clamp.{clamp_signed}
use nulix.Print.Digits.{Numbers, put_digits-Digits}

-- Zeros in front.
record Padded (k at : ℕ) (p p' : Printed) : Type 0 where
  count : p'.count ≡ p.count + k
  zeros : (q : ℕ) → at ≤ q → q < at + k → p'.mem q ≡ 48
  outside : (q : ℕ) → (q < at) ⊎ (at + k ≤ q) → p'.mem q ≡ p.mem q

pad-Padded : (k size at : ℕ) (p : Printed) → p.count + k ≤ size → Padded k at p (pad k size at p)
unfolding pad
pad-Padded zero size at p h = record {
  count = omega arith;
  zeros = λ q lo hi. absurd (omega arith);
  outside = λ q o. refl;
}
pad-Padded (suc k) size at p h =
    let next : Printed = record { mem = put p.mem at 48; count = p.count + 1 } in
    let rest = pad-Padded k size (at + 1) next (omega arith) in
    elim (Bool-cases (p.count + 1 == size)) [
      | inl full ↦
          let only : k ≡ 0 = ground (arith, full, h) in
          rw full (record {
            count = omega (arith, only);
            zeros = λ q lo hi. ground (arith, lo, hi, only);
            outside = λ q o. ground (arith, o, only);
          })
      | inr room ↦ rw room (record {
        count = omega (arith, rest.count);
        zeros = λ q lo hi. ground (arith, rest.zeros q, rest.outside q, lo, hi);
        outside = λ q o. ground (arith, rest.outside q, o);
      })
    ]

-- Zeros in front of a number do not change it.
Numbers-zeros :
    (k base n : ℕ) (m : Mem) (at : ℕ) (cs : List ℕ)
    → 1 ≤ base
    → ((q : ℕ) → at ≤ q → q < at + k → m q ≡ 48)
    → Numbers base n cs
    → Numbers base n (stored k m at ++ cs)
unfolding stored all_digits horner
Numbers-zeros zero base n m at cs lo z v = v
Numbers-zeros (suc k) base n m at cs lo z v =
    let rest =
      Numbers-zeros k base n m (at + 1) cs lo (λ q lo hi. z q (omega arith) (omega arith)) v in
    let zero_char : m at ≡ 48 = z at (omega arith) (omega arith) in
    rw zero_char (record {
      digits = ground (arith, rest.digits, lo);
      value =
          ap (λ a. horner base a (map digit_value (stored k m (at + 1) ++ cs))) (omega arith)
          ∙ rest.value;
    })

snprintnum-plain :
    (m : Mem) (buf size n base : ℕ) (issigned : Bool) (padding : ℕ)
    → base ≤ 16
    → 1 ≤ size
    → (issigned && leb (2 ^ 31) n) ≡ false
    → (let nl = basepow 32 n base in
        let padded = pad (padding - nl) size buf (record { mem = m; count = 0 }) in
        snprintnum m buf size n base issigned padding
        ≡ put_digits nl size base n (buf + padded.count) padded)
unfolding snprintnum put_sign
snprintnum-plain m buf size n base issigned padding hi room plus =
    let taken : (ltb 16 base || size == 0) ≡ false = ground (arith, hi, room) in
    let here : buf + 0 ≡ buf = omega arith in rw (taken, plus, here) refl

Numbers-at :
    (base n nl : ℕ) (m : Mem) (at at' : ℕ)
    → at ≡ at'
    → Numbers base n (stored nl m at)
    → Numbers base n (stored nl m at')
Numbers-at base n nl m at at' e v = rw e at v

-- A number that is not negative is written in its base, with zeros in front up to the padding.
pub snprintnum-Numbers :
    (m : Mem) (buf size n base : ℕ) (issigned : Bool) (padding : ℕ)
    → 2 ≤ base
    → base ≤ 16
    → n < 2 ^ 32
    → 1 ≤ size
    → (issigned && leb (2 ^ 31) n) ≡ false
    → basepow 32 n base ≤ size
    → padding ≤ size
    → (let r = snprintnum m buf size n base issigned padding in
        (r.count ≡ (padding - basepow 32 n base) + basepow 32 n base)
        × Numbers base n (stored r.count r.mem buf))
snprintnum-Numbers m buf size n base issigned padding lo hi h room plus short wide =
    let nl = basepow 32 n base in
    let k = padding - nl in
    let p = pad k size buf (record { mem = m; count = 0 }) in
    let zeros = pad-Padded k size buf (record { mem = m; count = 0 }) (omega arith) in
    let r = put_digits nl size base n (buf + p.count) p in
    let d =
      put_digits-Digits 32 size base n (buf + p.count) p lo hi h (omega (arith, zeros.count)) in
    let count : r.count ≡ k + nl = omega (arith, zeros.count, d.count) in
    let at : buf + p.count ≡ buf + k = omega (arith, zeros.count) in
    let front : (q : ℕ) → buf ≤ q → q < buf + k → r.mem q ≡ 48 =
      λ q lo' hi'. d.outside q (inl (omega (arith, zeros.count))) ∙ zeros.zeros q lo' hi' in
    let digits : Numbers base n (stored nl r.mem (buf + k)) =
      Numbers-at base n nl r.mem (buf + p.count) (buf + k) at d.numbers in
    let all : stored r.count r.mem buf ≡ stored k r.mem buf ++ stored nl r.mem (buf + k) =
      ap (λ c. stored c r.mem buf) count ∙ stored-append k nl r.mem buf in
    rw (snprintnum-plain m buf size n base issigned padding hi room plus) (
      count,
      rw all
          (Numbers-zeros k base n r.mem buf (stored nl r.mem (buf + k)) (omega arith) front digits),
    )

basepow-pos : (fuel n base : ℕ) → 1 ≤ basepow (suc fuel) n base
unfolding basepow
basepow-pos fuel n base = ground arith

-- A number below 2 ^ 31 that snprintnum has written, in a base from 2 to 15, with any padding and
-- in a buffer with room for its digits and its padding, is read back by strtol in that base, up
-- to the last byte written.
pub strtol-snprintnum :
    (m : Mem) (buf size n base : ℕ) (issigned : Bool) (padding : ℕ)
    → 2 ≤ base
    → base < 16
    → n < 2 ^ 31
    → 1 ≤ size
    → basepow 32 n base ≤ size
    → padding ≤ size
    → (let r = snprintnum m buf size n base issigned padding in
        strtol (stored r.count r.mem buf) base ≡ record { value = n; end = r.count })
unfolding written sign_chars is_minus clamp_signed
strtol-snprintnum m buf size n base issigned padding lo hi h room short wide =
    let r = snprintnum m buf size n base issigned padding in
    let plus : (issigned && leb (2 ^ 31) n) ≡ false = ground (arith, h) in
    let (count, v) =
      snprintnum-Numbers m buf size n base issigned padding lo (omega arith) (omega arith) room plus
        short wide in
    let text = stored r.count r.mem buf in
    let size_of = length-stored r.count r.mem buf in
    let read =
      strto_signed-written 32 base 0 unsigned text [] (omega arith) (omega arith) (omega arith)
        v.digits (omega (arith, size_of, count, basepow-pos 31 n base)) refl in
    let value : clamp_signed 32 false (horner base 0 (map digit_value text)) ≡ n =
      omega (arith, v.value) in
    let end : 0 + 0 + length text ≡ r.count = omega (arith, size_of) in
    ap (λ s. strtol s base) (sym (append-nil text))
    ∙ read
    ∙ ap (λ (x : ℕ). record { value = x; end = 0 + 0 + length text }) value
    ∙ ap (λ (x : ℕ). record { value = n; end = x }) end
