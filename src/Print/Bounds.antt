-- ===== src/Print/Bounds.antt =====
-- kernel/print.c writes no more than `size` bytes, and none outside of its buffer.
use nulix.Common.{
  ℕ, zero, suc, ◌+◌, ◌-◌, ◌/◌, ◌%◌, ◌^◌, ◌≤◌, ◌<◌, ◌≡◌, refl, ◌==◌, ltb, Bool, true, false, ◌||◌,
  if◌then◌else◌, arith, ◌⊎◌, inl, inr, Bool-cases,
}
use nulix.Cstring.Memory.{Mem, put}
use nulix.Print.Number.{
  Printed, pad, put_digits, put_sign, snprintnum, digit_char, basepow, is_negative,
}

-- From memory `m`, output to the `size` bytes at `buf`.
pub record Bounded (m : Mem) (buf size : ℕ) (p : Printed) : Type 0 where
  pub count : p.count ≤ size
  pub outside : (q : ℕ) → (q < buf) ⊎ (buf + size ≤ q) → p.mem q ≡ m q

pub put-Bounded :
    (m : Mem) (buf size at c : ℕ) (p : Printed)
    → Bounded m buf size p
    → p.count < size
    → buf ≤ at
    → at < buf + size
    → Bounded m buf size (record { mem = put p.mem at c; count = p.count + 1 })
put-Bounded m buf size at c p b h lo hi = record {
  count = omega arith;
  outside = λ q o. ground (arith, b.outside q o);
}

pad-Bounded :
    (m : Mem) (buf size padding : ℕ) (p : Printed)
    → Bounded m buf size p
    → p.count < size
    → Bounded m buf size (pad padding size (buf + p.count) p)
unfolding pad
pad-Bounded m buf size zero p b h = b
pad-Bounded m buf size (suc padding) p b h =
    let next : Printed = record { mem = put p.mem (buf + p.count) 48; count = p.count + 1 } in
    let one = put-Bounded m buf size (buf + p.count) 48 p b h (omega arith) (omega arith) in
    elim (Bool-cases (p.count + 1 == size)) [
      | inl full ↦ rw full one
      | inr room ↦
          let at : buf + p.count + 1 ≡ buf + (p.count + 1) = omega arith in
          rw (room, at) (pad-Bounded m buf size padding next one (ground arith))
    ]

Bounded-if :
    {m : Mem} {buf size : ℕ} (c : Bool) {p q : Printed}
    → Bounded m buf size p
    → Bounded m buf size q
    → Bounded m buf size (if c then p else q)
Bounded-if true b d = b
Bounded-if false b d = d

put_digits-Bounded :
    (m : Mem) (buf size nl base un at : ℕ) (p : Printed)
    → Bounded m buf size p
    → buf ≤ at
    → at ≤ buf + p.count
    → Bounded m buf size (put_digits nl size base un at p)
unfolding put_digits
put_digits-Bounded m buf size zero base un at p b lo hi = b
put_digits-Bounded m buf size (suc nl) base un at p b lo hi =
    let written : Printed = record {
      mem = put p.mem (at + nl) (digit_char (un % base));
      count = p.count + 1;
    } in
    elim (Bool-cases (ltb (p.count + nl) size)) [
      | inl fits ↦
          let one =
            put-Bounded m buf size (at + nl) (digit_char (un % base)) p b (ground arith)
              (omega arith) (ground arith) in
          let rest =
            put_digits-Bounded m buf size nl base (un / base) at written one lo (omega arith) in
          rw fits (Bounded-if (un / base == 0) one rest)
      | inr late ↦
          let rest = put_digits-Bounded m buf size nl base (un / base) at p b lo hi in
          rw late (Bounded-if (un / base == 0) b rest)
    ]

pub fresh-Bounded : (m : Mem) (buf size : ℕ) → Bounded m buf size (record { mem = m; count = 0 })
fresh-Bounded m buf size = record { count = omega arith; outside = λ q o. refl }

put_sign-Bounded :
    (m : Mem) (buf size n : ℕ) (issigned : Bool)
    → 1 ≤ size
    → (size ≡ 1 → is_negative issigned n ≡ false)
    → Bounded m buf size (put_sign m buf n issigned) × ((put_sign m buf n issigned).count < size)
unfolding put_sign
put_sign-Bounded m buf size n issigned h k =
    let fresh = fresh-Bounded m buf size in
    elim (Bool-cases (is_negative issigned n)) [
      | inl minus ↦ rw minus (
        put-Bounded m buf size buf 45 (record { mem = m; count = 0 }) fresh (omega arith)
            (omega arith) (omega arith),
        ground (arith, k),
      )
      | inr plus ↦ rw plus (fresh, omega arith)
    ]

-- However large the number, the base and the padding, snprintnum writes no more than `size`
-- bytes, all of them in the buffer, unless a negative number meets a buffer of one byte.
pub snprintnum-Bounded :
    (m : Mem) (buf size n base : ℕ) (issigned : Bool) (padding : ℕ)
    → (size ≡ 1 → is_negative issigned n ≡ false)
    → Bounded m buf size (snprintnum m buf size n base issigned padding)
unfolding snprintnum
snprintnum-Bounded m buf size n base issigned padding k =
    elim (Bool-cases (ltb 16 base || size == 0)) [
      | inl refused ↦ rw refused (fresh-Bounded m buf size)
      | inr taken ↦
          let un = if is_negative issigned n then (2 ^ 32 - n) % 2 ^ 32 else n in
          let nl = basepow 32 un base in
          let signed = put_sign m buf n issigned in
          let sign = put_sign-Bounded m buf size n issigned (ground arith) k in
          let padded = pad (padding - nl) size (buf + signed.count) signed in
          rw taken (
            put_digits-Bounded m buf size nl base un (buf + padded.count) padded
              (pad-Bounded m buf size (padding - nl) signed sign.0 sign.1) (omega arith)
              (omega arith))
    ]
