-- ===== src/Stdlib/Clamp.antt =====
-- The values of lib/std's conversions: the number that the digits write, kept within the type.
use nulix.Common.{
  ℕ, ◌+◌, ◌-◌, ◌*◌, ◌%◌, ◌^◌, ◌≤◌, ◌<◌, ◌≡◌, refl, Bool, if◌then◌else◌, List, [], ◌∷◌, length,
  arith, dec_le, suc, zero,
}
use Prim.Native.Nat.{min}
use native.Mathlib.Nat.{pow-suc, one-le-pow, mod-eq_of_lt}
use nulix.Stdlib.Strtol.{
  nothing, is_overflowed, is_nothing, Scan, Prefix, signed_prefix, unsigned_prefix, drop, Converted,
  signed_limit, signed_value, strto_signed, strto_unsigned,
}
use nulix.Stdlib.Numeral.{numeral, horner, Scanned, scan-Scanned}

-- A number within the signed type, as a word of `w` bits in two's complement.
unfoldable pub clamp_signed : ℕ → Bool → ℕ → ℕ
clamp_signed w neg m =
    if neg then (2 ^ w - min m (2 ^ (w - 1))) % 2 ^ w else min m (2 ^ (w - 1) - 1)

unfoldable pub clamp_unsigned : ℕ → ℕ → ℕ
clamp_unsigned w m = min m (2 ^ w - 1)

half : (w : ℕ) → 1 ≤ w → 2 ^ w ≡ 2 ^ (w - 1) * 2
half zero h = absurd (omega arith)
half (suc v) h = let back : suc v - 1 ≡ v = omega arith in rw back (omega (arith, pow-suc 2 v))

-- The offset of the end: that of the digits' end, and 0 if there are none.
abbrev pub numeral_end : ℕ → List ℕ → ℕ
numeral_end start [] = 0
numeral_end start (d ∷ ds) = start + length (d ∷ ds)

signed_value_lem :
    (w base : ℕ) (neg : Bool) (ds : List ℕ) (r : Scan)
    → 1 ≤ w
    → Scanned base (signed_limit w neg) 0 nothing ds r
    → signed_value w neg r ≡ clamp_signed w neg (horner base 0 ds)
unfolding signed_value clamp_signed horner
signed_value_lem w base neg [] r h s =
    ground (arith, s.idle refl, s.total (omega arith), half w h, one-le-pow (w - 1) 2)
signed_value_lem w base neg (d ∷ ds) r h s =
    elim (dec_le (horner base 0 (d ∷ ds)) (signed_limit w neg)) [
      | yes fit ↦
          ground (arith, s.fits (omega arith) fit, s.total fit, half w h, one-le-pow (w - 1) 2)
      | no past ↦
          let positive = one-le-pow (w - 1) 2 in
          let most : 2 ^ (w - 1) % 2 ^ w ≡ 2 ^ (w - 1) = mod-eq_of_lt (omega (arith, half w h)) in
          ground (arith, s.over (omega arith), half w h)
    ]

unsigned_value_lem :
    (w base : ℕ) (ds : List ℕ) (r : Scan)
    → Scanned base (2 ^ w - 1) 0 nothing ds r
    → (if is_overflowed r.any then 2 ^ w - 1 else r.acc) ≡ min (horner base 0 ds) (2 ^ w - 1)
unfolding horner
unsigned_value_lem w base [] r s = ground (arith, s.idle refl, s.total (omega arith))
unsigned_value_lem w base (d ∷ ds) r s = elim (dec_le (horner base 0 (d ∷ ds)) (2 ^ w - 1)) [
  | yes fit ↦ ground (arith, s.fits (omega arith) fit, s.total fit)
  | no past ↦ ground (arith, s.over (omega arith))
]

end_lem :
    (base limit start : ℕ) (ds : List ℕ) (r : Scan)
    → Scanned base limit 0 nothing ds r
    → (if is_nothing r.any then 0 else start + r.used) ≡ numeral_end start ds
end_lem base limit start [] r s = ground (arith, s.idle refl)
end_lem base limit start (d ∷ ds) r s = elim (dec_le (horner base 0 (d ∷ ds)) limit) [
  | yes fit ↦ ground (arith, s.fits (omega arith) fit, s.used)
  | no past ↦ ground (arith, s.over (omega arith), s.used)
]

abbrev pub numeral_signed : ℕ → List ℕ → Prefix → Converted
numeral_signed w s p =
    let ds = numeral p.base (drop p.start s) in
    record { value = clamp_signed w p.neg (horner p.base 0 ds); end = numeral_end p.start ds }

-- Whatever the string, a signed conversion gives the number of the longest run of digits after
-- the prefix, kept within the type, and the end of that run, or 0 if there is none. The type has
-- at least one bit, and the base that the prefix settles is not 0.
pub strto_signed-clamp_signed :
    (w base : ℕ) (s : List ℕ)
    → 1 ≤ w
    → 1 ≤ (signed_prefix s base).base
    → strto_signed w s base ≡ numeral_signed w s (signed_prefix s base)
unfolding strto_signed
strto_signed-clamp_signed w base s h b =
    let p = signed_prefix s base in
    let ds = numeral p.base (drop p.start s) in
    let limit_lt : signed_limit w p.neg < 2 ^ w = ground (arith, half w h, one-le-pow (w - 1) 2) in
    let scanned =
      scan-Scanned w p.base (signed_limit w p.neg) b limit_lt (drop p.start s) 0 nothing
        (omega arith) refl in
    rw
      (
        signed_value_lem w p.base p.neg ds _ h scanned,
        end_lem p.base (signed_limit w p.neg) p.start ds _ scanned,
      )
      refl

-- Whatever the string, an unsigned conversion gives the number of the longest run of digits after
-- the prefix, or the greatest word if that is smaller, and the end of that run, or 0 if there is
-- none. The base that the prefix settles is not 0.
pub strto_unsigned-clamp_unsigned :
    (w base : ℕ) (s : List ℕ)
    → 1 ≤ (unsigned_prefix s base).base
    → strto_unsigned w s base ≡ (
        let p = unsigned_prefix s base in
        let ds = numeral p.base (drop p.start s) in
        record { value = clamp_unsigned w (horner p.base 0 ds); end = numeral_end p.start ds })
unfolding strto_unsigned clamp_unsigned
strto_unsigned-clamp_unsigned w base s b =
    let p = unsigned_prefix s base in
    let ds = numeral p.base (drop p.start s) in
    let limit_lt : 2 ^ w - 1 < 2 ^ w = omega (arith, one-le-pow w 2) in
    let scanned =
      scan-Scanned w p.base (2 ^ w - 1) b limit_lt (drop p.start s) 0 nothing (omega arith) refl in
    rw (unsigned_value_lem w p.base ds _ scanned, end_lem p.base (2 ^ w - 1) p.start ds _ scanned)
      refl
