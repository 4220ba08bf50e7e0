-- ===== src/Stdlib/Tests.antt =====
-- Runs of lib/std's conversions, and instances of their theorems.
use nulix.Common.{ℕ, ◌+◌, ◌-◌, ◌^◌, ◌≡◌, ◌≢◌, ◌≤◌, refl, true, List, [], ◌∷◌, length, map, arith}
use nulix.Stdlib.Strtol.{
  drop, skip_spaces, read_base, signed_prefix, unsigned_prefix, scan, signed_value, strto_signed,
  strto_unsigned, strtol, strtoul, strtoll, strtoull, digit_value, atoi,
}
use nulix.Stdlib.Numeral.{numeral, horner}
use nulix.Stdlib.Clamp.{
  clamp_signed, clamp_unsigned, numeral_signed, numeral_end, strto_signed-clamp_signed,
  strto_unsigned-clamp_unsigned,
}
use nulix.Stdlib.Written.{minus, written, sign_chars, is_minus, all_digits, strto_signed-written}

-- "  -0x1Fz"
abbrev minus_31 : List ℕ
minus_31 = 32 ∷ 32 ∷ 45 ∷ 48 ∷ 120 ∷ 49 ∷ 70 ∷ 122 ∷ []

-- "4294967296", one past the greatest word.
abbrev past_word : List ℕ
past_word = 52 ∷ 50 ∷ 57 ∷ 52 ∷ 57 ∷ 54 ∷ 55 ∷ 50 ∷ 57 ∷ 54 ∷ []

minus_31_read : strtol minus_31 0 ≡ record { value = 2 ^ 32 - 31; end = 7 }
unfolding strto_signed signed_prefix skip_spaces read_base scan drop signed_value
minus_31_read = refl

past_word_read : strtol past_word 10 ≡ record { value = 2 ^ 31 - 1; end = 10 }
unfolding strto_signed signed_prefix skip_spaces read_base scan drop signed_value
past_word_read = refl

past_word-atoi : atoi past_word ≡ 2 ^ 31 - 1
unfolding strto_signed signed_prefix skip_spaces read_base scan drop signed_value
past_word-atoi = refl

past_word_unsigned : strtoul past_word 10 ≡ record { value = 2 ^ 32 - 1; end = 10 }
unfolding strto_unsigned unsigned_prefix skip_spaces read_base scan drop
past_word_unsigned = refl

past_word_long : strtoull past_word 10 ≡ record { value = 2 ^ 32; end = 10 }
unfolding strto_unsigned unsigned_prefix skip_spaces read_base scan drop
past_word_long = refl

minus_31_based : 1 ≤ (signed_prefix minus_31 0).base
unfolding signed_prefix skip_spaces read_base
minus_31_based = omega arith

past_word_based : 1 ≤ (unsigned_prefix past_word 10).base
unfolding unsigned_prefix skip_spaces read_base
past_word_based = omega arith

strto_signed-clamp_signed_example :
    strtol minus_31 0 ≡ numeral_signed 32 minus_31 (signed_prefix minus_31 0)
strto_signed-clamp_signed_example =
    strto_signed-clamp_signed 32 0 minus_31 (omega arith) minus_31_based

strto_unsigned-clamp_unsigned_example : strtoul past_word 10 ≡ (
    let p = unsigned_prefix past_word 10 in
    let ds = numeral p.base (drop p.start past_word) in
    record { value = clamp_unsigned 32 (horner p.base 0 ds); end = numeral_end p.start ds })
strto_unsigned-clamp_unsigned_example =
    strto_unsigned-clamp_unsigned 32 10 past_word past_word_based

abbrev forty_two : List ℕ
forty_two = 52 ∷ 50 ∷ []

forty_two-digits : all_digits 10 forty_two ≡ true
unfolding all_digits
forty_two-digits = refl

ten_not_16 : ◌≢◌ {A = ℕ} 10 16
ten_not_16 e = omega arith

strto_signed-written_example : strtoll (written 1 minus forty_two (32 ∷ [])) 10 ≡ record {
  value = clamp_signed 64 (is_minus minus) (horner 10 0 (map digit_value forty_two));
  end = 1 + length (sign_chars minus) + length forty_two;
}
strto_signed-written_example =
    strto_signed-written 64 10 1 minus forty_two (32 ∷ []) (omega arith) (omega arith) ten_not_16
      forty_two-digits (omega arith) refl
