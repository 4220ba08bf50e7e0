-- ===== src/Rtc/Registers.antt =====
-- How the clock shows a time in the registers that drivers/rtc/rtc.c reads: binary or BCD, by 24 hours
-- or by 12, and the year without its century.
use nulix.Common.{
  ℕ, ◌+◌, ◌*◌, ◌/◌, ◌%◌, ◌≤◌, ◌<◌, ◌≡◌, ◌≢◌, refl, ◌==◌, ==_iff, holds_below, holds_below-at, leb,
  Bool, true, false, ◌&&◌, ◌||◌, not, ap, ◌∙◌, if◌then◌else◌, bit_and, arith,
}
use nulix.Rtc.Time.{
  RtcTime, from_bcd, hour_from_bcd, rtc_convert_bcdtobinary, to_24_hours, add_century, set_yday,
  rtc_get_yday, interpret,
}

pub record IsTime (t : RtcTime) : Type 0 where
  pub sec : t.sec < 60
  pub min : t.min < 60
  pub hour : t.hour < 24
  pub day : (1 ≤ t.day) × (t.day ≤ 31)
  pub mon : (1 ≤ t.mon) × (t.mon ≤ 12)
  pub year : (2022 ≤ t.year) × (t.year < 2122)

-- Bits 2 and 1 of register B.
abbrev pub is_binary : ℕ → Bool
is_binary reg_b = not (bit_and reg_b 0x04 == 0)

abbrev pub has_24_hours : ℕ → Bool
has_24_hours reg_b = not (bit_and reg_b 0x02 == 0)

unfoldable pub digits : Bool → ℕ → ℕ
digits binary n = if binary then n else n / 10 * 16 + n % 10

-- The hour, with the high bit for the afternoon of a 12 hour clock.
unfoldable pub hour_digits : Bool → Bool → ℕ → ℕ
hour_digits binary long h =
    if long
    then digits binary h
    else digits binary (if h % 12 == 0 then 12 else h % 12) + (if leb 12 h then 0x80 else 0)

unfoldable pub registers : ℕ → RtcTime → RtcTime
registers reg_b t =
    let show = digits (is_binary reg_b) in
    record {
      sec = show t.sec;
      min = show t.min;
      hour = hour_digits (is_binary reg_b) (has_24_hours reg_b) t.hour;
      day = show t.day;
      mon = show t.mon;
      year = show (t.year % 100);
      yday = 0;
    }

bcd_table : holds_below 100 (λ n. from_bcd (digits false n) == n) ≡ true
unfolding holds_below from_bcd digits
bcd_table = refl

pub from_bcd-digits : (n : ℕ) → n < 100 → from_bcd (digits false n) ≡ n
from_bcd-digits n h = (==_iff _ _).0 (holds_below-at 100 _ n bcd_table h)

-- The hour that the code makes of the register.
read_hour : Bool → Bool → ℕ → ℕ
read_hour binary long x =
    let h = if binary then x else hour_from_bcd x in
    if not long && not (bit_and h 0x80 == 0) then (bit_and h 0x7f + 12) % 24 else h

hour_table :
    (binary long : Bool)
    → holds_below 24
        (λ h. (not long && h % 12 == 0) || read_hour binary long (hour_digits binary long h) == h)
      ≡ true
unfolding holds_below read_hour hour_digits digits hour_from_bcd
hour_table true true = refl
hour_table true false = refl
hour_table false true = refl
hour_table false false = refl

read_hour-hour_digits :
    (binary long : Bool) (h : ℕ)
    → h < 24
    → (long ≡ false → h % 12 ≢ 0)
    → read_hour binary long (hour_digits binary long h) ≡ h
read_hour-hour_digits binary long h lt k =
    ground (arith, holds_below-at 24 _ h (hour_table binary long) lt, k)

-- A field that is no hour.
read_digits :
    (binary : Bool) (n : ℕ)
    → n < 100
    → (if binary then digits binary n else from_bcd (digits binary n)) ≡ n
unfolding digits
read_digits true n h = refl
read_digits false n h = from_bcd-digits n h

-- The time of the registers before the century is added.
without_century : RtcTime → RtcTime
without_century t = record t { year = t.year % 100; yday = 0 }

converted :
    (reg_b : ℕ) (t : RtcTime)
    → IsTime t
    → (has_24_hours reg_b ≡ false → t.hour % 12 ≢ 0)
    → to_24_hours reg_b (
        if bit_and reg_b 0x04 == 0
        then rtc_convert_bcdtobinary (registers reg_b t)
        else registers reg_b t)
      ≡ without_century t
unfolding to_24_hours rtc_convert_bcdtobinary registers without_century read_hour
converted reg_b t v k =
    let binary = is_binary reg_b in
    let hour = read_hour-hour_digits binary (has_24_hours reg_b) t.hour v.hour k in
    ground (
      arith,
      read_digits binary t.sec (omega (arith, v.sec)),
      read_digits binary t.min (omega (arith, v.min)),
      read_digits binary t.day (omega (arith, v.day)),
      read_digits binary t.mon (omega (arith, v.mon)),
      read_digits binary (t.year % 100) (omega arith),
    )

with_century : (t : RtcTime) → IsTime t → add_century (without_century t) ≡ record t { yday = 0 }
unfolding add_century without_century
with_century t v = ground (arith, v.year)

with_yday : (t : RtcTime) → set_yday (record t { yday = 0 }) ≡ record t { yday = rtc_get_yday t }
unfolding set_yday rtc_get_yday
with_yday t = refl

-- Whatever the mode in register B, the registers that show a time of the years 2022 to 2121 are
-- read back as that time with the day of its year, but for the hours 0 and 12 of a 12 hour clock.
pub interpret-registers :
    (reg_b : ℕ) (t : RtcTime)
    → IsTime t
    → (has_24_hours reg_b ≡ false → t.hour % 12 ≢ 0)
    → interpret reg_b (registers reg_b t) ≡ record t { yday = rtc_get_yday t }
unfolding interpret
interpret-registers reg_b t v k =
    ap (λ (x : RtcTime). set_yday (add_century x)) (converted reg_b t v k)
    ∙ ap set_yday (with_century t v)
    ∙ with_yday t
