-- ===== src/Rtc/Time.antt =====
-- The times of drivers/rtc/rtc.c and its arithmetic on them. The registers are bytes, so no field is
-- negative, but for `yday`, which is a word.
use nulix.Common.{
  ℕ, ◌+◌, ◌-◌, ◌*◌, ◌/◌, ◌%◌, ◌^◌, ◌==◌, ltb, Bool, ◌&&◌, ◌||◌, not, if◌then◌else◌, bit_and, bit_or,
}

pub record RtcTime : Type 0 where
  pub sec : ℕ
  pub min : ℕ
  pub hour : ℕ
  pub day : ℕ
  pub mon : ℕ
  pub year : ℕ
  pub yday : ℕ

-- `if (t->mon > m) yday += days`
abbrev pub days_after : ℕ → ℕ → ℕ → ℕ
days_after mon m days = if ltb m mon then days else 0

abbrev pub is_leap : ℕ → Bool
is_leap year = year % 4 == 0 && (year % 400 == 0 || not (year % 100 == 0))

unfoldable pub rtc_get_yday : RtcTime → ℕ
rtc_get_yday t =
    (t.day
      + (2 ^ 32 - 1)
      + days_after t.mon 1 31
      + days_after t.mon 2 (if is_leap t.year then 29 else 28)
      + days_after t.mon 3 31
      + days_after t.mon 4 30
      + days_after t.mon 5 31
      + days_after t.mon 6 30
      + days_after t.mon 7 31
      + days_after t.mon 8 31
      + days_after t.mon 9 30
      + days_after t.mon 10 31
      + days_after t.mon 11 30)
    % 2 ^ 32

unfoldable pub from_bcd : ℕ → ℕ
from_bcd x = bit_and x 0x0f + x / 16 * 10

-- The high bit of the hour is the afternoon of a 12 hour clock.
unfoldable pub hour_from_bcd : ℕ → ℕ
hour_from_bcd x = bit_or (bit_and x 0x0f + bit_and x 0x70 / 16 * 10) (bit_and x 0x80)

unfoldable pub rtc_convert_bcdtobinary : RtcTime → RtcTime
rtc_convert_bcdtobinary tm = record tm {
  sec = from_bcd tm.sec;
  min = from_bcd tm.min;
  hour = hour_from_bcd tm.hour;
  day = from_bcd tm.day;
  mon = from_bcd tm.mon;
  year = from_bcd tm.year;
}

unfoldable pub rtc_isdiff : RtcTime → RtcTime → Bool
rtc_isdiff a b =
    not (a.sec == b.sec)
    || not (a.min == b.min)
    || not (a.hour == b.hour)
    || not (a.day == b.day)
    || not (a.mon == b.mon)
    || not (a.year == b.year)

-- A 12 hour clock's afternoon.
unfoldable pub to_24_hours : ℕ → RtcTime → RtcTime
to_24_hours reg_b tm =
    if bit_and reg_b 0x02 == 0 && not (bit_and tm.hour 0x80 == 0)
    then record tm { hour = (bit_and tm.hour 0x7f + 12) % 24 }
    else tm

abbrev pub curyear : ℕ
curyear = 2022

-- The century of `curyear`, or the next one.
unfoldable pub add_century : RtcTime → RtcTime
add_century tm =
    let year = tm.year + curyear / 100 * 100 in
    record tm { year = if ltb year curyear then year + 100 else year }

unfoldable pub set_yday : RtcTime → RtcTime
set_yday tm = record tm { yday = rtc_get_yday tm }

-- What rtc_read_time does to the registers that it has read.
unfoldable pub interpret : ℕ → RtcTime → RtcTime
interpret reg_b tm = set_yday (
    add_century
      (to_24_hours reg_b (if bit_and reg_b 0x04 == 0 then rtc_convert_bcdtobinary tm else tm)))

-- The sum of rtc_get_timestamp, in words. `add_century` leaves no year before 2022, so none of the
-- differences of years is negative. `(year - 70) * 31536000` is a product of ints, undefined in C from
-- 2039 on; it wraps here, as the instruction for it does.
unfoldable pub timestamp : RtcTime → ℕ
timestamp t =
    let year = t.year - 1900 in
    (t.sec
      + t.min * 60
      + t.hour * 3600
      + t.yday * 86400
      + (year - 70) * 31536000
      + (year - 69) / 4 * 86400
      + (2 ^ 32 - (year - 1) / 100 * 86400 % 2 ^ 32)
      + (year + 299) / 400 * 86400)
    % 2 ^ 32
