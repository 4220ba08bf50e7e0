-- ===== src/Rtc/Tests.antt =====
-- Dates read from clocks of drivers/rtc/rtc.c, and instances of the theorems on them.
use mathlib.Core.Option
use nulix.Common.{ℕ, ◌%◌, ◌^◌, ◌≡◌, ◌==◌, ltb, refl, if◌then◌else◌, some, arith}
use nulix.Rtc.Time.{
  RtcTime, rtc_get_yday, from_bcd, hour_from_bcd, rtc_convert_bcdtobinary, rtc_isdiff, to_24_hours,
  add_century, set_yday, interpret, timestamp,
}
use nulix.Rtc.Reading.{
  Cmos, rtc_get_reg, wait_update, read_registers, read_rounds, rtc_read_time, rtc_get_timestamp,
}
use nulix.Rtc.Calendar.{seconds_since_1970}
use nulix.Rtc.Registers.{IsTime, registers, digits, hour_digits}
use nulix.Rtc.Still.{IsStill, rtc_read_time-still, rtc_get_timestamp-seconds_since_1970}

-- 5 March 2024, 15:04:59.
abbrev spring : RtcTime
spring = record { sec = 59; min = 4; hour = 15; day = 5; mon = 3; year = 2024; yday = 0 }

abbrev clock : ℕ → Cmos
clock reg_b i reg =
    let shown = registers reg_b spring in
    if reg == 0x00
    then shown.sec
    else if reg == 0x02
    then shown.min
    else if reg == 0x04
    then shown.hour
    else if reg == 0x07
    then shown.day
    else if reg == 0x08
    then shown.mon
    else if reg == 0x09
    then shown.year
    else if reg == 0x0b
    then reg_b
    else if ltb i 3
    then 0xa6
    else 0x26

-- An update is in progress at the first three reads, and the mode is BCD by 12 hours.
clock_read : rtc_get_timestamp 5 (clock 0x00) 0 ≡ some 1709651099
unfolding rtc_get_timestamp rtc_read_time read_rounds read_registers wait_update rtc_get_reg
    registers digits hour_digits interpret rtc_convert_bcdtobinary from_bcd hour_from_bcd
    to_24_hours add_century set_yday rtc_get_yday rtc_isdiff timestamp
clock_read = refl

-- Noon, by a 12 hour clock, is read as midnight.
noon :
    Option.map
      (λ (t : RtcTime). t.hour)
      (some (interpret 0x04 (record spring { hour = 0x8c; year = 24 })))
    ≡ some 0
unfolding interpret to_24_hours add_century set_yday
noon = refl

spring-IsTime : IsTime spring
spring-IsTime = record {
  sec = omega arith;
  min = omega arith;
  hour = omega arith;
  day = (omega arith, omega arith);
  mon = (omega arith, omega arith);
  year = (omega arith, omega arith);
}

clock-IsStill : IsStill (clock 0x00) 3 0x00 (registers 0x00 spring)
unfolding registers digits hour_digits rtc_get_reg
clock-IsStill = record {
  no_update = λ i h. ground (arith, h);
  sec = λ i h. refl;
  min = λ i h. refl;
  hour = λ i h. refl;
  day = λ i h. refl;
  mon = λ i h. refl;
  year = λ i h. refl;
  mode = λ i h. refl;
}

rtc_get_timestamp-seconds_since_1970_example :
    rtc_get_timestamp 2 (clock 0x00) 3 ≡ some (seconds_since_1970 spring % 2 ^ 32)
rtc_get_timestamp-seconds_since_1970_example =
    rtc_get_timestamp-seconds_since_1970 (clock 0x00) 3 0x00 spring 2 3 clock-IsStill (omega arith)
      (omega arith) spring-IsTime (λ e. ground arith)

rtc_read_time-still_example : (t : RtcTime) × (rtc_read_time 5 (clock 0x00) 0 ≡ some t)
rtc_read_time-still_example =
    rtc_read_time-still (clock 0x00) 3 0x00 (registers 0x00 spring) clock-IsStill 5 0 (omega arith)
