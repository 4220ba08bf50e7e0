-- ===== src/Rtc/Reading.antt =====
-- rtc_read_time and rtc_get_timestamp of drivers/rtc/rtc.c. The clock is a function of the number of
-- reads made so far and of the register that is read. Both loops run on fuel, and are none without it.
use nulix.Common.{ℕ, zero, suc, ◌+◌, ◌%◌, ◌^◌, ◌==◌, if◌then◌else◌, bit_and, Option, none, some}
use mathlib.Core.Option
use nulix.Rtc.Time.{RtcTime, rtc_isdiff, interpret, timestamp}

-- The registers, by the number of reads before.
abbrev pub Cmos : Type 0
Cmos = ℕ → ℕ → ℕ

unfoldable pub rtc_get_reg : Cmos → ℕ → ℕ → ℕ
rtc_get_reg cmos now reg = cmos now reg % 2 ^ 8

-- `while (rtc_get_reg(cmos_reg_A) & 0x80);`, with the number of reads after it.
unfoldable pub wait_update : ℕ → Cmos → ℕ → Option ℕ
wait_update zero cmos now = none
wait_update (suc fuel) cmos now =
    let rest = wait_update fuel cmos (suc now) in
    if bit_and (rtc_get_reg cmos now 0x0a) 0x80 == 0 then some (suc now) else rest

-- The six reads of a round.
unfoldable pub read_registers : Cmos → ℕ → RtcTime → RtcTime
read_registers cmos now tm = record tm {
  sec = rtc_get_reg cmos now 0x00;
  min = rtc_get_reg cmos (now + 1) 0x02;
  hour = rtc_get_reg cmos (now + 2) 0x04;
  day = rtc_get_reg cmos (now + 3) 0x07;
  mon = rtc_get_reg cmos (now + 4) 0x08;
  year = rtc_get_reg cmos (now + 5) 0x09;
}

abbrev pub no_time : RtcTime
no_time = record { sec = 0; min = 0; hour = 0; day = 0; mon = 0; year = 0; yday = 0 }

-- What is read, and the reads made by then.
pub record Read : Type 0 where
  pub time : RtcTime
  pub now : ℕ

abbrev pub on_update : (Read → Option Read) → Cmos → RtcTime → Option ℕ → Option Read
on_update again cmos ltm none = none
on_update again cmos ltm (some now) =
    let tm = read_registers cmos now ltm in
    let r : Read = record { time = tm; now = now + 6 } in
    if rtc_isdiff tm ltm then again r else some r

-- The rounds of rtc_read_time, from the time that the round before has read.
unfoldable pub read_rounds : ℕ → ℕ → Cmos → RtcTime → ℕ → Option Read
read_rounds zero wait cmos ltm now = none
read_rounds (suc fuel) wait cmos ltm now =
    on_update (λ r. read_rounds fuel wait cmos r.time r.now) cmos ltm (wait_update wait cmos now)

abbrev pub with_reg_b : Cmos → Option Read → Option RtcTime
with_reg_b cmos none = none
with_reg_b cmos (some r) = some (interpret (rtc_get_reg cmos r.now 0x0b) r.time)

unfoldable pub rtc_read_time : ℕ → Cmos → ℕ → Option RtcTime
rtc_read_time fuel cmos now = with_reg_b cmos (read_rounds fuel fuel cmos no_time now)

unfoldable pub rtc_get_timestamp : ℕ → Cmos → ℕ → Option ℕ
rtc_get_timestamp fuel cmos now = Option.map timestamp (rtc_read_time fuel cmos now)
