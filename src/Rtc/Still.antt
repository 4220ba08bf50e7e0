-- ===== src/Rtc/Still.antt =====
-- Reading a clock of drivers/rtc/rtc.c that stands still from some read on.
use nulix.Common.{
  ℕ, zero, suc, ◌+◌, ◌%◌, ◌^◌, ◌≤◌, ◌<◌, ◌≡◌, ◌≢◌, ap, refl, ◌==◌, false, if◌then◌else◌, bit_and,
  Option, none, some, arith, dec_le, Bool-cases, inl, inr,
}
use nulix.Rtc.Time.{RtcTime, rtc_isdiff, interpret, rtc_get_yday}
use nulix.Rtc.Reading.{
  Cmos, rtc_get_reg, wait_update, read_registers, no_time, Read, on_update, read_rounds,
  rtc_read_time, rtc_get_timestamp,
}
use nulix.Rtc.Registers.{IsTime, has_24_hours, registers, interpret-registers}
use nulix.Rtc.Calendar.{
  seconds_since_1970, rtc_get_yday-days_before_month, timestamp-seconds_since_1970,
}

-- From the read `since` on, no update is in progress and the registers show `shown`.
pub record IsStill (cmos : Cmos) (since : ℕ) (reg_b : ℕ) (shown : RtcTime) : Type 0 where
  pub no_update : (i : ℕ) → since ≤ i → bit_and (rtc_get_reg cmos i 0x0a) 0x80 ≡ 0
  pub sec : (i : ℕ) → since ≤ i → rtc_get_reg cmos i 0x00 ≡ shown.sec
  pub min : (i : ℕ) → since ≤ i → rtc_get_reg cmos i 0x02 ≡ shown.min
  pub hour : (i : ℕ) → since ≤ i → rtc_get_reg cmos i 0x04 ≡ shown.hour
  pub day : (i : ℕ) → since ≤ i → rtc_get_reg cmos i 0x07 ≡ shown.day
  pub mon : (i : ℕ) → since ≤ i → rtc_get_reg cmos i 0x08 ≡ shown.mon
  pub year : (i : ℕ) → since ≤ i → rtc_get_reg cmos i 0x09 ≡ shown.year
  pub mode : (i : ℕ) → since ≤ i → rtc_get_reg cmos i 0x0b ≡ reg_b

-- A wait that ends has read at least once.
Later : ℕ → Option ℕ → Type 0
Later now none = Unit
Later now (some after) = now < after

module _ (cmos : Cmos) (since reg_b : ℕ) (shown : RtcTime)
    (still : IsStill cmos since reg_b shown) where
  wait_over : (fuel now : ℕ) → since ≤ now → wait_update (suc fuel) cmos now ≡ some (suc now)
  unfolding wait_update
  wait_over fuel now h = ground (arith, still.no_update now h)

  read_still :
      (now : ℕ) (tm : RtcTime)
      → since ≤ now
      → read_registers cmos now tm ≡ record shown { yday = tm.yday }
  unfolding read_registers
  read_still now tm h = ground (
    arith,
    still.sec now,
    still.min (now + 1),
    still.hour (now + 2),
    still.day (now + 3),
    still.mon (now + 4),
    still.year (now + 5),
  )

  round_still :
      (fuel wait now : ℕ) (ltm : RtcTime)
      → since ≤ now
      → (let t = record shown { yday = ltm.yday } in
          read_rounds (suc fuel) (suc wait) cmos ltm now ≡ (
            if rtc_isdiff t ltm
            then read_rounds fuel (suc wait) cmos t (now + 7)
            else some (record { time = t; now = now + 7 })))
  unfolding read_rounds
  round_still fuel wait now ltm h = ground (arith, wait_over wait now h, read_still (suc now) ltm)

  isdiff_same : (t : RtcTime) → rtc_isdiff t t ≡ false
  unfolding rtc_isdiff
  isdiff_same t = ground arith

  -- Two rounds are enough once the clock stands still.
  Settled : Option Read → ℕ → Type 0
  Settled r yday =
      (n : ℕ) × (r ≡ some (record { time = record shown { yday = yday }; now = n })) × (since ≤ n)

  two_rounds :
      (fuel wait now : ℕ) (ltm : RtcTime)
      → since ≤ now
      → Settled (read_rounds (suc (suc fuel)) (suc wait) cmos ltm now) ltm.yday
  unfolding Settled
  two_rounds fuel wait now ltm h =
      let t : RtcTime = record shown { yday = ltm.yday } in
      let first = round_still (suc fuel) wait now ltm h in
      let second = round_still fuel wait (now + 7) t (omega arith) in
      elim (Bool-cases (rtc_isdiff t ltm)) [
        | inl diff ↦ (now + 14, ground (arith, first, second, isdiff_same t), omega arith)
        | inr same ↦ (now + 7, ground (arith, first), omega arith)
      ]

  wait_ends :
      (fuel now : ℕ)
      → since < fuel + now
      → 1 ≤ fuel
      → (after : ℕ) × (wait_update fuel cmos now ≡ some after) × (now < after)
  unfolding wait_update
  wait_ends zero now h k = absurd (omega (arith, k))
  wait_ends (suc fuel) now h k = elim (Bool-cases (bit_and (rtc_get_reg cmos now 0x0a) 0x80 == 0)) [
    | inl clear ↦ (suc now, ground arith, omega arith)
    | inr busy ↦ elim (dec_le since now) [
      | yes over ↦ absurd (ground (arith, still.no_update now over))
      | no early ↦
          let (after, e, lt) = wait_ends fuel (suc now) (omega arith) (omega arith) in
          (after, ground (arith, e), omega (arith, lt))
    ]
  ]

  round_lem :
      (fuel wait now after : ℕ) (ltm : RtcTime)
      → wait_update wait cmos now ≡ some after
      → (let tm = read_registers cmos after ltm in
          read_rounds (suc fuel) wait cmos ltm now ≡ (
            if rtc_isdiff tm ltm
            then read_rounds fuel wait cmos tm (after + 6)
            else some (record { time = tm; now = after + 6 })))
  unfolding read_rounds
  round_lem fuel wait now after ltm e =
      ap (on_update (λ r. read_rounds fuel wait cmos r.time r.now) cmos ltm) e

  -- Whatever the clock shows before, the rounds end.
  rounds_end :
      (fuel wait now : ℕ) (ltm : RtcTime)
      → 2 ≤ fuel
      → since + 2 ≤ fuel + now
      → since < wait
      → (r : Read) × (read_rounds fuel wait cmos ltm now ≡ some r)
  unfolding Settled
  rounds_end zero wait now ltm h k w = absurd (omega (arith, h))
  rounds_end (suc zero) wait now ltm h k w = absurd (omega (arith, h))
  rounds_end (suc (suc fuel)) zero now ltm h k w = absurd (omega (arith, w))
  rounds_end (suc (suc fuel)) (suc wait) now ltm h k w = elim (dec_le since now) [
    | yes over ↦
        let (n, e, _) = two_rounds fuel wait now ltm over in
        (record { time = record shown { yday = ltm.yday }; now = n }, e)
    | no early ↦
        let (after, e, lt) = wait_ends (suc wait) now (omega arith) (omega arith) in
        let tm = read_registers cmos after ltm in
        let round = round_lem (suc fuel) (suc wait) now after ltm e in
        elim (Bool-cases (rtc_isdiff tm ltm)) [
          | inl diff ↦
              let (r, q) =
                rounds_end (suc fuel) (suc wait) (after + 6) tm (omega arith) (omega (arith, lt))
                  w in
              (r, ground (arith, round, diff, q))
          | inr same ↦ (record { time = tm; now = after + 6 }, ground (arith, round, same))
        ]
  ]

  -- However the clock updates before, a rtc_read_time that waits until after its registers stand
  -- still, with no update in progress, returns: two more rounds than the reads until then are
  -- enough.
  pub rtc_read_time-still :
      (fuel now : ℕ) → since + 2 ≤ fuel → (t : RtcTime) × (rtc_read_time fuel cmos now ≡ some t)
  unfolding rtc_read_time
  rtc_read_time-still fuel now h =
      let (r, e) = rounds_end fuel fuel now no_time (omega arith) (omega arith) (omega arith) in
      (interpret (rtc_get_reg cmos r.now 0x0b) r.time, ground (arith, e))

  read_time_shown :
      (fuel now : ℕ)
      → since ≤ now
      → 2 ≤ fuel
      → shown.yday ≡ 0
      → rtc_read_time fuel cmos now ≡ some (interpret reg_b shown)
  unfolding rtc_read_time Settled
  read_time_shown zero now h k y = absurd (omega (arith, k))
  read_time_shown (suc zero) now h k y = absurd (omega (arith, k))
  read_time_shown (suc (suc fuel)) now h k y =
      let (n, e, after) = two_rounds fuel (suc fuel) now no_time h in
      ground (arith, e, still.mode n after, y)

-- Called once the registers stand still, showing a time between 2022 and 2121 in BCD or binary
-- and by 24 hours or 12, though not 0 or 12 o'clock by 12 hours, rtc_get_timestamp returns the
-- seconds from the start of 1970 to that time, in 32 bits, counted day by day over the calendar.
pub rtc_get_timestamp-seconds_since_1970 :
    (cmos : Cmos) (since reg_b : ℕ) (t : RtcTime) (fuel now : ℕ)
    → IsStill cmos since reg_b (registers reg_b t)
    → since ≤ now
    → 2 ≤ fuel
    → IsTime t
    → (has_24_hours reg_b ≡ false → t.hour % 12 ≢ 0)
    → rtc_get_timestamp fuel cmos now ≡ some (seconds_since_1970 t % 2 ^ 32)
unfolding rtc_get_timestamp registers seconds_since_1970
rtc_get_timestamp-seconds_since_1970 cmos since reg_b t fuel now still h k v long =
    let read = read_time_shown cmos since reg_b (registers reg_b t) still fuel now h k refl in
    let yday =
      rtc_get_yday-days_before_month t (omega (arith, v.mon)) (omega (arith, v.day))
        (omega (arith, v.day)) in
    let dated : RtcTime = record t { yday = rtc_get_yday t } in
    ground (
      arith,
      read,
      interpret-registers reg_b t v long,
      timestamp-seconds_since_1970 dated (omega (arith, v.year)) yday,
    )
