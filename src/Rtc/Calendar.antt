-- ===== src/Rtc/Calendar.antt =====
-- The dates that drivers/rtc/rtc.c counts: days by the calendar, month by month and year by year.
use nulix.Common.{
  ℕ, zero, suc, ◌+◌, ◌-◌, ◌*◌, ◌/◌, ◌%◌, ◌^◌, ◌≤◌, ◌<◌, ◌≡◌, refl, ap, ◌==◌, holds_below,
  holds_below-at, ltb, Bool, true, false, ◌&&◌, if◌then◌else◌, arith, List, [], ◌∷◌,
}
use nulix.Rtc.Time.{RtcTime, days_after, is_leap, rtc_get_yday, timestamp}

-- The lengths of the months.
unfoldable pub month_lengths : Bool → List ℕ
month_lengths leap =
    31 ∷ (if leap then 29 else 28) ∷ 31 ∷ 30 ∷ 31 ∷ 30 ∷ 31 ∷ 31 ∷ 30 ∷ 31 ∷ 30 ∷ 31 ∷ []

unfoldable pub sum_first : ℕ → List ℕ → ℕ
sum_first zero xs = 0
sum_first (suc n) [] = 0
sum_first (suc n) (x ∷ xs) = x + sum_first n xs

-- The days of a year before a month's first.
unfoldable pub days_before_month : ℕ → ℕ → ℕ
days_before_month year mon = sum_first (mon - 1) (month_lengths (is_leap year))

unfoldable pub days_in_year : ℕ → ℕ
days_in_year year = sum_first 12 (month_lengths (is_leap year))

-- The days from 1970 to the year `1970 + n`.
unfoldable pub days_since_1970 : ℕ → ℕ
days_since_1970 zero = 0
days_since_1970 (suc n) = days_since_1970 n + days_in_year (1970 + n)

-- The months in the sum of rtc_get_yday.
month_sum : Bool → ℕ → ℕ
month_sum leap mon =
    days_after mon 1 31
    + days_after mon 2 (if leap then 29 else 28)
    + days_after mon 3 31
    + days_after mon 4 30
    + days_after mon 5 31
    + days_after mon 6 30
    + days_after mon 7 31
    + days_after mon 8 31
    + days_after mon 9 30
    + days_after mon 10 31
    + days_after mon 11 30

month_table :
    (leap : Bool)
    → holds_below 13 (λ m.
      sum_first (m - 1) (month_lengths leap) == month_sum leap m && ltb (month_sum leap m) 366)
      ≡ true
unfolding holds_below sum_first month_lengths month_sum
month_table true = refl
month_table false = refl

month_sum_lem :
    (leap : Bool) (m : ℕ)
    → m ≤ 12
    → (sum_first (m - 1) (month_lengths leap) ≡ month_sum leap m) × (month_sum leap m < 366)
month_sum_lem leap m h = ground (arith, holds_below-at 13 _ m (month_table leap) (omega arith))

yday_sum :
    (t : RtcTime)
    → rtc_get_yday t ≡ (t.day + (2 ^ 32 - 1) + month_sum (is_leap t.year) t.mon) % 2 ^ 32
unfolding rtc_get_yday month_sum
yday_sum t = ap (λ (n : ℕ). n % 2 ^ 32) (omega arith)

-- The day of the year is that of the calendar.
pub rtc_get_yday-days_before_month :
    (t : RtcTime)
    → t.mon ≤ 12
    → 1 ≤ t.day
    → t.day ≤ 31
    → rtc_get_yday t ≡ days_before_month t.year t.mon + (t.day - 1)
unfolding days_before_month
rtc_get_yday-days_before_month t hi d1 d31 =
    let months = month_sum_lem (is_leap t.year) t.mon hi in omega (arith, months, yday_sum t)

days_in_year_lem : (y : ℕ) → days_in_year y ≡ (if is_leap y then 366 else 365)
unfolding days_in_year sum_first month_lengths
days_in_year_lem y = ground arith

-- The leap days up to a year, by the sum of rtc_get_timestamp.
days_since_1970_lem :
    (n : ℕ) → days_since_1970 n + (n + 69) / 100 ≡ n * 365 + (n + 1) / 4 + (n + 369) / 400
unfolding days_since_1970
days_since_1970_lem zero = refl
days_since_1970_lem (suc n) = ground (arith, days_since_1970_lem n, days_in_year_lem (1970 + n))

-- The seconds from the start of 1970 to a time of a calendar date.
unfoldable pub seconds_since_1970 : RtcTime → ℕ
seconds_since_1970 t =
    (days_since_1970 (t.year - 1970) + days_before_month t.year t.mon + (t.day - 1)) * 86400
    + t.hour * 3600
    + t.min * 60
    + t.sec

pub timestamp-seconds_since_1970 :
    (t : RtcTime)
    → 1970 ≤ t.year
    → t.yday ≡ days_before_month t.year t.mon + (t.day - 1)
    → timestamp t ≡ seconds_since_1970 t % 2 ^ 32
unfolding timestamp seconds_since_1970
timestamp-seconds_since_1970 t h y = omega (arith, y, days_since_1970_lem (t.year - 1970))
