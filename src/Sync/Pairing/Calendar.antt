-- ===== src/Sync/Pairing/Calendar.antt =====
-- The time stamp of a pairing: `civil_from_days` and `format_unix_ts` of
-- crates/bypass-cli/src/sync/pairing.rs. The days are those of a number of seconds, so they are not
-- negative, and the test for that is left out with its other branch.
use bypass.Prelude.{
  ℕ, ◌+◌, ◌-◌, ◌*◌, ◌/◌, ◌%◌, ◌≤◌, ◌<◌, ◌≡◌, refl, ◌∙◌, arith, ltb, leb, ◌==◌, if◌then◌else◌, Bool,
  ◌&&◌, ◌||◌, not, true, false, Bool-cases, inl, inr,
}

-- The day in its era of 400 years, the year of the era, and the day of the year from March.
abbrev pub year_of_era : ℕ → ℕ
year_of_era doe = (doe - doe / 1460 + doe / 36524 - doe / 146096) / 365

abbrev pub day_of_year : ℕ → ℕ → ℕ
day_of_year doe yoe = doe - (365 * yoe + yoe / 4 - yoe / 100)

abbrev pub month_of : ℕ → ℕ
month_of mp = if ltb mp 10 then mp + 3 else mp - 9

pub record Civil : Type 0 where
  pub year : ℕ
  pub month : ℕ
  pub day : ℕ

unfoldable pub civil_from_days : ℕ → Civil
civil_from_days days =
    let z = days + 719468 in
    let era = z / 146097 in
    let doe = z - era * 146097 in
    let yoe = year_of_era doe in
    let doy = day_of_year doe yoe in
    let mp = (5 * doy + 2) / 153 in
    let m = month_of mp in
    record {
      year = yoe + era * 400 + (if leb m 2 then 1 else 0);
      month = m;
      day = doy - (153 * mp + 2) / 5 + 1;
    }

-- The Gregorian calendar: leap years, the length of the months, and the days before a date.
abbrev pub is_leap : ℕ → Bool
is_leap y = y % 4 == 0 && (not (y % 100 == 0) || y % 400 == 0)

abbrev pub days_in_month : ℕ → ℕ → ℕ
days_in_month y m =
    if m == 2
    then (if is_leap y then 29 else 28)
    else if m == 4 || m == 6 || m == 9 || m == 11
    then 30
    else 31

abbrev pub days_before_month : ℕ → ℕ → ℕ
days_before_month y m =
    if leb m 2 then (m - 1) * 31 else (if is_leap y then 60 else 59) + (153 * (m - 3) + 2) / 5

abbrev pub days_before_year : ℕ → ℕ
days_before_year y = (y - 1) * 365 + (y - 1) / 4 - (y - 1) / 100 + (y - 1) / 400

year_of_era_bounds : (doe : ℕ) → doe < 146097 → year_of_era doe ≤ 399
year_of_era_bounds doe h = omega arith

-- The year of the era starts before the day.
year_start :
    (doe yoe : ℕ) → doe < 146097 → yoe ≡ year_of_era doe → 365 * yoe + yoe / 4 - yoe / 100 ≤ doe
year_start doe yoe h e = omega arith

day_of_year_bounds :
    (doe yoe : ℕ) → doe < 146097 → yoe ≡ year_of_era doe → day_of_year doe yoe ≤ 365
day_of_year_bounds doe yoe h e = omega arith

-- The last day of a year from March is there in leap years only.
leap_day :
    (doe yoe : ℕ)
    → doe < 146097
    → yoe ≡ year_of_era doe
    → day_of_year doe yoe ≡ 365
    → is_leap (yoe + 1) ≡ true
leap_day doe yoe h e last = ground (arith, year_of_era_bounds doe h)

leap_in_era : (y era : ℕ) → is_leap (y + era * 400 + 1) ≡ is_leap (y + 1)
leap_in_era y era = ground arith

-- Where a day of the year from March falls: in which month, and on which day.
abbrev month_and_day : ℕ → ℕ × ℕ
month_and_day doy = let mp = (5 * doy + 2) / 153 in (month_of mp, doy - (153 * mp + 2) / 5 + 1)

-- A year `y` from March, with `doy` one of its days.
month_lem :
    (y doy : ℕ)
    → doy ≤ 365
    → (doy ≡ 365 → is_leap (y + 1) ≡ true)
    → let m = (month_and_day doy).0 in
      let d = (month_and_day doy).1 in
      (1 ≤ m) × (m ≤ 12) × (1 ≤ d) × (d ≤ days_in_month (y + (if leb m 2 then 1 else 0)) m)
month_lem y doy h last = ground (arith, last)

-- Before New Year's day, and from it on.
month_and_day_early :
    (doy : ℕ)
    → doy < 306
    → (leb (month_and_day doy).0 2 ≡ false)
      × ((153 * ((month_and_day doy).0 - 3) + 2) / 5 + (month_and_day doy).1 ≡ doy + 1)
month_and_day_early doy h = ground arith

month_and_day_late :
    (doy : ℕ)
    → 306 ≤ doy
    → doy ≤ 365
    → (leb (month_and_day doy).0 2 ≡ true)
      × (((month_and_day doy).0 - 1) * 31 + (month_and_day doy).1 + 305 ≡ doy)
month_and_day_late doy h h' = ground arith

-- The days before the first of March.
march_first :
    (y : ℕ)
    → 1 ≤ y
    → days_before_year y + (if is_leap y then 60 else 59) + 306
      ≡ 365 * y + y / 4 - y / 100 + y / 400
march_first y h = ground arith

early_sum :
    (y k d doy : ℕ)
    → 1 ≤ y
    → k + d ≡ doy + 1
    → days_before_year (y + 0) + ((if is_leap (y + 0) then 60 else 59) + k) + d + 305
      ≡ 365 * y + y / 4 - y / 100 + y / 400 + doy
early_sum y k d doy h e = ground (arith, march_first y h)

-- The days up to such a date.
count_lem :
    (y doy : ℕ)
    → 1 ≤ y
    → doy ≤ 365
    → let m = (month_and_day doy).0 in
      let year = y + (if leb m 2 then 1 else 0) in
      days_before_year year + days_before_month year m + (month_and_day doy).1 + 305
      ≡ 365 * y + y / 4 - y / 100 + y / 400 + doy
count_lem y doy h h' = elim (Bool-cases (ltb doy 306)) [
  | inl e ↦
      let (late, days) = month_and_day_early doy (ground arith) in
      rw late (early_sum y _ _ doy h days)
  | inr e ↦
      let (early, days) = month_and_day_late doy (ground arith) h' in rw early (omega (arith, days))
]

era_lem :
    (days era doe yoe : ℕ)
    → era ≡ (days + 719468) / 146097
    → doe ≡ days + 719468 - era * 146097
    → yoe ≡ year_of_era doe
    → let y = yoe + era * 400 in
      365 * y + y / 4 - y / 100 + y / 400 + day_of_year doe yoe ≡ days + 719468
era_lem days era doe yoe e f g = omega arith

from_epoch : (count sum days : ℕ) → count + 305 ≡ sum → sum ≡ days + 719468 → count ≡ days + 719163
from_epoch count sum days e f = omega arith

-- `civil_from_days` gives a date of the Gregorian calendar, with a month from 1 to 12 and a day
-- that the month has, and the one that lies that many days after the first of January 1970 (whose
-- number is 719163 in the count from the first day of year 1).
pub civil_from_days_lem :
    (days : ℕ)
    → let c = civil_from_days days in
      ((1 ≤ c.month) × (c.month ≤ 12))
      × ((1 ≤ c.day) × (c.day ≤ days_in_month c.year c.month))
      × (days_before_year c.year + days_before_month c.year c.month + c.day ≡ days + 719163)
unfolding civil_from_days
civil_from_days_lem days =
    let era = (days + 719468) / 146097 in
    let doe = days + 719468 - era * 146097 in
    let yoe = year_of_era doe in
    let doy = day_of_year doe yoe in
    let y = yoe + era * 400 in
    let small : doe < 146097 = omega arith in
    let bound = day_of_year_bounds doe yoe small refl in
    let last : doy ≡ 365 → is_leap (y + 1) ≡ true =
      λ e. leap_in_era yoe era ∙ leap_day doe yoe small refl e in
    let (low, high, first, within) = month_lem y doy bound last in
    (
      (low, high),
      (first, within),
      from_epoch _ _ days (count_lem y doy (omega arith) bound)
          (era_lem days era doe yoe refl refl refl),
    )
