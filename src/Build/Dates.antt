-- ===== src/Build/Dates.antt =====
-- build.rs: the algorithm for dates follows the calendar.
use iroh_proxy.Common.{
  ℕ, zero, suc, ◌+◌, ◌-◌, ◌*◌, ◌/◌, ◌<◌, ◌≤◌, ◌≡◌, refl, ap, ◌∙◌, ◌⊎◌, inl, inr, arith,
  if◌then◌else◌, ltb, leb,
}
use iroh_proxy.Build.{Date, era_of, doe_of, yoe_of, doy_of, date_of, civil_from_days}
use iroh_proxy.Build.Calendar.{next_day, date_after}

-- The days before the year that begins in March of year `y`, from March of year 0.
abbrev start : ℕ → ℕ
start y = 365 * y + y / 4 - y / 100 + y / 400

yoe_low : (doe : ℕ) → doe < 146097 → 365 * yoe_of doe + yoe_of doe / 4 - yoe_of doe / 100 ≤ doe
yoe_low doe h = omega arith

yoe_high :
    (doe : ℕ)
    → doe < 146097
    → doe
      < 365 * (yoe_of doe + 1)
        + (yoe_of doe + 1) / 4
        - (yoe_of doe + 1) / 100
        + (yoe_of doe + 1) / 400
yoe_high doe h = omega arith

record YearOf (z y doy : ℕ) : Type 0 where
  low : start y + doy ≡ z
  high : z < start (y + 1)

year_from :
    (z doe yoe era : ℕ)
    → z ≡ doe + era * 146097
    → yoe < 400
    → 365 * yoe + yoe / 4 - yoe / 100 ≤ doe
    → doe < 365 * (yoe + 1) + (yoe + 1) / 4 - (yoe + 1) / 100 + (yoe + 1) / 400
    → YearOf z (yoe + era * 400) (doy_of doe yoe)
year_from z doe yoe era split few low high = record { low = omega arith; high = omega arith }

year_of :
    (z : ℕ) → YearOf z (yoe_of (doe_of z) + era_of z * 400) (doy_of (doe_of z) (yoe_of (doe_of z)))
year_of z =
    let small : doe_of z < 146097 = omega arith in
    year_from z (doe_of z) (yoe_of (doe_of z)) (era_of z) (omega arith) (omega arith)
      (yoe_low (doe_of z) small) (yoe_high (doe_of z) small)

next_year :
    (z w y doy y2 doy2 : ℕ)
    → w ≡ z + 1
    → YearOf z y doy
    → YearOf w y2 doy2
    → ((y2 ≡ y) × (doy2 ≡ doy + 1) × (doy + 1 < start (y + 1) - start y))
      ⊎ ((y2 ≡ y + 1) × (doy2 ≡ 0) × (doy + 1 ≡ start (y + 1) - start y))
next_year z w y doy y2 doy2 e h k = ground (arith, h.low, h.high, k.low, k.high)

-- The date of the given day of the given month, counted from March.
abbrev date_in : ℕ → ℕ → ℕ → Date
date_in y mp day =
    let m = if ltb mp 10 then mp + 3 else mp - 9 in
    record { year = y + (if leb m 2 then 1 else 0); month = m; day = day }

before_last :
    (y mp day : ℕ)
    → mp < 11
    → day + (153 * mp + 2) / 5 < (153 * (mp + 1) + 2) / 5
    → date_in y mp (day + 1) ≡ next_day (date_in y mp day)
before_last y mp day month more = ground arith

before_last_february :
    (y day : ℕ)
    → day + 337 < start (y + 1) - start y
    → date_in y 11 (day + 1) ≡ next_day (date_in y 11 day)
before_last_february y day more = ground arith

last_of_month :
    (y mp day : ℕ)
    → mp < 11
    → day + (153 * mp + 2) / 5 ≡ (153 * (mp + 1) + 2) / 5
    → date_in y (mp + 1) 1 ≡ next_day (date_in y mp day)
last_of_month y mp day month last = ground arith

next_month :
    (doy mp mp2 : ℕ)
    → mp ≡ (5 * doy + 2) / 153
    → mp2 ≡ (5 * (doy + 1) + 2) / 153
    → doy < 365
    → ((mp2 ≡ mp) × (mp < 11) × (doy + 1 < (153 * (mp + 1) + 2) / 5))
      ⊎ ((mp2 ≡ mp + 1) × (mp < 11) × (doy + 1 ≡ (153 * (mp + 1) + 2) / 5))
      ⊎ ((mp2 ≡ 11) × (mp ≡ 11))
next_month doy mp mp2 e e2 h = ground arith

start_of_month : (doy mp : ℕ) → mp ≡ (5 * doy + 2) / 153 → (153 * mp + 2) / 5 ≤ doy
start_of_month doy mp e = omega arith

same_year_in :
    (y doy mp mp2 : ℕ)
    → mp ≡ (5 * doy + 2) / 153
    → mp2 ≡ (5 * (doy + 1) + 2) / 153
    → doy + 1 < start (y + 1) - start y
    → date_in y mp2 (doy + 1 - (153 * mp2 + 2) / 5 + 1)
      ≡ next_day (date_in y mp (doy - (153 * mp + 2) / 5 + 1))
same_year_in y doy mp mp2 e e2 h =
    let begun = start_of_month doy mp e in
    elim (next_month doy mp mp2 e e2 (omega arith)) [
      | inl (same, month, more) ↦ rw same (
          ap (date_in y mp) (omega arith)
          ∙ before_last y mp (doy - (153 * mp + 2) / 5 + 1) month (omega arith))
      | inr (inl (later, month, last)) ↦ rw later (
          ap (date_in y (mp + 1)) (omega arith)
          ∙ last_of_month y mp (doy - (153 * mp + 2) / 5 + 1) month (omega arith))
      | inr (inr (same, february)) ↦
          rw (same, february)
            (ap (date_in y 11) (omega arith) ∙ before_last_february y (doy - 337 + 1) (omega arith))
    ]

same_year :
    (y doy : ℕ) → doy + 1 < start (y + 1) - start y → date_of y (doy + 1) ≡ next_day (date_of y doy)
same_year y doy h = same_year_in y doy _ _ refl refl h

new_year :
    (y doy : ℕ) → doy + 1 ≡ start (y + 1) - start y → date_of (y + 1) 0 ≡ next_day (date_of y doy)
new_year y doy h = ground arith

next_date :
    (z w y doy y2 doy2 : ℕ)
    → w ≡ z + 1
    → YearOf z y doy
    → YearOf w y2 doy2
    → date_of y2 doy2 ≡ next_day (date_of y doy)
next_date z w y doy y2 doy2 e h k = elim (next_year z w y doy y2 doy2 e h k) [
  | inl (same, later, more) ↦ rw (same, later) (same_year y doy more)
  | inr (later, first, last) ↦ rw (later, first) (new_year y doy last)
]

-- For every number of days since 1970-01-01 the algorithm gives the date that is reached from
-- 1970-01-01 by going to the next day of the Gregorian calendar that many times.
pub civil_from_days-date_after : (days : ℕ) → civil_from_days days ≡ date_after days
unfolding civil_from_days date_after
civil_from_days-date_after zero = refl
civil_from_days-date_after (suc days) =
    next_date (days + 719468) (suc days + 719468) _ _ _ _ (omega arith) (year_of (days + 719468))
      (year_of (suc days + 719468))
    ∙ ap next_day (civil_from_days-date_after days)
