-- ===== src/Build/Calendar.antt =====
-- The Gregorian calendar, for build.rs.
use iroh_proxy.Common.{ℕ, zero, suc, ◌+◌, ◌%◌, Bool, not, ◌&&◌, ◌||◌, if◌then◌else◌, ltb, nat_eq}
use iroh_proxy.Build.{Date}

abbrev pub is_leap : ℕ → Bool
is_leap year = nat_eq (year % 4) 0 && (not (nat_eq (year % 100) 0) || nat_eq (year % 400) 0)

abbrev pub days_in_month : ℕ → ℕ → ℕ
days_in_month year month =
    if nat_eq month 2
    then if is_leap year then 29 else 28
    else if nat_eq month 4 || nat_eq month 6 || nat_eq month 9 || nat_eq month 11
    then 30
    else 31

abbrev pub next_day : Date → Date
next_day date =
    if ltb date.day (days_in_month date.year date.month)
    then record date { day = date.day + 1 }
    else if ltb date.month 12
    then record { year = date.year; month = date.month + 1; day = 1 }
    else record { year = date.year + 1; month = 1; day = 1 }

-- The date after the given days, day by day from that of the epoch.
unfoldable pub date_after : ℕ → Date
date_after zero = record { year = 1970; month = 1; day = 1 }
date_after (suc days) = next_day (date_after days)
