-- ===== src/Build.antt =====
-- build.rs and src/version.rs: the time of the build and the version line.
use iroh_proxy.Common.{
  ℕ, ◌+◌, ◌-◌, ◌*◌, ◌/◌, ◌%◌, zero, suc, [], ◌∷◌, ◌++◌, length, if◌then◌else◌, ltb, leb,
}
use iroh_proxy.Common.Text.{Text, text, text_eq}
use iroh_proxy.Common.Decimal.{decimal}
pub mod Calendar
pub mod Dates
mod Tests

pub record Date : Type 0 where
  pub year : ℕ
  pub month : ℕ
  pub day : ℕ

-- The steps of the algorithm, as the source names them.
abbrev pub era_of : ℕ → ℕ
era_of z = z / 146097

abbrev pub doe_of : ℕ → ℕ
doe_of z = z - era_of z * 146097

abbrev pub yoe_of : ℕ → ℕ
yoe_of doe = (doe - doe / 1460 + doe / 36524 - doe / 146096) / 365

abbrev pub doy_of : ℕ → ℕ → ℕ
doy_of doe yoe = doe - (365 * yoe + yoe / 4 - yoe / 100)

abbrev pub date_of : ℕ → ℕ → Date
date_of y doy =
    let mp = (5 * doy + 2) / 153 in
    let m = if ltb mp 10 then mp + 3 else mp - 9 in
    record { year = y + (if leb m 2 then 1 else 0); month = m; day = doy - (153 * mp + 2) / 5 + 1 }

-- The civil date of a number of days since 1970-01-01. The numbers are not negative, so the other
-- branch of `era` is never taken, and they fit the machine's integers.
unfoldable pub civil_from_days : ℕ → Date
civil_from_days days =
    let z = days + 719468 in
    let doe = doe_of z in let yoe = yoe_of doe in date_of (yoe + era_of z * 400) (doy_of doe yoe)

-- `{:0w}` of `format!`.
unfoldable pub zeros : ℕ → Text
zeros zero = []
zeros (suc n) = b'0' ∷ zeros n

unfoldable pub padded : ℕ → ℕ → Text
unfolding decimal zeros
padded width n = zeros (width - length (decimal n)) ++ decimal n

abbrev pub clock : ℕ → ℕ × ℕ × ℕ
clock secs =
    let remainder = secs % 86400 in
    let rest = remainder % 3600 in (remainder / 3600, rest / 60, rest % 60)

abbrev pub format_time : Date → ℕ × ℕ × ℕ → Text
format_time date (hour, minute, second) =
    padded 4 date.year
    ++ (text "-"
        ++ (padded 2 date.month
            ++ (text "-"
                ++ (padded 2 date.day
                    ++ (text "T"
                        ++ (padded 2 hour
                            ++ (text ":"
                                ++ (padded 2 minute
                                    ++ (text ":" ++ (padded 2 second ++ text "Z"))))))))))

unfoldable pub iso8601_utc : ℕ → Text
unfolding civil_from_days padded
iso8601_utc secs = format_time (civil_from_days (secs / 86400)) (clock secs)

-- The entries of `BuildInfo` that the version line has.
pub record BuildInfo : Type 0 where
  pub pkg_version : Text
  pub git_sha_short : Text
  pub git_dirty : Text

unfoldable pub short_version : BuildInfo → Text
short_version info =
    text "iroh-proxy "
    ++ (info.pkg_version
        ++ (text " ("
            ++ (info.git_sha_short
                ++ ((if text_eq info.git_dirty (text "true") then text "-dirty" else [])
                    ++ text ")"))))
