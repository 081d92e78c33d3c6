-- ===== src/Build/Tests.antt =====
-- Runs of build.rs and src/version.rs, and the theorem at a concrete input.
use iroh_proxy.Common.{◌≡◌, refl}
use iroh_proxy.Common.Text.{text}
use iroh_proxy.Common.Utf8.{text_computes}
use iroh_proxy.Build.{civil_from_days, iso8601_utc, short_version}
use iroh_proxy.Build.Calendar.{date_after}
use iroh_proxy.Build.Dates.{civil_from_days-date_after}

build_tests :
    (iso8601_utc 0 ≡ text "1970-01-01T00:00:00Z")
    × (iso8601_utc 1709251199 ≡ text "2024-02-29T23:59:59Z")
    × (iso8601_utc 4107542400 ≡ text "2100-03-01T00:00:00Z")
    × (short_version
          (record { pkg_version = text "0.1"; git_sha_short = text "abc"; git_dirty = text "true" })
        ≡ text "iroh-proxy 0.1 (abc-dirty)")
unfolding iso8601_utc short_version text_computes
build_tests = (refl, refl, refl, refl)

civil_from_days-date_after_example : civil_from_days 19782 ≡ date_after 19782
civil_from_days-date_after_example = civil_from_days-date_after 19782
