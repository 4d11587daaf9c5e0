-- ===== src/Tests/Model.antt =====
-- model/ and the values of the store, at concrete times.
use ranger_ims_server.Prelude.{◌≡◌, ◌≤◌, ◌<◌, ◌%◌, ◌+◌, arith}
use ranger_ims_server.Model.{ReportEntry}
use ranger_ims_server.Model.Time.{DateTime, pos, normalize, normalize_bounds}
use ranger_ims_server.Tests.Data.{typed}

abbrev late : DateTime
late = record { second = pos 1566979200; microsecond = 996001 }

normalize_bounds_example :
    ((normalize late).second ≡ late.second)
    × ((normalize late).microsecond % 10000 ≡ 0)
    × ((normalize late).microsecond ≤ 990000)
    × (late.microsecond < (normalize late).microsecond + 10000)
    × ((normalize late).microsecond ≤ late.microsecond + 5000)
    × (late.microsecond ≤ 995000 → late.microsecond ≤ (normalize late).microsecond + 5000)
normalize_bounds_example = normalize_bounds late (omega arith)

abbrev earlier : ReportEntry
earlier = record typed { created = record { second = pos 3; microsecond = 0 } }
