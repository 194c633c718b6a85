-- ===== src/TimeZone/Local.antt =====
-- Local times of a fixed zone (base/time_zone.cpp), and those of a zone whose file was not read.
use my_chat_respons.Common.{ℕ, ◌≡◌, refl, false, some, List, ok, ◌>>=◌}
use my_chat_respons.Common.Int.{ℤ, ◌+ℤ◌, +ℤ_cancel}
use my_chat_respons.TimeZone.{
  Tm, Zone, abbreviation_at, localtime_at, find_localtime, fixed_zone, to_local_time,
  from_local_time,
}

-- In a fixed zone, `from_local_time` undoes `to_local_time` at every number of seconds, where `timegm`
-- undoes `gmtime_r` and does not look at the members that the zone sets.
from_local_time-to_local_time :
    (gmtime : ℤ → Tm) (timegm : Tm → ℤ) (east : ℤ) (name : List ℕ) (seconds : ℤ)
    → ((t offset : ℤ) (zone : Zone)
        → timegm (record (gmtime t) { isdst = false; gmtoff = offset; zone = zone }) ≡ t)
    → (to_local_time gmtime (some (fixed_zone east name)) seconds
        >>= from_local_time gmtime timegm (some (fixed_zone east name)))
      ≡ ok seconds
unfolding to_local_time from_local_time find_localtime fixed_zone localtime_at
from_local_time-to_local_time gmtime timegm east name seconds back =
    rw (back (seconds +ℤ east) east (abbreviation_at 0), +ℤ_cancel seconds east) refl
