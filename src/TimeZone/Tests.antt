-- ===== src/TimeZone/Tests.antt =====
-- Times, zones and zone files (base/time_zone.cpp) at concrete values.
use my_chat_respons.Common.{◌≡◌, refl, true, false, some, [], ◌∷◌, arith, ok}
use my_chat_respons.Common.Int.{ℤ, pos, negsuc, ◌-ℤ◌, ◌+ℤ◌, ◌*ℤ◌, quot}
use my_chat_respons.Date.{julian_day_of_1970_01_01}
use my_chat_respons.Date.Calendar.{days_in_month, is_leap}
use my_chat_respons.TimeZone.{
  Tm, zero_tm, epoch_day, to_utc_time, from_utc_time, from_utc_tm, Localtime, sentry_gmt,
  find_localtime, localtime_at,
}
use my_chat_respons.TimeZone.Utc.{from_utc_tm-to_utc_time}
use my_chat_respons.TimeZone.Transitions.{in_force, find_localtime-in_force}
use my_chat_respons.TimeZone.Files.{zone_of_file}
use my_chat_respons.TimeZone.Files.RoundTrip.{
  ZoneFile, file_bytes, zone_of, zone_of_file-file_bytes,
}

from_utc_tm-to_utc_time_example :
    let seconds = from_utc_time (pos 2023) (pos 12) (pos 31) (pos 0) (pos 0) (pos 1) in
    from_utc_tm (to_utc_time seconds false) ≡ seconds
from_utc_tm-to_utc_time_example =
    from_utc_tm-to_utc_time 2023 12 31 0 0 1 false (omega arith) (omega arith) (omega arith)
      (omega arith) (unfold days_in_month is_leap in ground arith) (omega arith) (omega arith)
      (omega arith)

abbrev winter : Localtime
winter = record { gmt_offset = pos 3600; is_dst = false; arrb_idx = 0 }

abbrev summer : Localtime
summer = record { gmt_offset = pos 7200; is_dst = true; arrb_idx = 4 }

abbrev two_seasons : ZoneFile
two_seasons = record {
  version = 50;
  reserved = 0 ∷ 0 ∷ 0 ∷ 0 ∷ 0 ∷ 0 ∷ 0 ∷ 0 ∷ 0 ∷ 0 ∷ 0 ∷ 0 ∷ 0 ∷ 0 ∷ 0 ∷ [];
  skipped = (pos 2, pos 2, pos 0);
  times = negsuc 99 ∷ pos 5000 ∷ [];
  indices = 1 ∷ 0 ∷ [];
  localtimes = winter ∷ summer ∷ [];
  text = 67 ∷ 69 ∷ 84 ∷ 0 ∷ [];
  rest = 1 ∷ [];
}

find_localtime-in_force_example :
    find_localtime (zone_of two_seasons) (sentry_gmt (pos 4000)) true
    ≡ localtime_at
        (zone_of two_seasons)
        (in_force true (pos 4000) 0 (zone_of two_seasons).transitions)
find_localtime-in_force_example =
    find_localtime-in_force (zone_of two_seasons) (sentry_gmt (pos 4000)) true (refl, tt)

zone_of_file-file_bytes_example :
    zone_of_file (some (file_bytes two_seasons)) ≡ ok (some (zone_of two_seasons))
zone_of_file-file_bytes_example = zone_of_file-file_bytes two_seasons (record {
  reserved_bytes = refl;
  skipped_small = omega arith;
  few_times = omega arith;
  few_localtimes = omega arith;
  short_text = omega arith;
  times_small = omega arith;
  one_index_each = refl;
  indices_below = omega arith;
  offsets_small = omega arith;
})

-- A clock that puts all seconds into one field stands for `gmtime_r` and `timegm`.
abbrev plain_gmtime : ℤ → Tm
plain_gmtime t = record zero_tm { sec = t }

abbrev plain_timegm : Tm → ℤ
plain_timegm t = t.sec

epoch_day_value : julian_day_of_1970_01_01 ≡ epoch_day
unfolding julian_day_of_1970_01_01 ◌-ℤ◌ ◌+ℤ◌ ◌*ℤ◌ quot
epoch_day_value = refl
