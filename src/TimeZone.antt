-- ===== src/TimeZone.antt =====
-- base/time_zone.h and base/time_zone.cpp: times of day in Greenwich and in a zone. Seconds and the
-- fields of `struct tm` are integers of ℤ, with the conversions to `int` written out; `gmtime_r` and `timegm` are arguments.
-- A zone's data is what the file reader leaves; reading past a vector is a fault.
pub mod Utc
pub mod Transitions
pub mod Local
pub mod Files
mod Tests
use my_chat_respons.Common.{
  ℕ, ◌/◌, ◌%◌, Bool, true, false, not, ◌&&◌, Option, none, some, List, [], ◌∷◌, if◌then◌else◌,
  get_elem?, Outcome, ok, fault, ◌>>=◌, ◌>>◌,
}
use my_chat_respons.Common.Int.{ℤ, pos, pos_part, ◌+ℤ◌, ◌-ℤ◌, ◌*ℤ◌, quot, rem, to_int, ltb_ℤ, eqb_ℤ}
use my_chat_respons.Date.{Date, date_of, year_month_day, week_day}

-- Where `tm_zone` points.
pub data Zone : Type 0 where
  unset greenwich : Zone
  abbreviation_at : ℕ → Zone

-- `struct tm`.
pub record Tm : Type 0 where
  pub sec : ℤ
  pub min : ℤ
  pub hour : ℤ
  pub mday : ℤ
  pub mon : ℤ
  pub year : ℤ
  pub wday : ℤ
  pub yday : ℤ
  pub isdst : Bool
  pub gmtoff : ℤ
  pub zone : Zone

abbrev pub zero_tm : Tm
zero_tm = record {
  sec = pos 0;
  min = pos 0;
  hour = pos 0;
  mday = pos 0;
  mon = pos 0;
  year = pos 0;
  wday = pos 0;
  yday = pos 0;
  isdst = false;
  gmtoff = pos 0;
  zone = unset;
}

abbrev pub seconds_per_day : ℕ
seconds_per_day = 86400

unfoldable pub fill_hms : ℕ → Tm → Tm
fill_hms seconds utc = record utc {
  sec = pos (seconds % 60);
  min = pos (seconds / 60 % 60);
  hour = pos (seconds / 60 / 60);
}

-- The day and the second of the day, converted to `int`: the remainder of C++ may be negative.
unfoldable pub split_day : ℤ → ℤ × ℤ
split_day seconds_since_epoch =
    let seconds = to_int (rem seconds_since_epoch seconds_per_day) in
    let days = to_int (quot seconds_since_epoch seconds_per_day) in
    if ltb_ℤ seconds (pos 0)
    then (seconds +ℤ pos seconds_per_day, days -ℤ pos 1)
    else (seconds, days)

-- `Date::k_julian_day_of_1970_01_01`, computed.
abbrev pub epoch_day : ℤ
epoch_day = pos 2440588

-- `to_utc_time(secondsSinceEpoch, yday)`. Once the day is split off, the seconds are not negative.
unfoldable pub to_utc_time : ℤ → Bool → Tm
unfolding fill_hms split_day
to_utc_time seconds_since_epoch yday =
    let (seconds, days) = split_day seconds_since_epoch in
    let utc = fill_hms (pos_part seconds) (record zero_tm { zone = greenwich }) in
    let date : Date = record { julian_day_number = days +ℤ epoch_day } in
    let ymd = year_month_day date in
    let start_of_year = date_of ymd.year (pos 1) (pos 1) in
    record utc {
      year = ymd.year -ℤ pos 1900;
      mon = ymd.month -ℤ pos 1;
      mday = ymd.day;
      wday = week_day date;
      yday = if yday then date.julian_day_number -ℤ start_of_year.julian_day_number else utc.yday;
    }

unfoldable pub from_utc_time : ℤ → ℤ → ℤ → ℤ → ℤ → ℤ → ℤ
from_utc_time year month day hour minute seconds =
    let date = date_of year month day in
    let seconds_in_day = hour *ℤ pos 3600 +ℤ minute *ℤ pos 60 +ℤ seconds in
    let days = date.julian_day_number -ℤ epoch_day in days *ℤ pos seconds_per_day +ℤ seconds_in_day

-- The overload for a `struct tm`.
unfoldable pub from_utc_tm : Tm → ℤ
unfolding from_utc_time
from_utc_tm utc =
    from_utc_time (utc.year +ℤ pos 1900) (utc.mon +ℤ pos 1) utc.mday utc.hour utc.min utc.sec

pub record Transition : Type 0 where
  pub gmttime : ℤ
  pub localtime : ℤ
  pub localtime_idx : ℕ

pub record Localtime : Type 0 where
  pub gmt_offset : ℤ
  pub is_dst : Bool
  pub arrb_idx : ℕ

-- `TimeZone::Data`, less the names that nothing fills.
pub record ZoneData : Type 0 where
  pub transitions : List Transition
  pub localtimes : List Localtime
  pub abbreviation : List ℕ

-- The time that `Comp` compares.
abbrev pub compared : Bool → Transition → ℤ
compared compare_gmt t = if compare_gmt then t.gmttime else t.localtime

-- `Comp::operator()` and `Comp::equal`.
unfoldable pub comp : Bool → Transition → Transition → Bool
comp compare_gmt lhs rhs = ltb_ℤ (compared compare_gmt lhs) (compared compare_gmt rhs)

unfoldable pub comp_equal : Bool → Transition → Transition → Bool
comp_equal compare_gmt lhs rhs = eqb_ℤ (compared compare_gmt lhs) (compared compare_gmt rhs)

-- `localtimes[i]`.
unfoldable pub localtime_at : ZoneData → ℕ → Outcome Localtime
localtime_at zone i = elim (get_elem? zone.localtimes i) [ none ↦ fault | some l ↦ ok l ]

-- `lower_bound` walks to the first transition that is not before `sentry`; `before` is the one in
-- front of it. What follows is the choice by where it stopped.
unfoldable pub from_bound : Bool → Transition → Transition → List Transition → ℕ
unfolding comp comp_equal
from_bound compare_gmt sentry before [] = before.localtime_idx
from_bound compare_gmt sentry before (t ∷ ts) =
    let rest = from_bound compare_gmt sentry t ts in
    if comp compare_gmt t sentry
    then rest
    else if comp_equal compare_gmt sentry t
    then t.localtime_idx
    else before.localtime_idx

unfoldable pub find_localtime : ZoneData → Transition → Bool → Outcome Localtime
unfolding localtime_at comp from_bound
find_localtime zone sentry compare_gmt = elim zone.transitions [
  | [] ↦ localtime_at zone 0
  | t ∷ ts ↦
      if comp compare_gmt sentry t
      then localtime_at zone 0
      else localtime_at zone (from_bound compare_gmt sentry t (t ∷ ts))
]

-- The constructor for a fixed zone.
unfoldable pub fixed_zone : ℤ → List ℕ → ZoneData
fixed_zone east_of_utc name = record {
  transitions = [];
  localtimes = record { gmt_offset = east_of_utc; is_dst = false; arrb_idx = 0 } ∷ [];
  abbreviation = name;
}

abbrev pub sentry_gmt : ℤ → Transition
sentry_gmt seconds = record { gmttime = seconds; localtime = pos 0; localtime_idx = 0 }

abbrev pub sentry_local : ℤ → Transition
sentry_local seconds = record { gmttime = pos 0; localtime = seconds; localtime_idx = 0 }

-- `gmtime` is `gmtime_r`. A zone that is not valid is `none`.
unfoldable pub to_local_time : (ℤ → Tm) → Option ZoneData → ℤ → Outcome Tm
to_local_time gmtime none seconds = fault
to_local_time gmtime (some zone) seconds = do
  local ← find_localtime zone (sentry_gmt seconds) true
  ok (record (gmtime (seconds +ℤ local.gmt_offset)) {
    isdst = local.is_dst;
    gmtoff = local.gmt_offset;
    zone = abbreviation_at local.arrb_idx;
  })

unfoldable pub from_local_time : (ℤ → Tm) → (Tm → ℤ) → Option ZoneData → Tm → Outcome ℤ
unfolding to_local_time
from_local_time gmtime timegm none local_tm = fault
from_local_time gmtime timegm (some zone) local_tm = do
  let seconds = timegm local_tm
  local ← find_localtime zone (sentry_local seconds) false
  if local_tm.isdst
      then (do
        try_tm ← to_local_time gmtime (some zone) (seconds -ℤ local.gmt_offset)
        let hack =
            not try_tm.isdst && eqb_ℤ try_tm.hour local_tm.hour && eqb_ℤ try_tm.min local_tm.min
        ok ((if hack then seconds -ℤ pos 3600 else seconds) -ℤ local.gmt_offset))
      else ok (seconds -ℤ local.gmt_offset)
