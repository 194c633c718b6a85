-- ===== src/TimeZone/Utc.antt =====
-- Times in Greenwich (base/time_zone.cpp): the seconds of a date and time lead back to it.
use my_chat_respons.Common.{
  ℕ, ◌+◌, ◌*◌, ◌/◌, ◌%◌, ◌≤◌, ◌<◌, ◌≡◌, refl, ap, ◌∙◌, Bool, arith, ◌-◌, ◌^◌, ◌⊎◌, inl, inr,
  if◌then◌else◌,
}
use my_chat_respons.Common.Int.{
  ℤ, pos, negsuc, ◌+ℤ◌, ◌-ℤ◌, ◌*ℤ◌, quot, rem, ltb_ℤ, FitsInt, to_int-FitsInt,
}
use my_chat_respons.Date.{
  YearMonthDay, get_julian_day_number, get_year_month_day, date_of, year_month_day,
}
use my_chat_respons.Date.Calendar.{
  days_in_month, days_in_month-most, get_julian_day_number-pos, year_month_day-julian,
}
use my_chat_respons.TimeZone.{
  Tm, seconds_per_day, fill_hms, split_day, epoch_day, to_utc_time, from_utc_time, from_utc_tm,
}

-- The quotient and the remainder of a number of seconds before the epoch, and after.
parts_pos :
    (n sod : ℕ)
    → sod < seconds_per_day
    → let s = pos n *ℤ pos seconds_per_day +ℤ pos sod in
      (quot s seconds_per_day ≡ pos n) × (rem s seconds_per_day ≡ pos sod)
unfolding ◌*ℤ◌ ◌+ℤ◌ quot rem
parts_pos n sod h = ground arith

parts_neg :
    (n sod : ℕ)
    → sod < seconds_per_day
    → let s = negsuc n *ℤ pos seconds_per_day +ℤ pos sod in
      ((sod ≡ 0) × (quot s seconds_per_day ≡ negsuc n) × (rem s seconds_per_day ≡ pos 0))
      ⊎ ((quot s seconds_per_day ≡ negsuc n +ℤ pos 1)
          × (rem s seconds_per_day ≡ negsuc (seconds_per_day - sod - 1))
          × (0 < sod))
unfolding ◌*ℤ◌ ◌+ℤ◌ quot rem
parts_neg n sod h = ground arith

split_day_pos :
    (n sod : ℕ)
    → n < 2 ^ 31
    → sod < seconds_per_day
    → split_day (pos n *ℤ pos seconds_per_day +ℤ pos sod) ≡ (pos sod, pos n)
unfolding split_day
split_day_pos n sod fits h =
    let (q, r) = parts_pos n sod h in
    rw (q, r, to_int-FitsInt (pos n) fits, to_int-FitsInt (pos sod) (omega arith)) (ground arith)

one_more : (n : ℕ) → n < 2 ^ 31 → FitsInt (negsuc n +ℤ pos 1)
unfolding ◌+ℤ◌
one_more n h = ground arith

restored :
    (n sod : ℕ)
    → sod < seconds_per_day
    → ◌≡◌ {A = ℤ × ℤ}
        (if ltb_ℤ (negsuc (seconds_per_day - sod - 1)) (pos 0)
          then (
            negsuc (seconds_per_day - sod - 1) +ℤ pos seconds_per_day,
            negsuc n +ℤ pos 1 -ℤ pos 1,
          )
          else (negsuc (seconds_per_day - sod - 1), negsuc n +ℤ pos 1))
        (pos sod, negsuc n)
unfolding ◌+ℤ◌ ◌-ℤ◌
restored n sod h = ground arith

split_day_neg :
    (n sod : ℕ)
    → n < 2 ^ 31
    → sod < seconds_per_day
    → split_day (negsuc n *ℤ pos seconds_per_day +ℤ pos sod) ≡ (pos sod, negsuc n)
unfolding split_day
split_day_neg n sod fits h = elim (parts_neg n sod h) [
  | inl (z, q, r) ↦
      rw (q, r, to_int-FitsInt (negsuc n) fits, to_int-FitsInt (pos 0) (omega arith)) (rw z refl)
  | inr (q, r, z) ↦
      rw
        (
          q,
          r,
          to_int-FitsInt (negsuc n +ℤ pos 1) (one_more n fits),
          to_int-FitsInt (negsuc (seconds_per_day - sod - 1)) (omega arith),
        )
        (restored n sod h)
]

split_day_whole :
    (days : ℤ) (sod : ℕ)
    → FitsInt days
    → sod < seconds_per_day
    → split_day (days *ℤ pos seconds_per_day +ℤ pos sod) ≡ (pos sod, days)
split_day_whole (pos n) sod fits h = split_day_pos n sod fits h
split_day_whole (negsuc n) sod fits h = split_day_neg n sod fits h

-- The second of the day, and its hour, minute and second back.
abbrev second_of : ℕ → ℕ → ℕ → ℕ
second_of h mi s = h * 3600 + mi * 60 + s

second_of_pos :
    (h mi s : ℕ) → pos h *ℤ pos 3600 +ℤ pos mi *ℤ pos 60 +ℤ pos s ≡ pos (second_of h mi s)
unfolding ◌*ℤ◌ ◌+ℤ◌
second_of_pos h mi s = ground arith

clock :
    (h mi s : ℕ)
    → h < 24
    → mi < 60
    → s < 60
    → (second_of h mi s < seconds_per_day)
      × (second_of h mi s % 60 ≡ s)
      × (second_of h mi s / 60 % 60 ≡ mi)
      × (second_of h mi s / 60 / 60 ≡ h)
clock h mi s a b c = omega arith

day_back : (j : ℤ) → j -ℤ epoch_day +ℤ epoch_day ≡ j
unfolding ◌-ℤ◌ ◌+ℤ◌
day_back j = ground arith

from_epoch : (n : ℕ) → n < 2 ^ 31 → FitsInt (pos n -ℤ epoch_day)
unfolding ◌-ℤ◌
from_epoch n h = ground arith

-- The count of days from the epoch is one of `int`.
day-FitsInt :
    (y m d : ℕ)
    → y ≤ 1400000
    → 1 ≤ m
    → m ≤ 12
    → d ≤ 31
    → FitsInt (get_julian_day_number (pos y) (pos m) (pos d) -ℤ epoch_day)
day-FitsInt y m d far lo hi last =
    rw (get_julian_day_number-pos y m d lo hi) (from_epoch _ (omega arith))

-- The fields of a time in Greenwich, from the day and the second of the day.
to_utc_time-split :
    (j : ℤ) (sod : ℕ) (yday : Bool)
    → FitsInt (j -ℤ epoch_day)
    → sod < seconds_per_day
    → let t = to_utc_time ((j -ℤ epoch_day) *ℤ pos seconds_per_day +ℤ pos sod) yday in
      let ymd = get_year_month_day j in
      (t.year ≡ ymd.year -ℤ pos 1900)
      × (t.mon ≡ ymd.month -ℤ pos 1)
      × (t.mday ≡ ymd.day)
      × (t.hour ≡ pos (sod / 60 / 60))
      × (t.min ≡ pos (sod / 60 % 60))
      × (t.sec ≡ pos (sod % 60))
unfolding to_utc_time fill_hms year_month_day
to_utc_time-split j sod yday fits h =
    rw (split_day_whole (j -ℤ epoch_day) sod fits h, day_back j)
      (refl, refl, refl, refl, refl, refl)

-- The fields of the given date and time, as `struct tm` counts them.
abbrev pub Shows : ℕ → ℕ → ℕ → ℕ → ℕ → ℕ → Tm → Type 0
Shows y m d h mi s t =
    (t.year ≡ pos y -ℤ pos 1900)
    × (t.mon ≡ pos m -ℤ pos 1)
    × (t.mday ≡ pos d)
    × (t.hour ≡ pos h)
    × (t.min ≡ pos mi)
    × (t.sec ≡ pos s)

-- For every day of the calendar from the year 0 to the year 1400000 and every time of that day without leap seconds,
-- before 1970 too: `to_utc_time` of the seconds that `from_utc_time` gives shows that date and time.
to_utc_time-from_utc_time :
    (y m d h mi s : ℕ) (yday : Bool)
    → y ≤ 1400000
    → 1 ≤ m
    → m ≤ 12
    → 1 ≤ d
    → d ≤ days_in_month y m
    → h < 24
    → mi < 60
    → s < 60
    → Shows y m d h mi s
        (to_utc_time (from_utc_time (pos y) (pos m) (pos d) (pos h) (pos mi) (pos s)) yday)
unfolding from_utc_time date_of
to_utc_time-from_utc_time y m d h mi s yday far lo hi one last a b c =
    let (small, sec, minute, hour) = clock h mi s a b c in
    let j = get_julian_day_number (pos y) (pos m) (pos d) in
    let (ye, mo, da, ho, mn, se) =
      to_utc_time-split j (second_of h mi s) yday
        (day-FitsInt y m d far lo hi (omega (arith, last, days_in_month-most y m))) small in
    let e = (year_month_day-julian y m d far lo hi one last).0 in
    rw (second_of_pos h mi s) (
      ye ∙ ap (λ (t : YearMonthDay). t.year -ℤ pos 1900) e,
      mo ∙ ap (λ (t : YearMonthDay). t.month -ℤ pos 1) e,
      da ∙ ap (λ (t : YearMonthDay). t.day) e,
      ho ∙ ap pos hour,
      mn ∙ ap pos minute,
      se ∙ ap pos sec,
    )

unshift : (n k : ℕ) → pos n -ℤ pos k +ℤ pos k ≡ pos n
unfolding ◌-ℤ◌ ◌+ℤ◌
unshift n k = ground arith

-- For every day of the calendar from the year 0 to the year 1400000 and every time of that day without leap seconds,
-- before 1970 too: `from_utc_tm` of the fields that `to_utc_time` computes from its seconds gives the same seconds.
pub from_utc_tm-to_utc_time :
    (y m d h mi s : ℕ) (yday : Bool)
    → y ≤ 1400000
    → 1 ≤ m
    → m ≤ 12
    → 1 ≤ d
    → d ≤ days_in_month y m
    → h < 24
    → mi < 60
    → s < 60
    → let seconds = from_utc_time (pos y) (pos m) (pos d) (pos h) (pos mi) (pos s) in
      from_utc_tm (to_utc_time seconds yday) ≡ seconds
unfolding from_utc_tm
from_utc_tm-to_utc_time y m d h mi s yday far lo hi one last a b c =
    let (ye, mo, da, ho, mn, se) =
      to_utc_time-from_utc_time y m d h mi s yday far lo hi one last a b c in
    rw (ye, mo, da, ho, mn, se, unshift y 1900, unshift m 1) refl
