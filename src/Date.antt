-- ===== src/Date.antt =====
-- base/date.h and base/date.cpp: dates as Julian day numbers. An `int` is an integer of ℤ, with
-- the division of C++. `julian_steps` and `date_steps` are all the values that the two conversions
-- compute on the way, for which `int` has room or has not.
pub mod Cycles
pub mod Ranges
pub mod Calendar
mod Tests
use my_chat_respons.Common.{Bool, List, [], ◌∷◌}
use my_chat_respons.Common.Int.{ℤ, pos, ◌+ℤ◌, ◌-ℤ◌, ◌*ℤ◌, quot, rem, ltb_ℤ, eqb_ℤ}

pub record YearMonthDay : Type 0 where
  pub year : ℤ
  pub month : ℤ
  pub day : ℤ

unfoldable pub get_julian_day_number : ℤ → ℤ → ℤ → ℤ
get_julian_day_number year month day =
    let a = quot (pos 14 -ℤ month) 12 in
    let y = year +ℤ pos 4800 -ℤ a in
    let m = month +ℤ pos 12 *ℤ a -ℤ pos 3 in
    day
    +ℤ quot (pos 153 *ℤ m +ℤ pos 2) 5
    +ℤ y *ℤ pos 365
    +ℤ quot y 4
    -ℤ quot y 100
    +ℤ quot y 400
    -ℤ pos 32045

unfoldable pub get_year_month_day : ℤ → YearMonthDay
get_year_month_day julian_day_number =
    let a = julian_day_number +ℤ pos 32044 in
    let b = quot (pos 4 *ℤ a +ℤ pos 3) 146097 in
    let c = a -ℤ quot (b *ℤ pos 146097) 4 in
    let d = quot (pos 4 *ℤ c +ℤ pos 3) 1461 in
    let e = c -ℤ quot (pos 1461 *ℤ d) 4 in
    let m = quot (pos 5 *ℤ e +ℤ pos 2) 153 in
    record {
      day = e -ℤ quot (pos 153 *ℤ m +ℤ pos 2) 5 +ℤ pos 1;
      month = m +ℤ pos 3 -ℤ pos 12 *ℤ quot m 10;
      year = b *ℤ pos 100 +ℤ d -ℤ pos 4800 +ℤ quot m 10;
    }

-- Every value that `get_julian_day_number` computes, in the order of its operations.
unfoldable pub julian_steps : ℤ → ℤ → ℤ → List ℤ
julian_steps year month day =
    let a = quot (pos 14 -ℤ month) 12 in
    let y = year +ℤ pos 4800 -ℤ a in
    let m = month +ℤ pos 12 *ℤ a -ℤ pos 3 in
    let n = day +ℤ quot (pos 153 *ℤ m +ℤ pos 2) 5 in
    let n' = n +ℤ y *ℤ pos 365 in
    let n'' = n' +ℤ quot y 4 in
    let n''' = n'' -ℤ quot y 100 in
    (pos 14 -ℤ month)
    ∷ a
    ∷ (year +ℤ pos 4800)
    ∷ y
    ∷ (pos 12 *ℤ a)
    ∷ (month +ℤ pos 12 *ℤ a)
    ∷ m
    ∷ (pos 153 *ℤ m)
    ∷ (pos 153 *ℤ m +ℤ pos 2)
    ∷ quot (pos 153 *ℤ m +ℤ pos 2) 5
    ∷ n
    ∷ (y *ℤ pos 365)
    ∷ n'
    ∷ quot y 4
    ∷ n''
    ∷ quot y 100
    ∷ n'''
    ∷ quot y 400
    ∷ (n''' +ℤ quot y 400)
    ∷ (n''' +ℤ quot y 400 -ℤ pos 32045)
    ∷ []

-- Every value that `get_year_month_day` computes.
unfoldable pub date_steps : ℤ → List ℤ
date_steps julian_day_number =
    let a = julian_day_number +ℤ pos 32044 in
    let b = quot (pos 4 *ℤ a +ℤ pos 3) 146097 in
    let c = a -ℤ quot (b *ℤ pos 146097) 4 in
    let d = quot (pos 4 *ℤ c +ℤ pos 3) 1461 in
    let e = c -ℤ quot (pos 1461 *ℤ d) 4 in
    let m = quot (pos 5 *ℤ e +ℤ pos 2) 153 in
    a
    ∷ (pos 4 *ℤ a)
    ∷ (pos 4 *ℤ a +ℤ pos 3)
    ∷ b
    ∷ (b *ℤ pos 146097)
    ∷ quot (b *ℤ pos 146097) 4
    ∷ c
    ∷ (pos 4 *ℤ c)
    ∷ (pos 4 *ℤ c +ℤ pos 3)
    ∷ d
    ∷ (pos 1461 *ℤ d)
    ∷ quot (pos 1461 *ℤ d) 4
    ∷ e
    ∷ (pos 5 *ℤ e)
    ∷ (pos 5 *ℤ e +ℤ pos 2)
    ∷ m
    ∷ (pos 153 *ℤ m)
    ∷ (pos 153 *ℤ m +ℤ pos 2)
    ∷ quot (pos 153 *ℤ m +ℤ pos 2) 5
    ∷ (e -ℤ quot (pos 153 *ℤ m +ℤ pos 2) 5)
    ∷ (e -ℤ quot (pos 153 *ℤ m +ℤ pos 2) 5 +ℤ pos 1)
    ∷ (m +ℤ pos 3)
    ∷ quot m 10
    ∷ (pos 12 *ℤ quot m 10)
    ∷ (m +ℤ pos 3 -ℤ pos 12 *ℤ quot m 10)
    ∷ (b *ℤ pos 100)
    ∷ (b *ℤ pos 100 +ℤ d)
    ∷ (b *ℤ pos 100 +ℤ d -ℤ pos 4800)
    ∷ (b *ℤ pos 100 +ℤ d -ℤ pos 4800 +ℤ quot m 10)
    ∷ []

-- `k_julian_day_of_1970_01_01`.
unfoldable pub julian_day_of_1970_01_01 : ℤ
unfolding get_julian_day_number
julian_day_of_1970_01_01 = get_julian_day_number (pos 1970) (pos 1) (pos 1)

pub record Date : Type 0 where
  pub julian_day_number : ℤ

unfoldable pub date_of : ℤ → ℤ → ℤ → Date
unfolding get_julian_day_number
date_of y m d = record { julian_day_number = get_julian_day_number y m d }

pub valid : Date → Bool
valid t = ltb_ℤ (pos 0) t.julian_day_number

unfoldable pub year_month_day : Date → YearMonthDay
unfolding get_year_month_day
year_month_day t = get_year_month_day t.julian_day_number

pub year : Date → ℤ
unfolding year_month_day
year t = (year_month_day t).year

pub month : Date → ℤ
unfolding year_month_day
month t = (year_month_day t).month

pub day : Date → ℤ
unfolding year_month_day
day t = (year_month_day t).day

unfoldable pub week_day : Date → ℤ
week_day t = rem (t.julian_day_number +ℤ pos 1) 7

-- `operator<` and `operator==`.
pub lt_date : Date → Date → Bool
lt_date x y = ltb_ℤ x.julian_day_number y.julian_day_number

pub eq_date : Date → Date → Bool
eq_date x y = eqb_ℤ x.julian_day_number y.julian_day_number
