-- ===== src/Date/Calendar.antt =====
-- base/date.cpp against the Gregorian calendar: the two conversions undo one another.
use my_chat_respons.Common.{
  ℕ, zero, suc, ◌+◌, ◌-◌, ◌*◌, ◌/◌, ◌%◌, ◌≤◌, ◌<◌, ◌≡◌, ◌∙◌, ◌≢◌, Bool, true, not, ◌&&◌, ◌||◌,
  arith, ◌==◌, if◌then◌else◌,
}
use native.Mathlib.Decide.{ℕ_discrete}
use my_chat_respons.Common.Int.{ℤ, pos, ◌+ℤ◌, ◌-ℤ◌, pos-ℤpos, pos-eq, pos_laws, pos-ℤ+ℤpos, AllInt}
use my_chat_respons.Date.{
  YearMonthDay, get_julian_day_number, get_year_month_day, julian_steps, date_steps,
}
use my_chat_respons.Date.Ranges.{julian_steps-AllInt, date_steps-AllInt}
use my_chat_respons.Date.Cycles.{
  days_before_year, days_before_month, century_split, year_split, month_split,
}

-- The calendar, written down independently of the conversions.
unfoldable pub is_leap : ℕ → Bool
is_leap y = ((y % 4 == 0) && not (y % 100 == 0)) || (y % 400 == 0)

unfoldable pub days_in_month : ℕ → ℕ → ℕ
days_in_month y m =
    if m == 2
    then (if is_leap y then 29 else 28)
    else (if (m == 11) || (m == 9) || (m == 6) || (m == 4) then 30 else 31)

-- The count of months from March, and the year that it belongs to, from the year -4800.
abbrev shift : ℕ → ℕ
shift m = (14 - m) / 12

abbrev march_month : ℕ → ℕ
march_month m = m + 12 * shift m - 3

abbrev march_year : ℕ → ℕ → ℕ
march_year y m = y + 4800 - shift m

pub get_julian_day_number-pos :
    (y m d : ℕ)
    → 1 ≤ m
    → m ≤ 12
    → get_julian_day_number (pos y) (pos m) (pos d)
      ≡ pos (d + days_before_month (march_month m) + days_before_year (march_year y m) - 32045)
unfolding get_julian_day_number
get_julian_day_number-pos y m d lo hi = rw (pos-ℤpos 14 m (omega arith)) (
    simp pos_laws (
      rw (pos-ℤpos (y + 4800) (shift m) (omega arith), pos-ℤpos (m + 12 * shift m) 3 (omega arith))
        (simp pos_laws (
          rw (pos-ℤpos (d + days_before_month mi + py * 365 + py / 4) (py / 100) (omega arith)) (
            simp pos_laws (
              rw
                (pos-ℤpos (d + days_before_month mi + py * 365 + py / 4 - py / 100 + py / 400) 32045
                  (omega arith))
                (pos-eq _ _ (omega arith))))))))
  where
    mi : ℕ
    mi = march_month m

    py : ℕ
    py = march_year y m

-- The steps of the way back, over natural numbers.
abbrev century : ℕ → ℕ
century a = (4 * a + 3) / 146097

abbrev in_century : ℕ → ℕ
in_century a = a - (century a * 146097) / 4

abbrev year_in : ℕ → ℕ
year_in a = (4 * in_century a + 3) / 1461

abbrev in_year : ℕ → ℕ
in_year a = in_century a - (1461 * year_in a) / 4

abbrev month_in : ℕ → ℕ
month_in a = (5 * in_year a + 2) / 153

get_year_month_day-pos :
    (j : ℕ)
    → let a = j + 32044 in
      get_year_month_day (pos j) ≡ record {
        day = pos (in_year a - days_before_month (month_in a) + 1);
        month = pos (month_in a + 3 - 12 * (month_in a / 10));
        year = pos (century a * 100 + year_in a) -ℤ pos 4800 +ℤ pos (month_in a / 10);
      }
unfolding get_year_month_day
get_year_month_day-pos j =
    let a = j + 32044 in
    simp pos_laws (
      rw (pos-ℤpos a ((century a * 146097) / 4) (omega arith)) (
        simp pos_laws (
          rw (pos-ℤpos (in_century a) ((1461 * year_in a) / 4) (omega arith)) (
            simp pos_laws (
              rw
                (
                  pos-ℤpos (in_year a) (days_before_month (month_in a)) (omega arith),
                  pos-ℤpos (month_in a + 3) (12 * (month_in a / 10)) (omega arith),
                )
                (simp pos_laws))))))

abbrev days_before : ℕ → ℕ → ℕ → ℕ
days_before py mi k = days_before_year py + days_before_month mi + k

-- A day is found again from the number of days before it.
module _ (py mi k : ℕ) (is_month : mi ≤ 11)
    (in_the_month : k + days_before_month mi < days_before_month (mi + 1))
    (in_the_year : days_before_year py + days_before_month mi + k < days_before_year (py + 1)) where
  century-total :
      (century (days_before py mi k) ≡ py / 100)
      × (in_century (days_before py mi k)
          ≡ 365 * (py % 100) + py % 100 / 4 + (days_before_month mi + k))
  century-total =
      let c = 365 * (py % 100) + py % 100 / 4 + (days_before_month mi + k) in
      let e : days_before py mi k ≡ 36524 * (py / 100) + py / 100 / 4 + c = omega arith in
      rw e (omega (arith, century_split (py / 100) c (omega arith)))

  year-total :
      (year_in (days_before py mi k) ≡ py % 100)
      × (in_year (days_before py mi k) ≡ days_before_month mi + k)
  year-total =
      omega (arith, century-total, year_split (py % 100) (days_before_month mi + k) (omega arith))

  month-total : month_in (days_before py mi k) ≡ mi
  month-total = rw (year-total.1) (month_split mi k is_month in_the_month)

common_year : (py : ℕ) → days_before_year py + 365 ≤ days_before_year (py + 1)
common_year py = omega arith

leap_year :
    (y : ℕ) → is_leap y ≡ true → days_before_year (y + 4799) + 366 ≤ days_before_year (y + 4800)
unfolding is_leap
leap_year y h = ground arith

february :
    (y d : ℕ)
    → 1 ≤ d
    → d ≤ (if is_leap y then 29 else 28)
    → (d ≤ 29) × (days_before_year (y + 4799) + 337 + (d - 1) < days_before_year (y + 4800))
february y d one last = ground (arith, leap_year y, common_year (y + 4799))

-- The longest that a month can be, and that it fits its place among the months from March.
abbrev longest : ℕ → ℕ
longest m = if m == 2 then 29 else if (m == 4) || (m == 6) || (m == 9) || (m == 11) then 30 else 31

days_in_month-le : (y m : ℕ) → days_in_month y m ≤ longest m
unfolding days_in_month
days_in_month-le y m = ground arith

pub days_in_month-most : (y m : ℕ) → days_in_month y m ≤ 31
unfolding days_in_month
days_in_month-most y m = ground arith

month_fits :
    (m : ℕ)
    → 1 ≤ m
    → m ≤ 12
    → longest m + days_before_month (march_month m) ≤ days_before_month (march_month m + 1)
month_fits zero lo hi = absurd (omega arith)
month_fits (suc zero) lo hi = omega arith
month_fits (suc (suc zero)) lo hi = omega arith
month_fits (suc (suc (suc zero))) lo hi = omega arith
month_fits (suc (suc (suc (suc zero)))) lo hi = omega arith
month_fits (suc (suc (suc (suc (suc zero))))) lo hi = omega arith
month_fits (suc (suc (suc (suc (suc (suc zero)))))) lo hi = omega arith
month_fits (suc (suc (suc (suc (suc (suc (suc zero))))))) lo hi = omega arith
month_fits (suc (suc (suc (suc (suc (suc (suc (suc zero)))))))) lo hi = omega arith
month_fits (suc (suc (suc (suc (suc (suc (suc (suc (suc zero))))))))) lo hi = omega arith
month_fits (suc (suc (suc (suc (suc (suc (suc (suc (suc (suc zero)))))))))) lo hi = omega arith
month_fits (suc (suc (suc (suc (suc (suc (suc (suc (suc (suc (suc zero))))))))))) lo hi =
    omega arith
month_fits (suc (suc (suc (suc (suc (suc (suc (suc (suc (suc (suc (suc zero)))))))))))) lo hi =
    omega arith
month_fits (suc (suc (suc (suc (suc (suc (suc (suc (suc (suc (suc (suc (suc n))))))))))))) lo hi =
    absurd (omega arith)

-- Every month but February ends before the last month from March begins.
before_february : (m : ℕ) → 1 ≤ m → m ≤ 12 → m ≢ 2 → days_before_month (march_month m + 1) ≤ 337
before_february m lo hi h = omega arith

fits_year : (p q a b : ℕ) → a + b < 365 → p + 365 ≤ q → p + a + b < q
fits_year p q a b h k = omega arith

-- A day of the calendar lies in its month and in its year, as these are counted from March.
valid-day :
    (y m d : ℕ)
    → 1 ≤ m
    → m ≤ 12
    → 1 ≤ d
    → d ≤ days_in_month y m
    → (march_month m ≤ 11)
      × (d - 1 + days_before_month (march_month m) < days_before_month (march_month m + 1))
      × (days_before_year (march_year y m) + days_before_month (march_month m) + (d - 1)
          < days_before_year (march_year y m + 1))
unfolding days_in_month is_leap
valid-day y m d lo hi one last = (
  omega arith,
  omega (arith, month_fits m lo hi, days_in_month-le y m),
  elim (ℕ_discrete m 2) [
    | yes e ↦ rw e (omega (arith, february y d one (rw e at last)))
    | no ne ↦
        fits_year (days_before_year (march_year y m)) (days_before_year (march_year y m + 1))
          (days_before_month (march_month m)) (d - 1)
          (omega (arith, month_fits m lo hi, days_in_month-le y m, before_february m lo hi ne))
          (common_year (march_year y m))
  ],
)

same_date :
    {y m d y' m' d' : ℤ}
    → y ≡ y'
    → m ≡ m'
    → d ≡ d'
    → ◌≡◌ {A = YearMonthDay}
        (record { year = y; month = m; day = d })
        (record { year = y'; month = m'; day = d' })
same_date p q r = λ i. record { year = p i; month = q i; day = r i }

-- The fields that the way back computes, from what it finds.
fields_back :
    (c yi e mi y m d : ℕ)
    → 1 ≤ m
    → m ≤ 12
    → 1 ≤ d
    → c * 100 + yi ≡ march_year y m
    → e ≡ days_before_month mi + (d - 1)
    → mi ≡ march_month m
    → ◌≡◌ {A = YearMonthDay}
        (record {
          year = pos (c * 100 + yi) -ℤ pos 4800 +ℤ pos (mi / 10);
          month = pos (mi + 3 - 12 * (mi / 10));
          day = pos (e - days_before_month mi + 1);
        })
        (record { year = pos y; month = pos m; day = pos d })
fields_back c yi e mi y m d lo hi one hy he hm =
    same_date (pos-ℤ+ℤpos (c * 100 + yi) 4800 (mi / 10) (omega arith) ∙ pos-eq _ _ (omega arith))
      (pos-eq _ _ (omega arith)) (pos-eq _ _ (omega arith))

-- The days, without the limits of `int`.
back_again :
    (y m d : ℕ)
    → 1 ≤ m
    → m ≤ 12
    → 1 ≤ d
    → d ≤ days_in_month y m
    → get_year_month_day (get_julian_day_number (pos y) (pos m) (pos d))
      ≡ record { year = pos y; month = pos m; day = pos d }
back_again y m d lo hi one last =
    let mi = march_month m in
    let py = march_year y m in
    let (a, b, c) = valid-day y m d lo hi one last in
    let j = d + days_before_month mi + days_before_year py - 32045 in
    let e : j + 32044 ≡ days_before py mi (d - 1) = omega arith in
    rw (get_julian_day_number-pos y m d lo hi, get_year_month_day-pos j)
      (fields_back (century (j + 32044)) (year_in (j + 32044)) (in_year (j + 32044))
        (month_in (j + 32044)) y m d lo hi one
        (rw e (omega (arith, century-total py mi (d - 1) a b c, year-total py mi (d - 1) a b c)))
        (rw e (rw (month-total py mi (d - 1) a b c) ((year-total py mi (d - 1) a b c).1)))
        (rw e (month-total py mi (d - 1) a b c)))

-- From the year 0 to the year 1400000, every day of the calendar is the date of its own Julian day number, and every
-- value that the two conversions compute on the way is one of `int`.
pub year_month_day-julian :
    (y m d : ℕ)
    → y ≤ 1400000
    → 1 ≤ m
    → m ≤ 12
    → 1 ≤ d
    → d ≤ days_in_month y m
    → (get_year_month_day (get_julian_day_number (pos y) (pos m) (pos d))
        ≡ record { year = pos y; month = pos m; day = pos d })
      × AllInt (julian_steps (pos y) (pos m) (pos d))
      × AllInt (date_steps (get_julian_day_number (pos y) (pos m) (pos d)))
year_month_day-julian y m d far lo hi one last =
    let short : d ≤ 31 = omega (arith, last, days_in_month-most y m) in
    (
      back_again y m d lo hi one last,
      julian_steps-AllInt y m d far lo hi short,
      rw (get_julian_day_number-pos y m d lo hi) (date_steps-AllInt _ (omega arith)),
    )
