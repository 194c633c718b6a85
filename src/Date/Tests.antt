-- ===== src/Date/Tests.antt =====
-- A leap day of base/date.cpp.
use my_chat_respons.Common.{◌≡◌, arith}
use my_chat_respons.Common.Int.{pos, AllInt}
use my_chat_respons.Date.{get_julian_day_number, get_year_month_day, julian_steps, date_steps}
use my_chat_respons.Date.Calendar.{days_in_month, is_leap, year_month_day-julian}

year_month_day-julian_example :
    (get_year_month_day (get_julian_day_number (pos 2024) (pos 2) (pos 29))
      ≡ record { year = pos 2024; month = pos 2; day = pos 29 })
    × AllInt (julian_steps (pos 2024) (pos 2) (pos 29))
    × AllInt (date_steps (get_julian_day_number (pos 2024) (pos 2) (pos 29)))
year_month_day-julian_example =
    year_month_day-julian 2024 2 29 (omega arith) (omega arith) (omega arith) (omega arith)
      (unfold days_in_month is_leap in ground arith)
