-- ===== src/Date/Cycles.antt =====
-- The arithmetic behind the two conversions of base/date.cpp, over natural numbers: years run from
-- March, from the year -4800, and days from the first of them.
use my_chat_respons.Common.{ℕ, ◌+◌, ◌-◌, ◌*◌, ◌/◌, ◌≤◌, ◌<◌, ◌≡◌, arith}

-- How many days of 400 years, of 100, of 4, and of the months from March come before.
abbrev pub days_before_year : ℕ → ℕ
days_before_year y = y * 365 + y / 4 - y / 100 + y / 400

abbrev pub days_before_month : ℕ → ℕ
days_before_month m = (153 * m + 2) / 5

pub century_split :
    (b c : ℕ)
    → c ≤ 36523 + (b + 1) / 4 - b / 4
    → ((4 * (36524 * b + b / 4 + c) + 3) / 146097 ≡ b) × ((b * 146097) / 4 ≡ 36524 * b + b / 4)
century_split b c h = omega arith

pub year_split :
    (d e : ℕ)
    → e ≤ 364 + (d + 1) / 4 - d / 4
    → ((4 * (365 * d + d / 4 + e) + 3) / 1461 ≡ d) × ((1461 * d) / 4 ≡ 365 * d + d / 4)
year_split d e h = omega arith

pub month_split :
    (m k : ℕ)
    → m ≤ 11
    → k + days_before_month m < days_before_month (m + 1)
    → (5 * (days_before_month m + k) + 2) / 153 ≡ m
month_split m k h l = omega arith

pub days_before_year-split :
    (b d : ℕ) → d < 100 → days_before_year (100 * b + d) ≡ 36524 * b + b / 4 + (365 * d + d / 4)
days_before_year-split b d h = omega arith
