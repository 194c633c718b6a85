-- ===== src/Date/Ranges.antt =====
-- The conversions of base/date.cpp stay within `int`.
use my_chat_respons.Common.{ℕ, ◌+◌, ◌-◌, ◌*◌, ◌/◌, ◌≤◌, ◌<◌, ◌^◌, arith}
use my_chat_respons.Common.Int.{pos, ◌+ℤ◌, ◌-ℤ◌, pos-ℤpos, pos_laws, FitsInt, AllInt}
use my_chat_respons.Date.{julian_steps, date_steps}
use my_chat_respons.Date.Cycles.{days_before_month}

-- A year of the count from March, and its month.
abbrev shift : ℕ → ℕ
shift m = (14 - m) / 12

pub julian_steps-AllInt :
    (y m d : ℕ)
    → y ≤ 1400000
    → 1 ≤ m
    → m ≤ 12
    → d ≤ 31
    → AllInt (julian_steps (pos y) (pos m) (pos d))
unfolding julian_steps
julian_steps-AllInt y m d far lo hi last =
    let mi : ℕ = m + 12 * shift m - 3 in
    let py : ℕ = y + 4800 - shift m in
    rw (pos-ℤpos 14 m (omega arith)) (
      simp pos_laws (
        rw
          (pos-ℤpos (y + 4800) (shift m) (omega arith), pos-ℤpos (m + 12 * shift m) 3 (omega arith))
          (simp pos_laws (
            rw (pos-ℤpos (d + days_before_month mi + py * 365 + py / 4) (py / 100) (omega arith)) (
              simp pos_laws (
                rw
                  (pos-ℤpos (d + days_before_month mi + py * 365 + py / 4 - py / 100 + py / 400)
                    32045 (omega arith))
                  (omega arith)))))))

minus-FitsInt : (n : ℕ) → n < 2 ^ 31 → FitsInt (pos n -ℤ pos 4800)
unfolding ◌-ℤ◌
minus-FitsInt n h = ground arith

minus_plus-FitsInt : (n k : ℕ) → n < 2 ^ 30 → k < 2 ^ 30 → FitsInt (pos n -ℤ pos 4800 +ℤ pos k)
unfolding ◌-ℤ◌ ◌+ℤ◌
minus_plus-FitsInt n k h h' = ground arith

-- The steps of the way back, over natural numbers.
abbrev century : ℕ → ℕ
century a = (4 * a + 3) / 146097

abbrev in_century : ℕ → ℕ
in_century a = a - (century a * 146097) / 4

abbrev year_in : ℕ → ℕ
year_in a = (4 * in_century a + 3) / 1461

abbrev in_year : ℕ → ℕ
in_year a = in_century a - (1461 * year_in a) / 4

abbrev month_in : ℕ → ℕ
month_in a = (5 * in_year a + 2) / 153

pub date_steps-AllInt : (j : ℕ) → j ≤ 530000000 → AllInt (date_steps (pos j))
unfolding date_steps
date_steps-AllInt j far =
    let a = j + 32044 in
    let first : century a ≤ 14600 = omega arith in
    let small : in_century a ≤ 37000 = omega arith in
    let years : year_in a ≤ 110 = omega arith in
    let days : in_year a ≤ 37000 = omega arith in
    let months : month_in a ≤ 1300 = omega arith in
    let early = minus-FitsInt (century a * 100 + year_in a) (omega arith) in
    let shown =
      minus_plus-FitsInt (century a * 100 + year_in a) (month_in a / 10) (omega arith)
        (omega arith) in
    simp pos_laws (
      rw (pos-ℤpos a ((century a * 146097) / 4) (omega arith)) (
        simp pos_laws (
          rw (pos-ℤpos (in_century a) ((1461 * year_in a) / 4) (omega arith)) (
            simp pos_laws (
              rw
                (
                  pos-ℤpos (in_year a) (days_before_month (month_in a)) (omega arith),
                  pos-ℤpos (month_in a + 3) (12 * (month_in a / 10)) (omega arith),
                )
                (simp pos_laws (ground (arith, early, shown))))))))
