-- ===== src/LogStream/Iec.antt =====
-- The scale of `formatIEC` (base/log_stream.cpp). A bound of the code is a double times a power of 1024; the doubles
-- nearest to 9.995 and 99.95 are written as fractions, so the comparisons are exact.
use my_chat_respons.Common.{
  ℕ, zero, suc, inl, inr, ap, ◌∙◌, ◌*◌, ◌^◌, ◌≤◌, ◌<◌, ◌≡◌, ◌⊎◌, Bool, Option, none, some, ltb,
  if◌then◌else◌, arith, refl, false, Bool-cases,
}
use my_chat_respons.Common.Int.{ℤ, pos, negsuc}
use native.Mathlib.Nat.{pow-suc}

-- Below 9.995, 99.95 and 1023.5 of a unit.
abbrev below_ten : ℕ → ℕ → Bool
below_ten n unit = ltb (n * 2 ^ 49) (5626684784446013 * unit)

abbrev below_hundred : ℕ → ℕ → Bool
below_hundred n unit = ltb (n * 2 ^ 46) (7033355980557517 * unit)

abbrev below_thousand : ℕ → ℕ → Bool
below_thousand n unit = ltb (n * 2) (2047 * unit)

-- The tests of `formatIEC` from that against 9.995 units on, for a count of at least 1024.
unfoldable pub format_large : ℕ → Option (ℕ × ℕ)
format_large n =
    if below_ten n (1024 ^ 1)
    then some (2, 1)
    else if below_hundred n (1024 ^ 1)
    then some (1, 1)
    else if below_thousand n (1024 ^ 1)
    then some (0, 1)
    else if below_ten n (1024 ^ 2)
    then some (2, 2)
    else if below_hundred n (1024 ^ 2)
    then some (1, 2)
    else if below_thousand n (1024 ^ 2)
    then some (0, 2)
    else if below_ten n (1024 ^ 3)
    then some (2, 3)
    else if below_hundred n (1024 ^ 3)
    then some (1, 3)
    else if below_thousand n (1024 ^ 3)
    then some (0, 3)
    else if below_ten n (1024 ^ 4)
    then some (2, 4)
    else if below_hundred n (1024 ^ 4)
    then some (1, 4)
    else if below_thousand n (1024 ^ 4)
    then some (0, 4)
    else if below_ten n (1024 ^ 5)
    then some (2, 5)
    else if below_hundred n (1024 ^ 5)
    then some (1, 5)
    else if below_thousand n (1024 ^ 5)
    then some (0, 5)
    else if below_ten n (1024 ^ 6)
    then some (2, 6)
    else some (1, 6)

-- What the conversion to `double` gives: a number of at most 53 bits, times a power of two.
abbrev pub IsDouble : ℕ → Type 0
IsDouble n = (m : ℕ) × (e : ℕ) × (m < 2 ^ 53) × (n ≡ m * 2 ^ e)

-- A large double is a multiple of four.
quarter : (n : ℕ) → IsDouble n → (n < 2 ^ 55) ⊎ ((k : ℕ) × (n ≡ 4 * k))
quarter n (m, zero, small, e) = inl (omega arith)
quarter n (m, suc zero, small, e) = inl (omega arith)
quarter n (m, suc (suc s), small, e) = inr (
  m * 2 ^ s,
  e ∙ ap (λ k. m * k) (pow-suc 2 (suc s) ∙ ap (λ k. k * 2) (pow-suc 2 s)) ∙ four m (2 ^ s),
)
  where
    four : (a b : ℕ) → a * (b * 2 * 2) ≡ 4 * (a * b)
    four a b = omega arith

-- How `formatIEC` writes a count that is `v` as a double: decimals, and the power of 1024 that is the unit. A
-- count below 1024 is written as it is, with all its digits.
unfoldable pub format_iec : ℤ → Option (ℕ × ℕ)
unfolding format_large
format_iec (negsuc n) = none
format_iec (pos n) = if ltb n 1024 then none else format_large n

-- What a way of writing is for a count: all digits, for one below 1024, or some decimals of a unit.
abbrev pub Shown : ℤ → Option (ℕ × ℕ) → Type 0
Shown v none = (n : ℕ) × ((v ≡ negsuc n) ⊎ ((v ≡ pos n) × (n < 1024)))
Shown v (some (decimals, unit)) =
    (n : ℕ) × (v ≡ pos n)
    × (1024 ≤ n)
    × (2047 * 1024 ^ unit ≤ 2048 * n)
    × (((decimals ≡ 2) × (2 * n * 10 ^ decimals < 1999 * 1024 ^ unit))
        ⊎ ((decimals ≡ 1) × (2 * n * 10 ^ decimals < 1999 * 1024 ^ unit))
        ⊎ ((decimals ≡ 0) × (2 * n < 2047 * 1024 ^ unit)))

format_large-Shown :
    (n : ℕ) → IsDouble n → n ≤ 2 ^ 63 → ltb n 1024 ≡ false → Shown (pos n) (format_large n)
unfolding format_large
format_large-Shown n double top large = elim (quarter n double) [
  | inl small ↦ ground arith
  | inr (k, four) ↦ ground arith
]

abbrev pub absolute : ℤ → ℕ
absolute (pos n) = n
absolute (negsuc n) = suc n

-- A count that is a double of absolute value at most 2 ^ 63, as that of every int64_t is: below 1024, the negative
-- ones included, it is written as it is, with all its digits. From 1024 on it is shown in a unit of which it is
-- at least 1023.5 / 1024, and, rounded to the decimals, it is below 10 with two of them, below 100 with
-- one, and below 1024 with none: four digits at most.
pub format_iec-Shown :
    (v : ℤ) → IsDouble (absolute v) → absolute v ≤ 2 ^ 63 → Shown v (format_iec v)
unfolding format_iec
format_iec-Shown (negsuc n) double top = (n, inl refl)
format_iec-Shown (pos n) double top = elim (Bool-cases (ltb n 1024)) [
  | inl few ↦ simp few (n, inr (refl, ground arith))
  | inr many ↦ simp many (format_large-Shown n double top many)
]
