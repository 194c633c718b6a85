-- ===== src/LogStream.antt =====
-- base/log_stream.h and base/log_stream.cpp: the fixed buffer of a log line and the numbers that
-- are written to it. A text is the list of its bytes. Of the buffer's memory only the part before
-- `m_cur` is kept, since no operation reads the rest.
pub mod Decimal
pub mod Room
pub mod Hex
pub mod Iec
mod Tests
use my_chat_respons.Common.{
  ℕ, zero, suc, ◌-◌, Bool, Option, none, some, List, [], ◌∷◌, ◌++◌, map, reverse, ltb, leb,
  if◌then◌else◌, length, get_or,
}
use mathlib.Core.Option
use my_chat_respons.Common.Int.{ℤ, pos, quot, rem, ◌+ℤ◌, pos_part, ltb_ℤ, eqb_ℤ}

abbrev pub small_buffer : ℕ
small_buffer = 4000

abbrev pub max_num_size : ℕ
max_num_size = 48

pub record FixBuffer : Type 0 where
  pub size : ℕ
  pub text : List ℕ

unfoldable pub new_fix_buffer : ℕ → FixBuffer
new_fix_buffer size = record { size = size; text = [] }

unfoldable pub avail : FixBuffer → ℕ
avail b = b.size - length b.text

unfoldable pub append : List ℕ → FixBuffer → FixBuffer
unfolding avail
append xs b = if ltb (length xs) (avail b) then record b { text = b.text ++ xs } else b

unfoldable pub reset : FixBuffer → FixBuffer
reset b = record b { text = [] }

-- The table `digits`, and `zero[i]`, nine places into it.
abbrev digits : List ℕ
digits =
    b'9' ∷ b'8' ∷ b'7' ∷ b'6' ∷ b'5' ∷ b'4' ∷ b'3' ∷ b'2' ∷ b'1' ∷ b'0' ∷ b'1' ∷ b'2' ∷ b'3' ∷ b'4'
    ∷ b'5' ∷ b'6' ∷ b'7' ∷ b'8' ∷ b'9' ∷ []

digit : ℤ → ℕ
digit i = get_or digits (pos_part (pos 9 +ℤ i)) 0

-- The loop of `convert`, with the bytes in the order in which they are written. Fuel bounds the
-- rounds; `none` means that it ran out.
unfoldable pub convert_loop : ℕ → ℤ → Option (List ℕ)
unfolding digit
convert_loop zero i = none
convert_loop (suc fuel) i =
    let rest = convert_loop fuel (quot i 10) in
    let c = digit (rem i 10) in
    if eqb_ℤ (quot i 10) (pos 0) then some (c ∷ []) else Option.map (λ ds. c ∷ ds) rest

-- A 64-bit value has at most 20 digits.
abbrev pub max_digits : ℕ
max_digits = 20

unfoldable pub convert : ℤ → Option (List ℕ)
convert value =
    Option.map (λ ds. reverse (if ltb_ℤ value (pos 0) then ds ++ (b'-' ∷ []) else ds))
      (convert_loop max_digits value)

-- `format_integer`, behind `operator<<` for the integer types: the text is written when the room is
-- at least that of any number.
unfoldable pub format_integer : ℤ → FixBuffer → Option FixBuffer
unfolding avail
format_integer v b =
    if leb max_num_size (avail b)
    then Option.map (λ t. record b { text = b.text ++ t }) (convert v)
    else some b

-- `operator<<(bool)`.
unfoldable pub put_bool : Bool → FixBuffer → FixBuffer
put_bool v b = append ((if v then b'1' else b'0') ∷ []) b

-- `operator<<(const char *)`: null is `none`.
unfoldable pub put_text : Option (List ℕ) → FixBuffer → FixBuffer
put_text none b = append (b'(' ∷ b'n' ∷ b'u' ∷ b'l' ∷ b'l' ∷ b')' ∷ []) b
put_text (some s) b = append s b

-- How `formatSI` writes a count: decimals, and the power of ten that is the unit. A count below
-- 1000 is written as it is.
unfoldable pub format_si : ℕ → Option (ℕ × ℕ)
format_si s =
    if ltb s 1000
    then none
    else if ltb s 9995
    then some (2, 3)
    else if ltb s 99950
    then some (1, 3)
    else if ltb s 999500
    then some (0, 3)
    else if ltb s 9995000
    then some (2, 6)
    else if ltb s 99950000
    then some (1, 6)
    else if ltb s 999500000
    then some (0, 6)
    else if ltb s 9995000000
    then some (2, 9)
    else if ltb s 99950000000
    then some (1, 9)
    else if ltb s 999500000000
    then some (0, 9)
    else if ltb s 9995000000000
    then some (2, 12)
    else if ltb s 99950000000000
    then some (1, 12)
    else if ltb s 999500000000000
    then some (0, 12)
    else if ltb s 9995000000000000
    then some (2, 15)
    else if ltb s 99950000000000000
    then some (1, 15)
    else if ltb s 999500000000000000
    then some (0, 15)
    else some (2, 18)
