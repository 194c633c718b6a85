-- ===== src/LogStream/Decimal.antt =====
-- `convert` (base/log_stream.cpp) writes the decimal text of every value of 64 bits.
use my_chat_respons.Common.{
  ℕ, zero, suc, ◌+◌, ◌-◌, ◌*◌, ◌/◌, ◌%◌, ◌^◌, ◌≤◌, ◌<◌, ◌≡◌, refl, ap, ◌∙◌, inl, inr, true, false,
  some, List, [], ◌∷◌, ◌++◌, reverse, arith, ◌==◌, if◌then◌else◌, Bool-cases, length, get_or,
  length-append,
}
use native.Mathlib.Nat.{pow-suc, mul_comm}
use mathlib.Core.List.{reverse-append, reverse-cons}
use my_chat_respons.Common.Int.{
  ℤ, pos, negsuc, quot, rem, ◌+ℤ◌, pos_part, neg_part, ltb_ℤ, eqb_ℤ, sub_ℕ, pos+ℤpos,
}
use my_chat_respons.LogStream.{digits, digit, convert_loop, convert, max_digits}

-- The number that decimal digits stand for, read from the left.
pub decimal : ℕ → List ℕ → ℕ
decimal acc [] = acc
decimal acc (c ∷ cs) = decimal (acc * 10 + (c - b'0')) cs

-- The integer that a text stands for.
pub read_text : List ℕ → ℤ
unfolding decimal
read_text [] = pos 0
read_text (c ∷ cs) = if c == b'-' then sub_ℕ 0 (decimal 0 cs) else pos (decimal 0 (c ∷ cs))

-- The digits in the order in which the loop writes them, the last first.
abbrev little : List ℕ → ℕ
little [] = 0
little (c ∷ cs) = (c - b'0') + 10 * little cs

abbrev abs : ℤ → ℕ
abs i = pos_part i + neg_part i

table_up : (r : ℕ) → r < 10 → get_or digits (9 + r) 0 ≡ b'0' + r
table_up zero h = refl
table_up (suc zero) h = refl
table_up (suc (suc zero)) h = refl
table_up (suc (suc (suc zero))) h = refl
table_up (suc (suc (suc (suc zero)))) h = refl
table_up (suc (suc (suc (suc (suc zero))))) h = refl
table_up (suc (suc (suc (suc (suc (suc zero)))))) h = refl
table_up (suc (suc (suc (suc (suc (suc (suc zero))))))) h = refl
table_up (suc (suc (suc (suc (suc (suc (suc (suc zero)))))))) h = refl
table_up (suc (suc (suc (suc (suc (suc (suc (suc (suc zero))))))))) h = refl
table_up (suc (suc (suc (suc (suc (suc (suc (suc (suc (suc n)))))))))) h = absurd (omega arith)

table_down : (r : ℕ) → r < 10 → get_or digits (9 - r) 0 ≡ b'0' + r
table_down zero h = refl
table_down (suc zero) h = refl
table_down (suc (suc zero)) h = refl
table_down (suc (suc (suc zero))) h = refl
table_down (suc (suc (suc (suc zero)))) h = refl
table_down (suc (suc (suc (suc (suc zero))))) h = refl
table_down (suc (suc (suc (suc (suc (suc zero)))))) h = refl
table_down (suc (suc (suc (suc (suc (suc (suc zero))))))) h = refl
table_down (suc (suc (suc (suc (suc (suc (suc (suc zero)))))))) h = refl
table_down (suc (suc (suc (suc (suc (suc (suc (suc (suc zero))))))))) h = refl
table_down (suc (suc (suc (suc (suc (suc (suc (suc (suc (suc n)))))))))) h = absurd (omega arith)

below_nine : (r : ℕ) → r < 10 → pos_part (pos 9 +ℤ sub_ℕ 0 r) ≡ 9 - r
unfolding ◌+ℤ◌
below_nine r h = ground arith

-- One round: the digit of the remainder, whatever the sign, and a tenth of the rest.
digit-rem : (i : ℤ) → digit (rem i 10) ≡ b'0' + abs i % 10
unfolding digit rem
digit-rem (pos n) =
    ap (λ z. get_or digits (pos_part z) 0) (pos+ℤpos 9 (n % 10))
    ∙ table_up (n % 10) (omega arith)
    ∙ omega arith
digit-rem (negsuc n) =
    ap (λ k. get_or digits k 0) (below_nine (suc n % 10) (omega arith))
    ∙ table_down (suc n % 10) (omega arith)
    ∙ omega arith

abs-quot : (i : ℤ) → abs (quot i 10) ≡ abs i / 10
unfolding quot
abs-quot i = ground arith

abbrev AllDigits : List ℕ → Type 0
AllDigits [] = Unit {0}
AllDigits (c ∷ cs) = (b'0' ≤ c) × (c ≤ b'9') × AllDigits cs

last_round : (i : ℤ) → eqb_ℤ (quot i 10) (pos 0) ≡ true → abs i < 10
last_round i t = omega (arith, abs-quot i, no_tens (quot i 10) t)
  where
    no_tens : (j : ℤ) → eqb_ℤ j (pos 0) ≡ true → abs j ≡ 0
    no_tens j e = ground arith

another_round : (j : ℤ) → eqb_ℤ j (pos 0) ≡ false → 0 < abs j
another_round j f = ground arith

pow_step : (fuel : ℕ) → 10 ^ suc fuel ≡ 10 * 10 ^ fuel
pow_step fuel = pow-suc 10 fuel ∙ mul_comm (10 ^ fuel) 10

fuel_left : (fuel n : ℕ) → n < 10 ^ fuel → 0 < n → 0 < fuel
fuel_left zero n h k = absurd (omega arith)
fuel_left (suc fuel) n h k = omega arith

-- With fuel for its digits the loop writes the digits of the absolute value, one at least.
convert_loop-little :
    (fuel : ℕ) (i : ℤ)
    → abs i < 10 ^ fuel
    → 0 < fuel
    → (ds : List ℕ) × (convert_loop fuel i ≡ some ds)
      × (little ds ≡ abs i)
      × AllDigits ds
      × (length ds ≤ fuel)
      × (0 < length ds)
unfolding convert_loop
convert_loop-little zero i h k = elim k [ ]
convert_loop-little (suc fuel) i h k = elim (Bool-cases (eqb_ℤ (quot i 10) (pos 0))) [
  | inl t ↦
      let small : abs i < 10 = last_round i t in
      let d = digit-rem i in
      (
        digit (rem i 10) ∷ [],
        rw t,
        omega (arith, d),
        (omega (arith, d), omega (arith, d), tt),
        omega arith,
        omega arith,
      )
  | inr f ↦
      let q = abs-quot i in
      let more : 0 < abs (quot i 10) = another_round (quot i 10) f in
      let bound : abs (quot i 10) < 10 ^ fuel = omega (arith, q, pow_step fuel) in
      let (ds, e, v, a, n, o) =
        convert_loop-little fuel (quot i 10) bound (fuel_left fuel (abs (quot i 10)) bound more) in
      let d = digit-rem i in
      (
        digit (rem i 10) ∷ ds,
        rw (f, e),
        omega (arith, d, v, q),
        (omega (arith, d), omega (arith, d), a),
        omega arith,
        omega arith,
      )
]

decimal-append : (acc : ℕ) (xs ys : List ℕ) → decimal acc (xs ++ ys) ≡ decimal (decimal acc xs) ys
unfolding decimal
decimal-append acc [] ys = refl
decimal-append acc (x ∷ xs) ys = decimal-append (acc * 10 + (x - b'0')) xs ys

decimal-reverse : (ds : List ℕ) → decimal 0 (reverse ds) ≡ little ds
unfolding decimal
decimal-reverse [] = refl
decimal-reverse (c ∷ cs) =
    ap (decimal 0) (reverse-cons c cs)
    ∙ decimal-append 0 (reverse cs) (c ∷ [])
    ∙ omega (arith, decimal-reverse cs)

AllDigits-append : (xs ys : List ℕ) → AllDigits xs → AllDigits ys → AllDigits (xs ++ ys)
AllDigits-append [] ys a b = b
AllDigits-append (x ∷ xs) ys a b = (a.0, a.1, AllDigits-append xs ys a.2 b)

AllDigits-reverse : (ds : List ℕ) → AllDigits ds → AllDigits (reverse ds)
AllDigits-reverse [] a = tt
AllDigits-reverse (c ∷ cs) a =
    rw (reverse-cons c cs)
      (AllDigits-append (reverse cs) (c ∷ []) (AllDigits-reverse cs a.2) (a.0, a.1, tt))

length-reverse : (xs : List ℕ) → length (reverse xs) ≡ length xs
length-reverse [] = refl
length-reverse (x ∷ xs) =
    omega
      (arith, ap length (reverse-cons x xs), length-append (reverse xs) (x ∷ []), length-reverse xs)

read_text-digits : (t : List ℕ) → AllDigits t → read_text t ≡ pos (decimal 0 t)
unfolding read_text
read_text-digits [] a = refl
read_text-digits (c ∷ cs) a = ground arith

read_text-minus : (t : List ℕ) → read_text (b'-' ∷ t) ≡ sub_ℕ 0 (decimal 0 t)
unfolding read_text
read_text-minus t = refl

reverse_minus : (ds : List ℕ) → reverse (ds ++ (b'-' ∷ [])) ≡ b'-' ∷ reverse ds
reverse_minus ds = reverse-append ds (b'-' ∷ [])

-- `convert` on an integer of absolute value below 10 ^ 20, which every 64-bit value has: the loop ends, the text reads as
-- that integer, and it has at most 21 bytes, fewer than `k_max_num_size`.
pub convert-read_text :
    (v : ℤ)
    → pos_part v + neg_part v < 10 ^ 20
    → (t : List ℕ) × (convert v ≡ some t) × (read_text t ≡ v) × (length t ≤ 21)
unfolding convert
convert-read_text (pos n) h =
    let (ds, e, value, a, l, _) = convert_loop-little max_digits (pos n) h (omega arith) in
    (
      reverse ds,
      rw e (no_sign n ds),
      read_text-digits (reverse ds) (AllDigits-reverse ds a)
          ∙ ap pos (decimal-reverse ds ∙ value ∙ plus_zero n),
      omega (arith, length-reverse ds),
    )
  where
    plus_zero : (n : ℕ) → n + 0 ≡ n
    plus_zero n = omega arith

    no_sign :
        (n : ℕ) (ds : List ℕ)
        → some (reverse (if ltb_ℤ (pos n) (pos 0) then ds ++ (b'-' ∷ []) else ds))
          ≡ some (reverse ds)
    no_sign n ds = ground arith
convert-read_text (negsuc n) h =
    let (ds, e, value, a, l, _) = convert_loop-little max_digits (negsuc n) h (omega arith) in
    (
      b'-' ∷ reverse ds,
      rw e (signed n ds),
      read_text-minus (reverse ds) ∙ ap (sub_ℕ 0) (decimal-reverse ds ∙ value) ∙ whole n,
      omega (arith, length-reverse ds),
    )
  where
    signed :
        (n : ℕ) (ds : List ℕ)
        → some (reverse (if ltb_ℤ (negsuc n) (pos 0) then ds ++ (b'-' ∷ []) else ds))
          ≡ some (b'-' ∷ reverse ds)
    signed n ds = ground (arith, reverse_minus ds)

    whole : (n : ℕ) → sub_ℕ 0 (0 + suc n) ≡ negsuc n
    whole n = ground arith
