-- ===== src/LogStream/Hex.antt =====
-- `convert_hex` and the pointers of a log line (base/log_stream.cpp).
use my_chat_respons.Common.{
  ℕ, zero, suc, ◌+◌, ◌-◌, ◌*◌, ◌/◌, ◌%◌, ◌^◌, ◌≤◌, ◌<◌, ◌≡◌, refl, ap, ◌∙◌, inl, inr, true, Option,
  none, some, List, [], ◌∷◌, ◌++◌, reverse, arith, ◌==◌, leb, if◌then◌else◌, Bool-cases, length,
  get_or, length-append, Outcome, ok, fault, Returns,
}
use mathlib.Core.Option
use native.Mathlib.Nat.{pow-suc, mul_comm}
use mathlib.Core.List.{reverse-cons}
use my_chat_respons.LogStream.{FixBuffer, avail, max_num_size}

-- The table `digitsHex`.
abbrev digits_hex : List ℕ
digits_hex =
    b'0' ∷ b'1' ∷ b'2' ∷ b'3' ∷ b'4' ∷ b'5' ∷ b'6' ∷ b'7' ∷ b'8' ∷ b'9' ∷ b'A' ∷ b'B' ∷ b'C' ∷ b'D'
    ∷ b'E' ∷ b'F' ∷ []

-- The loop of `convert_hex`, with the bytes in the order in which they are written.
unfoldable pub convert_hex_loop : ℕ → ℕ → Option (List ℕ)
convert_hex_loop zero i = none
convert_hex_loop (suc fuel) i =
    let rest = convert_hex_loop fuel (i / 16) in
    let c = get_or digits_hex (i % 16) 0 in
    if i / 16 == 0 then some (c ∷ []) else Option.map (λ ds. c ∷ ds) rest

-- A 64-bit value has at most 16 digits.
unfoldable pub convert_hex : ℕ → Option (List ℕ)
convert_hex value = Option.map reverse (convert_hex_loop 16 value)

-- `operator<<(const void *)`: without room it comes to its end without a `return`.
unfoldable pub put_pointer : ℕ → FixBuffer → Outcome FixBuffer
unfolding avail
put_pointer v b =
    if leb max_num_size (avail b)
    then elim (convert_hex v) [
      | none ↦ fault
      | some t ↦ ok (record b { text = b.text ++ (b'0' ∷ b'x' ∷ t) })
    ]
    else fault

-- What a digit stands for, and the number that digits stand for, read from the left.
pub hex_value : ℕ → ℕ
hex_value c = if leb c b'9' then c - b'0' else c - 55

pub hexadecimal : ℕ → List ℕ → ℕ
hexadecimal acc [] = acc
hexadecimal acc (c ∷ cs) = hexadecimal (acc * 16 + hex_value c) cs

abbrev little : List ℕ → ℕ
little [] = 0
little (c ∷ cs) = hex_value c + 16 * little cs

table : (r : ℕ) → r < 16 → hex_value (get_or digits_hex r 0) ≡ r
unfolding hex_value
table zero h = refl
table (suc zero) h = refl
table (suc (suc zero)) h = refl
table (suc (suc (suc zero))) h = refl
table (suc (suc (suc (suc zero)))) h = refl
table (suc (suc (suc (suc (suc zero))))) h = refl
table (suc (suc (suc (suc (suc (suc zero)))))) h = refl
table (suc (suc (suc (suc (suc (suc (suc zero))))))) h = refl
table (suc (suc (suc (suc (suc (suc (suc (suc zero)))))))) h = refl
table (suc (suc (suc (suc (suc (suc (suc (suc (suc zero))))))))) h = refl
table (suc (suc (suc (suc (suc (suc (suc (suc (suc (suc zero)))))))))) h = refl
table (suc (suc (suc (suc (suc (suc (suc (suc (suc (suc (suc zero))))))))))) h = refl
table (suc (suc (suc (suc (suc (suc (suc (suc (suc (suc (suc (suc zero)))))))))))) h = refl
table (suc (suc (suc (suc (suc (suc (suc (suc (suc (suc (suc (suc (suc zero))))))))))))) h = refl
table (suc (suc (suc (suc (suc (suc (suc (suc (suc (suc (suc (suc (suc (suc zero)))))))))))))) h =
    refl
table (suc (suc (suc (suc (suc (suc (suc (suc (suc (suc (suc (suc (suc (suc (suc zero)))))))))))))))
      h =
    refl
table
      (suc
        (suc (suc (suc (suc (suc (suc (suc (suc (suc (suc (suc (suc (suc (suc (suc n))))))))))))))))
      h =
    absurd (omega arith)

fuel_left : (fuel n : ℕ) → n < 16 ^ fuel → 0 < n → 0 < fuel
fuel_left zero n h k = absurd (omega arith)
fuel_left (suc fuel) n h k = omega arith

pow_step : (fuel : ℕ) → 16 ^ suc fuel ≡ 16 * 16 ^ fuel
pow_step fuel = pow-suc 16 fuel ∙ mul_comm (16 ^ fuel) 16

convert_hex_loop-little :
    (fuel i : ℕ)
    → i < 16 ^ fuel
    → 0 < fuel
    → (ds : List ℕ) × (convert_hex_loop fuel i ≡ some ds)
      × (little ds ≡ i)
      × (length ds ≤ fuel)
      × (0 < length ds)
unfolding convert_hex_loop
convert_hex_loop-little zero i h k = absurd (omega arith)
convert_hex_loop-little (suc fuel) i h k = elim (Bool-cases (i / 16 == 0)) [
  | inl t ↦ (
    get_or digits_hex (i % 16) 0 ∷ [],
    rw t refl,
    ground (arith, table (i % 16)),
    omega arith,
    omega arith,
  )
  | inr f ↦
      let more : 0 < i / 16 = ground arith in
      let bound : i / 16 < 16 ^ fuel = omega (arith, pow_step fuel) in
      let (ds, e, v, n, o) =
        convert_hex_loop-little fuel (i / 16) bound (fuel_left fuel (i / 16) bound more) in
      (
        get_or digits_hex (i % 16) 0 ∷ ds,
        rw (f, e) refl,
        omega (arith, table (i % 16) (omega arith), v),
        omega arith,
        omega arith,
      )
]

hexadecimal-append :
    (acc : ℕ) (xs ys : List ℕ) → hexadecimal acc (xs ++ ys) ≡ hexadecimal (hexadecimal acc xs) ys
unfolding hexadecimal
hexadecimal-append acc [] ys = refl
hexadecimal-append acc (x ∷ xs) ys = hexadecimal-append (acc * 16 + hex_value x) xs ys

hexadecimal-reverse : (ds : List ℕ) → hexadecimal 0 (reverse ds) ≡ little ds
unfolding hexadecimal
hexadecimal-reverse [] = refl
hexadecimal-reverse (c ∷ cs) =
    ap (hexadecimal 0) (reverse-cons c cs)
    ∙ hexadecimal-append 0 (reverse cs) (c ∷ [])
    ∙ omega (arith, hexadecimal-reverse cs)

length-reverse : (xs : List ℕ) → length (reverse xs) ≡ length xs
length-reverse [] = refl
length-reverse (x ∷ xs) =
    omega
      (arith, ap length (reverse-cons x xs), length-append (reverse xs) (x ∷ []), length-reverse xs)

-- The loop of `convert_hex` ends for every pointer, with the digits of its address, of which there are one to 16.
convert_hex-hexadecimal :
    (v : ℕ)
    → v < 2 ^ 64
    → (t : List ℕ) × (convert_hex v ≡ some t)
      × (hexadecimal 0 t ≡ v)
      × (0 < length t)
      × (length t ≤ 16)
unfolding convert_hex
convert_hex-hexadecimal v h =
    let (ds, e, value, n, o) = convert_hex_loop-little 16 v (omega arith) (omega arith) in
    let size = length-reverse ds in
    (reverse ds, rw e refl, hexadecimal-reverse ds ∙ value, omega arith, omega arith)

-- With room for a number, a pointer is written as 0x and the digits of its address, in 18 bytes at most, which leave a place
-- of the buffer free.
put_pointer-hexadecimal :
    (v : ℕ) (b : FixBuffer)
    → v < 2 ^ 64
    → max_num_size ≤ avail b
    → Returns
        (λ c.
          (t : List ℕ) × (c.text ≡ b.text ++ (b'0' ∷ b'x' ∷ t))
          × (hexadecimal 0 t ≡ v)
          × (length c.text ≤ length b.text + 18)
          × (0 < avail c))
        (put_pointer v b)
unfolding put_pointer avail
put_pointer-hexadecimal v b h room =
    let (t, e, value, more, few) = convert_hex-hexadecimal v h in
    let size = length-append b.text (b'0' ∷ b'x' ∷ t) in
    let enough : leb max_num_size (b.size - length b.text) ≡ true = ground arith in
    simp (enough, e) (t, refl, value, omega arith, omega arith)
