-- ===== src/StringPiece/Order.antt =====
-- The order of string pieces (base/string_piece.h).
use my_chat_respons.Common.{
  ℕ, suc, ◌<◌, ◌≤◌, ◌≡◌, ◌↔◌, refl, sym, ap, ◌∙◌, inl, inr, Bool, true, false, not, ◌&&◌, ◌||◌,
  List, [], ◌∷◌, ◌++◌, ltb, leb, ◌==◌, if◌then◌else◌, Bool-cases, length-append, ==_iff, ==_refl,
  length, arith,
}
use my_chat_respons.StringPiece.{
  Sign, negative, null, positive, memcmp, StringPiece, size, is_negative, is_null, is_positive,
  equals, differs, less, less_equal, greater_equal, greater, compare, starts_with,
}

-- The order of a dictionary: the shorter text first, if the longer goes on from it.
pub data Before : List ℕ → List ℕ → Type 0 where
  shorter : (y : ℕ) (ys : List ℕ) → Before [] (y ∷ ys)
  first : (x y : ℕ) (xs ys : List ℕ) → x < y → Before (x ∷ xs) (y ∷ ys)
  later : (x : ℕ) (xs ys : List ℕ) → Before xs ys → Before (x ∷ xs) (x ∷ ys)

-- What a sign says of two texts.
abbrev pub Tells : Sign → List ℕ → List ℕ → Type 0
Tells negative xs ys = Before xs ys
Tells null xs ys = xs ≡ ys
Tells positive xs ys = Before ys xs

-- `compare`, on the texts and on a sign of the common part.
abbrev settle : Sign → ℕ → ℕ → Sign
settle r m n =
    if is_null r then (if ltb m n then negative else if ltb n m then positive else r) else r

abbrev shared : ℕ → ℕ → ℕ
shared m n = if ltb m n then m else n

Tells-cons : (r : Sign) (x : ℕ) (xs ys : List ℕ) → Tells r xs ys → Tells r (x ∷ xs) (x ∷ ys)
Tells-cons negative x xs ys h = later x xs ys h
Tells-cons null x xs ys h = ap (λ (zs : List ℕ). x ∷ zs) h
Tells-cons positive x xs ys h = later x ys xs h

shared-suc : (m n : ℕ) → shared (suc m) (suc n) ≡ suc (shared m n)
shared-suc m n = ground arith

ltb-suc : (m n : ℕ) → ltb (suc m) (suc n) ≡ ltb m n
ltb-suc m n = ground arith

settle-suc : (r : Sign) (m n : ℕ) → settle r (suc m) (suc n) ≡ settle r m n
settle-suc r m n = rw (ltb-suc m n, ltb-suc n m) refl

-- A byte that differs settles the matter; one that does not leaves it to the rest.
memcmp_less :
    (n x y : ℕ) (xs ys : List ℕ) → ltb x y ≡ true → memcmp (suc n) (x ∷ xs) (y ∷ ys) ≡ negative
unfolding memcmp
memcmp_less n x y xs ys t = rw t refl

memcmp_more :
    (n x y : ℕ) (xs ys : List ℕ) → ltb y x ≡ true → memcmp (suc n) (x ∷ xs) (y ∷ ys) ≡ positive
unfolding memcmp
memcmp_more n x y xs ys t = let f : ltb x y ≡ false = ground arith in rw (f, t) refl

memcmp_same : (n x : ℕ) (xs ys : List ℕ) → memcmp (suc n) (x ∷ xs) (x ∷ ys) ≡ memcmp n xs ys
unfolding memcmp
memcmp_same n x xs ys = let f : ltb x x ≡ false = ground arith in rw f refl

shared_zero : (n : ℕ) → shared 0 (suc n) ≡ 0
shared_zero n = ground arith

zero_shared : (m : ℕ) → shared (suc m) 0 ≡ 0
zero_shared m = ground arith

settle_shorter : (n : ℕ) → settle null 0 (suc n) ≡ negative
settle_shorter n = ground arith

settle_longer : (m : ℕ) → settle null (suc m) 0 ≡ positive
settle_longer m = ground arith

settle-Tells :
    (xs ys : List ℕ)
    → Tells (settle (memcmp (shared (length xs) (length ys)) xs ys) (length xs) (length ys)) xs ys
unfolding memcmp
settle-Tells [] [] = refl
settle-Tells [] (y ∷ ys) = rw (shared_zero (length ys), settle_shorter (length ys)) (shorter y ys)
settle-Tells (x ∷ xs) [] = rw (zero_shared (length xs), settle_longer (length xs)) (shorter x xs)
settle-Tells (x ∷ xs) (y ∷ ys) =
    let m = length xs in
    let n = length ys in
    elim (Bool-cases (ltb x y)) [
      | inl t ↦
          rw (shared-suc m n, memcmp_less (shared m n) x y xs ys t) (first x y xs ys (ground arith))
      | inr f ↦ elim (Bool-cases (ltb y x)) [
        | inl t ↦
            rw (shared-suc m n, memcmp_more (shared m n) x y xs ys t)
              (first y x ys xs (ground arith))
        | inr g ↦
            let same : x ≡ y = ground arith in
            rw (sym same) (
              rw
                (
                  shared-suc m n,
                  memcmp_same (shared m n) x xs ys,
                  settle-suc (memcmp (shared m n) xs ys) m n,
                )
                (Tells-cons (settle (memcmp (shared m n) xs ys) m n) x xs ys (settle-Tells xs ys)))
      ]
    ]

-- The four inequalities, read off the sign.
settle_signs :
    (r : Sign) (m n : ℕ)
    → ((is_negative r || (is_null r && ltb m n)) ≡ is_negative (settle r m n))
      × ((is_negative r || (is_null r && leb m n)) ≡ not (is_positive (settle r m n)))
      × ((is_positive r || (is_null r && leb n m)) ≡ not (is_negative (settle r m n)))
      × ((is_positive r || (is_null r && ltb n m)) ≡ is_positive (settle r m n))
settle_signs negative m n = (refl, refl, refl, refl)
settle_signs null m n = (ground arith, ground arith, ground arith, ground arith)
settle_signs positive m n = (refl, refl, refl, refl)

shared_same : (m : ℕ) → shared m m ≡ m
shared_same m = ground arith

settle_same : (r : Sign) (m : ℕ) → is_null (settle r m m) ≡ is_null r
settle_same negative m = refl
settle_same null m = ground arith
settle_same positive m = refl

settle_other : (r : Sign) (m n : ℕ) → (m == n) ≡ false → is_null (settle r m n) ≡ false
settle_other negative m n f = refl
settle_other null m n f = ground arith
settle_other positive m n f = refl

equal_sign :
    (r : ℕ → Sign) (m n : ℕ) → ((m == n) && is_null (r m)) ≡ is_null (settle (r (shared m n)) m n)
equal_sign r m n = elim (Bool-cases (m == n)) [
  | inl t ↦
      let same : m ≡ n = (==_iff m n).0 t in
      let again = settle_same (r m) m ∙ refl in
      rw (sym same) (rw (==_refl m, shared_same m) (sym again))
  | inr f ↦ rw f (sym (settle_other (r (shared m n)) m n f))
]

-- `compare` is the order of a dictionary: its sign is negative if the first text stands before the second, positive if behind it,
-- and zero if they are one text; and ==, !=, <, <=, >= and > each say of every two pieces what that sign says.
pub compare-Tells :
    (s x : StringPiece)
    → Tells (compare s x) s.text x.text
      × (equals s x ≡ is_null (compare s x))
      × (differs s x ≡ not (is_null (compare s x)))
      × (less s x ≡ is_negative (compare s x))
      × (less_equal s x ≡ not (is_positive (compare s x)))
      × (greater_equal s x ≡ not (is_negative (compare s x)))
      × (greater s x ≡ is_positive (compare s x))
unfolding compare equals differs less less_equal greater_equal greater
compare-Tells s x =
    let m = length s.text in
    let n = length x.text in
    let same = equal_sign (λ k. memcmp k s.text x.text) m n in
    let (lt, le, ge, gt) = settle_signs (memcmp (shared m n) s.text x.text) m n in
    (settle-Tells s.text x.text, same, ap not same, lt, le, ge, gt)

memcmp-null :
    (xs ys : List ℕ)
    → length ys ≤ length xs
    → memcmp (length ys) xs ys ≡ null
    → (rest : List ℕ) × (xs ≡ ys ++ rest)
unfolding memcmp
memcmp-null xs [] few h = (xs, refl)
memcmp-null [] (y ∷ ys) few h = absurd (omega arith)
memcmp-null (x ∷ xs) (y ∷ ys) few h = elim (Bool-cases (ltb x y)) [
  | inl t ↦ let other : negative ≡ null = rw t at h in cc
  | inr f ↦ elim (Bool-cases (ltb y x)) [
    | inl t ↦ let other : positive ≡ null = rw (f, t) at h in cc
    | inr g ↦
        let same : x ≡ y = ground arith in
        let deeper : memcmp (length ys) xs ys ≡ null = rw (f, g) at h in
        let (rest, e) = memcmp-null xs ys (omega arith) deeper in
        (rest, ap (λ (zs : List ℕ). x ∷ zs) e ∙ ap (λ (c : ℕ). c ∷ (ys ++ rest)) same)
  ]
]

null-memcmp : (ys rest : List ℕ) → memcmp (length ys) (ys ++ rest) ys ≡ null
unfolding memcmp
null-memcmp [] rest = refl
null-memcmp (y ∷ ys) rest = memcmp_same (length ys) y (ys ++ rest) ys ∙ null-memcmp ys rest

is_null_iff : (r : Sign) → is_null r ≡ true → r ≡ null
is_null_iff negative h = cc
is_null_iff null h = refl
is_null_iff positive h = cc

-- `starts_with` says whether the text is the prefix and something behind it.
starts_with_iff :
    (s x : StringPiece) → (starts_with s x ≡ true) ↔ ((rest : List ℕ) × (s.text ≡ x.text ++ rest))
unfolding starts_with
starts_with_iff s x = (
  (λ h.
      let (few, equal) =
        and_true (leb (size x) (size s)) (is_null (memcmp (size x) s.text x.text)) h in
      memcmp-null s.text x.text (ground arith) (is_null_iff _ equal)),
  (λ (rest, e).
      let more = length-append x.text rest in
      let enough : leb (length x.text) (length (x.text ++ rest)) ≡ true = ground arith in
      rw e (rw (enough, null-memcmp x.text rest) refl)),
)
  where
    and_true : (b c : Bool) → (b && c) ≡ true → (b ≡ true) × (c ≡ true)
    and_true b c k = ground arith
