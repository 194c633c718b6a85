-- ===== src/StringPiece.antt =====
-- base/string_piece.h: a part of a text that somebody else keeps. Of the pointer and the length there are the bytes that they
-- stand for; a length that would be negative is a fault. The int of `memcmp` and of `compare` is its sign.
pub mod Order
mod Tests
use my_chat_respons.Common.{
  ℕ, zero, suc, ◌-◌, Bool, true, false, not, ◌&&◌, ◌||◌, List, [], ◌∷◌, ltb, leb, ◌==◌,
  if◌then◌else◌, length, take, drop, Outcome, ok, assert, ◌>>=◌, ◌>>◌,
}

pub data Sign : Type 0 where
  negative null positive : Sign

-- `memcmp`: the first `n` bytes, as unsigned numbers.
unfoldable pub memcmp : ℕ → List ℕ → List ℕ → Sign
memcmp zero xs ys = null
memcmp (suc n) [] ys = null
memcmp (suc n) (x ∷ xs) [] = null
memcmp (suc n) (x ∷ xs) (y ∷ ys) =
    let rest = memcmp n xs ys in if ltb x y then negative else if ltb y x then positive else rest

pub record StringPiece : Type 0 where
  pub text : List ℕ

abbrev pub size : StringPiece → ℕ
size s = length s.text

unfoldable pub remove_prefix : ℕ → StringPiece → Outcome StringPiece
remove_prefix n s = do assert (leb n (size s)); ok (record { text = drop n s.text })

unfoldable pub remove_suffix : ℕ → StringPiece → Outcome StringPiece
remove_suffix n s = do assert (leb n (size s)); ok (record { text = take (size s - n) s.text })

abbrev pub is_negative : Sign → Bool
is_negative negative = true
is_negative _ = false

abbrev pub is_null : Sign → Bool
is_null null = true
is_null _ = false

abbrev pub is_positive : Sign → Bool
is_positive positive = true
is_positive _ = false

unfoldable pub equals : StringPiece → StringPiece → Bool
unfolding memcmp
equals s x = (size s == size x) && is_null (memcmp (size s) s.text x.text)

unfoldable pub differs : StringPiece → StringPiece → Bool
unfolding equals
differs s x = not (equals s x)

-- `STRINGPIECE_BINARY_PREDICATE` at <, <=, >= and >.
unfoldable pub less : StringPiece → StringPiece → Bool
unfolding memcmp
less s x =
    let r = memcmp (if ltb (size s) (size x) then size s else size x) s.text x.text in
    is_negative r || (is_null r && ltb (size s) (size x))

unfoldable pub less_equal : StringPiece → StringPiece → Bool
unfolding memcmp
less_equal s x =
    let r = memcmp (if ltb (size s) (size x) then size s else size x) s.text x.text in
    is_negative r || (is_null r && leb (size s) (size x))

unfoldable pub greater_equal : StringPiece → StringPiece → Bool
unfolding memcmp
greater_equal s x =
    let r = memcmp (if ltb (size s) (size x) then size s else size x) s.text x.text in
    is_positive r || (is_null r && leb (size x) (size s))

unfoldable pub greater : StringPiece → StringPiece → Bool
unfolding memcmp
greater s x =
    let r = memcmp (if ltb (size s) (size x) then size s else size x) s.text x.text in
    is_positive r || (is_null r && ltb (size x) (size s))

unfoldable pub compare : StringPiece → StringPiece → Sign
unfolding memcmp
compare s x =
    let r = memcmp (if ltb (size s) (size x) then size s else size x) s.text x.text in
    if is_null r
    then (if ltb (size s) (size x) then negative else if ltb (size x) (size s) then positive else r)
    else r

unfoldable pub starts_with : StringPiece → StringPiece → Bool
unfolding memcmp
starts_with s x = leb (size x) (size s) && is_null (memcmp (size x) s.text x.text)
