-- ===== src/ProcessInfo/Procname.antt =====
-- The name of the process (base/process_info.cpp) in the text of /proc/self/stat.
use my_chat_respons.Common.{
  ℕ, suc, ◌+◌, ◌-◌, ◌≡◌, refl, sym, ap, ◌∙◌, Bool, true, false, ◌||◌, none, some, List, [], ◌∷◌,
  ◌++◌, ltb, ◌==◌, length, drop, take_eq, drop_eq, length-append, take-append_le, take_all, arith,
}
use mathlib.Core.List.{append_assoc}
use my_chat_respons.ProcessInfo.{find_char, rfind_char, name_between, procname}

abbrev pub has_char : ℕ → List ℕ → Bool
has_char c [] = false
has_char c (x ∷ xs) = (x == c) || has_char c xs

or_false : (b c : Bool) → (b || c) ≡ false → (b ≡ false) × (c ≡ false)
or_false b c k = ground arith

find_char-first :
    (c : ℕ) (xs ys : List ℕ)
    → has_char c xs ≡ false
    → find_char c (xs ++ (c ∷ ys)) ≡ some (length xs)
unfolding find_char
find_char-first c [] ys h = let same : (c == c) ≡ true = ground arith in rw same refl
find_char-first c (x ∷ xs) ys h =
    let (other, rest) = or_false (x == c) (has_char c xs) h in
    rw (other, find_char-first c xs ys rest) refl

rfind_char-none : (c : ℕ) (xs : List ℕ) → has_char c xs ≡ false → rfind_char c xs ≡ none
unfolding rfind_char
rfind_char-none c [] h = refl
rfind_char-none c (x ∷ xs) h =
    let (other, rest) = or_false (x == c) (has_char c xs) h in
    rw (rfind_char-none c xs rest, other) refl

rfind_char-last :
    (c : ℕ) (xs ys : List ℕ)
    → has_char c ys ≡ false
    → rfind_char c (xs ++ (c ∷ ys)) ≡ some (length xs)
unfolding rfind_char
rfind_char-last c [] ys h =
    let same : (c == c) ≡ true = ground arith in rw (rfind_char-none c ys h, same) refl
rfind_char-last c (x ∷ xs) ys h = rw (rfind_char-last c xs ys h) refl

drop_front : (xs ys : List ℕ) (x : ℕ) → drop (length xs + 1) (xs ++ (x ∷ ys)) ≡ ys
drop_front [] ys x = refl
drop_front (y ∷ xs) ys x =
    drop_eq (suc (length xs) + 1) (suc (length xs + 1)) (y ∷ (xs ++ (x ∷ ys))) (omega arith)
    ∙ drop_front xs ys x

between :
    (front name rest : List ℕ)
    → name_between
        (some (length front))
        (some (length (front ++ (b'(' ∷ name))))
        (front ++ (b'(' ∷ name ++ (b')' ∷ rest)))
      ≡ name
unfolding name_between
between front name rest =
    let size = length-append front (b'(' ∷ name) in
    let room : ltb (length front) (length (front ++ (b'(' ∷ name))) ≡ true = ground arith in
    rw (room, drop_front front (name ++ (b')' ∷ rest)) b'(')
      (take_eq (length (front ++ (b'(' ∷ name)) - length front - 1) (length name)
          (name ++ (b')' ∷ rest)) (omega arith)
        ∙ take-append_le (length name) name (b')' ∷ rest) (omega arith)
        ∙ take_all (length name) name (omega arith))

-- Of a text with a first ( behind which there is a last ), `procname` is all that stands between, other
-- parentheses of the name included.
procname-between :
    (front name rest : List ℕ)
    → has_char b'(' front ≡ false
    → has_char b')' rest ≡ false
    → procname (front ++ (b'(' ∷ name ++ (b')' ∷ rest))) ≡ name
unfolding procname
procname-between front name rest no_open no_close =
    let stat = front ++ (b'(' ∷ name ++ (b')' ∷ rest)) in
    let before = front ++ (b'(' ∷ name) in
    let lp = find_char-first b'(' front (name ++ (b')' ∷ rest)) no_open in
    let split : before ++ (b')' ∷ rest) ≡ stat = append_assoc front (b'(' ∷ name) (b')' ∷ rest) in
    let rp = ap (rfind_char b')') (sym split) ∙ rfind_char-last b')' before rest no_close in
    rw (lp, rp) (between front name rest)
