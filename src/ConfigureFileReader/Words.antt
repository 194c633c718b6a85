-- ===== src/ConfigureFileReader/Words.antt =====
-- The words of a line: what is read of a string without the bytes that end it.
use my_chat_respons.Common.{
  ℕ, zero, suc, ◌<◌, Bool, true, false, some, List, [], ◌∷◌, ◌++◌, ◌==◌, if◌then◌else◌, length, ok,
  ◌≡◌, refl, ap, arith, Bool-cases, inl, inr,
}
use my_chat_respons.ConfigureFileReader.{
  get_line, until, split_at, is_blank, skip_blanks, ends_blank, trim_space,
}

-- The byte does not stand in the string.
abbrev pub Absent : ℕ → List ℕ → Type 0
Absent c [] = Unit
Absent c (x ∷ xs) = ((x == c) ≡ false) × Absent c xs

pub Absent-append : (c : ℕ) (xs ys : List ℕ) → Absent c xs → Absent c ys → Absent c (xs ++ ys)
Absent-append c [] ys h k = k
Absent-append c (x ∷ xs) ys (e, h) k = (e, Absent-append c xs ys h k)

pub until-Absent : (c : ℕ) (xs : List ℕ) → Absent c xs → until c xs ≡ xs
unfolding until
until-Absent c [] h = refl
until-Absent c (x ∷ xs) (e, h) = rw e (ap (λ ys. x ∷ ys) (until-Absent c xs h))

pub split_at-append :
    (c : ℕ) (xs ys : List ℕ) → Absent c xs → split_at c (xs ++ (c ∷ ys)) ≡ some (xs, ys)
unfolding split_at
split_at-append c [] ys h = ground arith
split_at-append c (x ∷ xs) ys (e, h) = rw (e, split_at-append c xs ys h) refl

-- fgets reads a line that ends within its room.
pub get_line-append :
    (room : ℕ) (xs rest : List ℕ)
    → Absent 10 xs
    → length xs < room
    → get_line room (xs ++ (10 ∷ rest)) ≡ (xs ++ (10 ∷ []), rest)
unfolding get_line
get_line-append zero xs rest h lt = absurd (omega arith)
get_line-append (suc room) [] rest h lt = refl
get_line-append (suc room) (x ∷ xs) rest (e, h) lt =
    rw (e, get_line-append room xs rest h (omega arith)) refl

-- Whether the first byte is no blank, and there is one.
abbrev pub starts : List ℕ → Bool
starts [] = false
starts (x ∷ xs) = if is_blank x then false else true

pub trim_space-starts :
    (xs : List ℕ) → starts xs ≡ true → ends_blank xs ≡ false → trim_space xs ≡ ok (some xs)
unfolding trim_space skip_blanks
trim_space-starts [] h k = cc
trim_space-starts (x ∷ xs) h k = elim (Bool-cases (is_blank x)) [
  | inl t ↦ let no : false ≡ true = rw t at h in cc
  | inr f ↦ rw (f, k) refl
]

pub ends_blank-newline : (xs : List ℕ) → ends_blank (xs ++ (10 ∷ [])) ≡ false
unfolding ends_blank
ends_blank-newline [] = refl
ends_blank-newline (x ∷ []) = refl
ends_blank-newline (x ∷ y ∷ xs) = ends_blank-newline (y ∷ xs)
