-- ===== src/ReadSmallFile/Tests.antt =====
-- Five bytes (base/file_util.cpp) that are read one at a time.
use my_chat_respons.Common.{
  ℕ, ◌<◌, ◌≤◌, ◌≡◌, refl, sym, ap, ◌∙◌, true, false, some, none, List, [], ◌∷◌, ◌++◌, length, drop,
  arith,
}
use my_chat_respons.ReadSmallFile.{Answer, bytes, opens, stat, regular, read_file}
use my_chat_respons.ReadSmallFile.Contents.{Reads, read_file-take}

abbrev first_of : List ℕ → List ℕ
first_of [] = []
first_of (x ∷ xs) = x ∷ []

abbrev five : List ℕ
five = 1 ∷ 2 ∷ 3 ∷ 4 ∷ 5 ∷ []

-- One byte, whatever is wanted.
abbrev one_at_a_time : ℕ → ℕ → Answer
one_at_a_time done n = bytes (first_of (drop done five))

drop-done : (done rest : List ℕ) → drop (length done) (done ++ rest) ≡ rest
drop-done [] rest = refl
drop-done (x ∷ xs) rest = drop-done xs rest

first :
    (done rest : List ℕ) (n : ℕ)
    → done ++ rest ≡ five
    → 0 < length rest
    → 0 < n
    → (x : ℕ) × (xs : List ℕ) × (left : List ℕ) × (one_at_a_time (length done) n ≡ bytes (x ∷ xs))
      × ((x ∷ xs) ++ left ≡ rest)
      × (length (x ∷ xs) ≤ n)
first done [] n e more want = absurd (omega arith)
first done (y ∷ ys) n e more want = (
  y,
  [],
  ys,
  ap (λ (zs : List ℕ). bytes (first_of (drop (length done) zs))) (sym e)
      ∙ ap (λ (zs : List ℕ). bytes (first_of zs)) (drop-done done (y ∷ ys)),
  refl,
  omega arith,
)

one_at_a_time-Reads : Reads five one_at_a_time
one_at_a_time-Reads = record { at_end = λ n. refl; inside = first }

read_file-take_example :
    read_file (opens 3) one_at_a_time 4 true true false (stat regular 5 100 200) 5 (9 ∷ [])
    ≡ some (record {
      content = 1 ∷ 2 ∷ 3 ∷ 4 ∷ [];
      file_size = some 5;
      modify_time = some 100;
      create_time = none;
      error = 0;
    })
read_file-take_example =
    read_file-take five one_at_a_time 3 4 100 200 true false (9 ∷ []) one_at_a_time-Reads
