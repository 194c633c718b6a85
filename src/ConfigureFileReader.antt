-- ===== src/ConfigureFileReader.antt =====
-- base/config_file_reader.h and base/config_file_reader.cpp: the settings of a file of lines key=value. A
-- string is its bytes without the 0; `buf[255]` is behind the string or is its 0, so the test of it does
-- nothing. A write to a null pointer is a fault, and so is a read behind one.
pub mod Words
pub mod RoundTrip
mod Tests
use my_chat_respons.Common.{
  ℕ, zero, suc, ◌||◌, Bool, true, false, Option, none, some, List, [], ◌∷◌, ◌++◌, ◌==◌,
  if◌then◌else◌, length, take, Outcome, ok, fault, ◌>>=◌, ◌>>◌, same_bytes,
}
use my_chat_respons.Common.Int.{ℤ, negsuc}

abbrev pub Settings : Type 0
Settings = List (List ℕ × List ℕ)

-- The members; `m_load_ok` has no first value.
pub record ConfigureFileReader : Type 0 where
  pub load_ok : Bool
  pub configure_map : Settings

-- fgets: a line with its newline, or as much of it as there is room, and what is left.
unfoldable pub get_line : ℕ → List ℕ → List ℕ × List ℕ
get_line zero file = ([], file)
get_line (suc room) [] = ([], [])
get_line (suc room) (x ∷ xs) =
    let (line, rest) = get_line room xs in if x == 10 then (10 ∷ [], xs) else (x ∷ line, rest)

-- A string up to the first byte `c`, as strchr and a 0 written there leave it.
unfoldable pub until : ℕ → List ℕ → List ℕ
until c [] = []
until c (x ∷ xs) = let rest = until c xs in if x == c then [] else x ∷ rest

unfoldable pub split_at : ℕ → List ℕ → Option (List ℕ × List ℕ)
split_at c [] = none
split_at c (x ∷ xs) =
    let rest : Option (List ℕ × List ℕ) = elim (split_at c xs) [
      | none ↦ none
      | some p ↦ some (x ∷ p.0, p.1)
    ] in
    if x == c then some ([], xs) else rest

abbrev pub is_blank : ℕ → Bool
is_blank x = (x == 32) || (x == 9) || (x == 13)

unfoldable pub skip_blanks : List ℕ → List ℕ
skip_blanks [] = []
skip_blanks (x ∷ xs) = let rest = skip_blanks xs in if is_blank x then rest else x ∷ xs

unfoldable pub ends_blank : List ℕ → Bool
ends_blank [] = false
ends_blank (x ∷ []) = is_blank x
ends_blank (x ∷ y ∷ xs) = ends_blank (y ∷ xs)

-- `trim_space`: behind a last blank the pointer is set to null and read.
abbrev pub without_end : List ℕ → Bool → Outcome (Option (List ℕ))
without_end [] b = ok none
without_end (x ∷ xs) true = fault
without_end (x ∷ xs) false = ok (some (x ∷ xs))

unfoldable pub trim_space : List ℕ → Outcome (Option (List ℕ))
unfolding skip_blanks ends_blank
trim_space text = without_end (skip_blanks text) (ends_blank text)

-- A value is put under its key. The map of the code has its keys in order, here they are in the order of the file.
unfoldable pub put : List ℕ → List ℕ → Settings → Settings
put k v [] = (k, v) ∷ []
put k v ((j, w) ∷ es) =
    let rest = put k v es in if same_bytes k j then (j, v) ∷ es else (j, w) ∷ rest

abbrev pub put_if : Option (List ℕ) → Option (List ℕ) → Settings → Settings
put_if none v m = m
put_if (some k) none m = m
put_if (some k) (some v) m = put k v m

-- `parse_line`; without a `=` it writes to a null pointer.
abbrev pub parse_parts : Option (List ℕ × List ℕ) → Settings → Outcome Settings
parse_parts none m = fault
parse_parts (some (l, r)) m = do key ← trim_space l; value ← trim_space r; ok (put_if key value m)

unfoldable pub parse_line : List ℕ → Settings → Outcome Settings
unfolding split_at trim_space put
parse_line line m = parse_parts (split_at 61 line) m

-- What the loop does with the buffer, without its comment.
abbrev pub parse_nonempty : List ℕ → Settings → Outcome Settings
parse_nonempty [] m = ok m
parse_nonempty (x ∷ xs) m = parse_line (x ∷ xs) m

-- The loop of `Load_file`, with fuel for every byte of the file.
unfoldable pub load_lines : ℕ → List ℕ → Settings → Outcome Settings
unfolding get_line until parse_line
load_lines fuel [] m = ok m
load_lines zero (x ∷ xs) m = fault
load_lines (suc fuel) (x ∷ xs) m = do
  let (buf, rest) = get_line 255 (x ∷ xs)
  m' ← parse_nonempty (until 35 (until 0 buf)) m
  load_lines fuel rest m'

-- `Load_file`; there is no file where fopen fails.
unfoldable pub load_file : Option (List ℕ) → ConfigureFileReader → Outcome ConfigureFileReader
unfolding load_lines
load_file none r = ok r
load_file (some file) r = do
  m ← load_lines (length file) file r.configure_map
  ok (record { load_ok = true; configure_map = m })

abbrev pub find : List ℕ → Settings → Option (List ℕ)
find k [] = none
find k ((j, v) ∷ es) = if same_bytes k j then some v else find k es

unfoldable pub get_configure_name : List ℕ → ConfigureFileReader → Option (List ℕ)
get_configure_name name r = if r.load_ok then find name r.configure_map else none

-- The pairs that `write_file` writes: snprintf has room for 127 bytes, and a pair that fwrite does not
-- take ends the loop. `takes` tells of each pair whether it is taken.
unfoldable pub write_pairs : (List ℕ → Bool) → Settings → List ℕ
write_pairs takes [] = []
write_pairs takes ((k, v) ∷ es) =
    let rest = write_pairs takes es in
    let pair = take 127 (k ++ (61 ∷ v)) in if takes pair then pair ++ rest else []

-- `write_file` gives -1 in every case.
pub write_file : Bool → (List ℕ → Bool) → ConfigureFileReader → ℤ × List ℕ
write_file opened takes r = (negsuc 0, if opened then write_pairs takes r.configure_map else [])
