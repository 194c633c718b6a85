-- ===== src/ConfigureFileReader/RoundTrip.antt =====
-- A file of settings that was written is read back.
use mathlib.Core.List.{append-nil, append_assoc}
use my_chat_respons.Common.{
  ℕ, zero, suc, ◌+◌, ◌≤◌, Bool, true, false, some, List, [], ◌∷◌, ◌++◌, ◌==◌, if◌then◌else◌, length,
  take, Outcome, ok, ◌>>=◌, ◌≡◌, refl, sym, ap, ◌∙◌, arith, same_bytes, take_all, length-append,
  Bool-cases, inl, inr,
}
use my_chat_respons.ConfigureFileReader.{
  ConfigureFileReader, Settings, get_line, until, parse_line, parse_nonempty, put, load_lines,
  load_file, write_pairs, ends_blank,
}
use my_chat_respons.ConfigureFileReader.Words.{
  Absent, Absent-append, until-Absent, split_at-append, get_line-append, starts, trim_space-starts,
  ends_blank-newline,
}

abbrev pub has : List ℕ → Settings → Bool
has k [] = false
has k ((j, v) ∷ es) = if same_bytes k j then true else has k es

-- A key and the text of a value without its newline, as they stand in a line: none of the bytes that end
-- a string, a line, a comment or a key, no blank around the key nor before the value, and a line that
-- fits the buffer of `write_file`.
pub record IsEntry (key value : List ℕ) : Type 0 where
  pub whole_key : Absent 0 key × Absent 10 key × Absent 35 key × Absent 61 key
  pub whole_value : Absent 0 value × Absent 10 value × Absent 35 value
  pub key_starts : starts key ≡ true
  pub key_ends : ends_blank key ≡ false
  pub value_starts : starts (value ++ (10 ∷ [])) ≡ true
  pub short : length key + length value ≤ 125

-- The settings of entries: a value keeps its newline.
abbrev pub settings_of : Settings → Settings
settings_of [] = []
settings_of ((k, v) ∷ es) = (k, v ++ (10 ∷ [])) ∷ settings_of es

-- Entries under keys that differ from one another and from those of `m`.
abbrev pub AreNew : Settings → Settings → Type 0
AreNew m [] = Unit
AreNew m ((k, v) ∷ es) =
    IsEntry k v × (has k m ≡ false) × AreNew (m ++ ((k, v ++ (10 ∷ [])) ∷ [])) es

put-has : (k v : List ℕ) (m : Settings) → has k m ≡ false → put k v m ≡ m ++ ((k, v) ∷ [])
unfolding put
put-has k v [] h = refl
put-has k v ((j, w) ∷ es) h = elim (Bool-cases (same_bytes k j)) [
  | inl t ↦ let no : true ≡ false = rw t at h in cc
  | inr f ↦
      let rest : has k es ≡ false = rw f at h in
      rw f (ap (λ (ys : Settings). (j, w) ∷ ys) (put-has k v es rest))
]

abbrev line_of : List ℕ → List ℕ → List ℕ
line_of k v = k ++ (61 ∷ v ++ (10 ∷ []))

-- A line is parsed to its entry.
parse-line_of :
    (k v : List ℕ) (m : Settings)
    → IsEntry k v
    → has k m ≡ false
    → parse_line (line_of k v) m ≡ ok (m ++ ((k, v ++ (10 ∷ [])) ∷ []))
unfolding parse_line
parse-line_of k v m e new =
    let (a, b, c, d) = e.whole_key in
    rw (split_at-append 61 k (v ++ (10 ∷ [])) d) (
      rw
        (
          trim_space-starts k e.key_starts e.key_ends,
          trim_space-starts (v ++ (10 ∷ [])) e.value_starts (ends_blank-newline v),
        )
        (ap {B = Outcome Settings} ok (put-has k (v ++ (10 ∷ [])) m new)))

Absent-line_of :
    (c : ℕ) (k v : List ℕ)
    → (61 == c) ≡ false
    → (10 == c) ≡ false
    → Absent c k
    → Absent c v
    → Absent c (line_of k v)
Absent-line_of c k v e f h g =
    Absent-append c k (61 ∷ v ++ (10 ∷ [])) h (e, Absent-append c v (10 ∷ []) g (f, tt))

-- Nothing of a line is cut off.
whole_line : (k v : List ℕ) → IsEntry k v → until 35 (until 0 (line_of k v)) ≡ line_of k v
whole_line k v e =
    let (a, _, c, _) = e.whole_key in
    let (a', _, c') = e.whole_value in
    ap (until 35) (until-Absent 0 (line_of k v) (Absent-line_of 0 k v refl refl a a'))
    ∙ until-Absent 35 (line_of k v) (Absent-line_of 35 k v refl refl c c')

get_line-line_of :
    (k v rest : List ℕ) → IsEntry k v → get_line 255 (line_of k v ++ rest) ≡ (line_of k v, rest)
get_line-line_of k v rest e =
    let body : List ℕ = k ++ (61 ∷ v) in
    let absent : Absent 10 body =
      Absent-append 10 k (61 ∷ v) (e.whole_key.1) (refl, e.whole_value.1) in
    let size = length-append k (61 ∷ v) in
    ap (get_line 255) (
      ap (λ (ys : List ℕ). ys ++ rest) (sym (append_assoc k (61 ∷ v) (10 ∷ [])))
      ∙ append_assoc body (10 ∷ []) rest)
    ∙ get_line-append 255 body rest absent (omega (arith, size, e.short))
    ∙ ap (λ (l : List ℕ). (l, rest)) (append_assoc k (61 ∷ v) (10 ∷ []))

abbrev after : ℕ → Settings → List ℕ × List ℕ → Outcome Settings
after fuel m p = parse_nonempty (until 35 (until 0 (p.0))) m >>= λ m'. load_lines fuel (p.1) m'

-- One round of the loop reads one entry.
load_line :
    (fuel : ℕ) (k v rest : List ℕ) (m : Settings)
    → IsEntry k v
    → has k m ≡ false
    → load_lines (suc fuel) (line_of k v ++ rest) m
      ≡ load_lines fuel rest (m ++ ((k, v ++ (10 ∷ [])) ∷ []))
unfolding load_lines
load_line fuel [] v rest m e new = let no = e.key_starts in cc
load_line fuel (x ∷ xs) v rest m e new =
    ap (after fuel m) (get_line-line_of (x ∷ xs) v rest e)
    ∙ ap (λ (line : List ℕ). parse_nonempty line m >>= λ m'. load_lines fuel rest m')
        (whole_line (x ∷ xs) v e)
    ∙ ap (λ (o : Outcome Settings). o >>= λ m'. load_lines fuel rest m')
        (parse-line_of (x ∷ xs) v m e new)

abbrev lines_of : Settings → List ℕ
lines_of [] = []
lines_of ((k, v) ∷ es) = line_of k v ++ lines_of es

load_lines-lines_of :
    (fuel : ℕ) (es m : Settings)
    → AreNew m es
    → length es ≤ fuel
    → load_lines fuel (lines_of es) m ≡ ok (m ++ settings_of es)
unfolding load_lines
load_lines-lines_of fuel [] m h le = ap {B = Outcome Settings} ok (sym (append-nil m))
load_lines-lines_of zero ((k, v) ∷ es) m h le = absurd (omega arith)
load_lines-lines_of (suc fuel) ((k, v) ∷ es) m (e, new, h) le =
    load_line fuel k v (lines_of es) m e new
    ∙ load_lines-lines_of fuel es (m ++ ((k, v ++ (10 ∷ [])) ∷ [])) h (omega arith)
    ∙ ap {B = Outcome Settings} ok (append_assoc m ((k, v ++ (10 ∷ [])) ∷ []) (settings_of es))

write_pairs-settings_of :
    (takes : List ℕ → Bool) (es m : Settings)
    → ((pair : List ℕ) → takes pair ≡ true)
    → AreNew m es
    → write_pairs takes (settings_of es) ≡ lines_of es
unfolding write_pairs
write_pairs-settings_of takes [] m all h = refl
write_pairs-settings_of takes ((k, v) ∷ es) m all (e, _, h) =
    let size = length-append k (61 ∷ v ++ (10 ∷ [])) in
    let size' = length-append v (10 ∷ []) in
    let fits : take 127 (line_of k v) ≡ line_of k v =
      take_all 127 (line_of k v) (omega (arith, size, size', e.short)) in
    rw (fits, all (line_of k v))
      (ap (λ (ys : List ℕ). line_of k v ++ ys)
        (write_pairs-settings_of takes es (m ++ ((k, v ++ (10 ∷ [])) ∷ [])) all h))

length-lines_of : (es : Settings) → length es ≤ length (lines_of es)
length-lines_of [] = omega arith
length-lines_of ((k, v) ∷ es) =
    let size = length-append (line_of k v) (lines_of es) in
    let size' = length-append k (61 ∷ v ++ (10 ∷ [])) in
    let rest = length-lines_of es in omega (arith, size, size', rest)

-- Settings whose keys differ, whose keys and values hold no byte that ends a string, a line, a comment or a key,
-- have no blank at their ends, and fit the buffers, are read back from the file that `write_file` makes of
-- them, where fwrite takes every pair: into an empty reader, in the same order, each value with its newline.
pub load_file-write_pairs :
    (takes : List ℕ → Bool) (es : Settings) (r : ConfigureFileReader)
    → ((pair : List ℕ) → takes pair ≡ true)
    → AreNew [] es
    → r.configure_map ≡ []
    → load_file (some (write_pairs takes (settings_of es))) r
      ≡ ok (record { load_ok = true; configure_map = settings_of es })
unfolding load_file
load_file-write_pairs takes es r all h empty =
    rw (write_pairs-settings_of takes es [] all h, empty)
      (rw (load_lines-lines_of (length (lines_of es)) es [] h (length-lines_of es)) refl)
