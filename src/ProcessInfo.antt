-- ===== src/ProcessInfo.antt =====
-- base/process_info.cpp: what is read out of the files of /proc, and the counts of their directories. A text is the list of its
-- bytes, without a zero; `atoi`, the answers of the system and the entries of a directory are arguments.
pub mod Procname
use my_chat_respons.Common.{
  ℕ, suc, ◌+◌, ◌-◌, Bool, true, false, ◌&&◌, Option, none, some, List, [], ◌∷◌, ltb, leb, ◌==◌,
  if◌then◌else◌, take, drop,
}
use mathlib.Core.Option

-- `string::find` and `rfind` of a character.
unfoldable pub find_char : ℕ → List ℕ → Option ℕ
find_char c [] = none
find_char c (x ∷ xs) =
    let rest = Option.map (λ (n : ℕ). suc n) (find_char c xs) in if x == c then some 0 else rest

unfoldable pub rfind_char : ℕ → List ℕ → Option ℕ
rfind_char c [] = none
rfind_char c (x ∷ xs) = elim (rfind_char c xs) [
  | some n ↦ some (suc n)
  | none ↦ if x == c then some 0 else none
]

-- `procname`, between the first ( and the last ).
unfoldable pub name_between : Option ℕ → Option ℕ → List ℕ → List ℕ
name_between (some lp) (some rp) stat =
    if ltb lp rp then take (rp - lp - 1) (drop (lp + 1) stat) else []
name_between none rp stat = []
name_between (some lp) none stat = []

unfoldable pub procname : List ℕ → List ℕ
unfolding find_char rfind_char name_between
procname stat = name_between (find_char b'(' stat) (rfind_char b')' stat) stat

-- `string::find` of a text.
abbrev pub is_prefix : List ℕ → List ℕ → Bool
is_prefix [] ys = true
is_prefix (x ∷ xs) [] = false
is_prefix (x ∷ xs) (y ∷ ys) = (x == y) && is_prefix xs ys

unfoldable pub find_text : List ℕ → List ℕ → Option ℕ
find_text t [] = if is_prefix t [] then some 0 else none
find_text t (x ∷ xs) =
    let rest = Option.map (λ (n : ℕ). suc n) (find_text t xs) in
    if is_prefix t (x ∷ xs) then some 0 else rest

unfoldable pub num_threads : (List ℕ → ℕ) → List ℕ → ℕ
unfolding find_text
num_threads atoi status =
    elim (find_text (b'T' ∷ b'h' ∷ b'r' ∷ b'e' ∷ b'a' ∷ b'd' ∷ b's' ∷ b':' ∷ []) status) [
      | none ↦ 0
      | some pos ↦ atoi (drop (pos + 8) status)
    ]

-- `fdDirFilter`, over the names of a directory.
abbrev pub starts_with_digit : List ℕ → Bool
starts_with_digit [] = false
starts_with_digit (x ∷ xs) = leb b'0' x && leb x b'9'

unfoldable pub open_files : List (List ℕ) → ℕ
open_files [] = 0
open_files (name ∷ names) =
    let rest = open_files names in if starts_with_digit name then suc rest else rest

-- The limit, if `getrlimit` gives one.
unfoldable pub max_open_files : Option ℕ → List (List ℕ) → ℕ
unfolding open_files
max_open_files none names = open_files names
max_open_files (some limit) names = limit

-- `readlink` writes at most 1024 bytes; of a call that fails, no text.
unfoldable pub exe_path : Option (List ℕ) → List ℕ
exe_path none = []
exe_path (some path) = take 1024 path
