-- ===== src/ReadSmallFile.antt =====
-- The class `ReadSmallFile` of base/file_util.h and base/file_util.cpp. A text is the list of its bytes; `fstat`, `read` and `pread` are
-- arguments, as is the answer of `open`. `maxSize` is not negative. A pointer that may be null is a Bool, and what is written
-- through it an Option. The room that a string reserves is left out.
pub mod Contents
mod Tests
use my_chat_respons.Common.{
  ℕ, zero, suc, ◌-◌, ◌*◌, min, Bool, Option, none, some, List, [], ◌∷◌, ◌++◌, ltb, if◌then◌else◌,
  length,
}
use mathlib.Core.Option

-- `sizeof(m_buf)`.
abbrev pub buff_size : ℕ
buff_size = 64 * 1024

abbrev pub eisdir : ℕ
eisdir = 21

pub record ReadSmallFile : Type 0 where
  pub fd : Option ℕ
  pub err : ℕ
  pub buf : List ℕ

-- What `open` answers: a descriptor, or errno.
pub data Opened : Type 0 where
  opens : ℕ → Opened
  fails : ℕ → Opened

unfoldable pub new_read_small_file : Opened → ReadSmallFile
new_read_small_file (opens fd) = record { fd = some fd; err = 0; buf = 0 ∷ [] }
new_read_small_file (fails e) = record { fd = none; err = e; buf = 0 ∷ [] }

-- What `read` answers: bytes, none at the end, or errno.
pub data Answer : Type 0 where
  bytes : List ℕ → Answer
  failed : ℕ → Answer

-- The loop of `read_to_string`; `read` is given how much has been read, and how much is wanted. Fuel bounds the
-- rounds; `none` means that it ran out.
unfoldable pub read_loop : (ℕ → ℕ → Answer) → ℕ → ℕ → List ℕ → ℕ → Option (List ℕ × ℕ)
read_loop read max_size zero content err = none
read_loop read max_size (suc fuel) content err =
    if ltb (length content) max_size
    then elim (read (length content) (min (max_size - length content) buff_size)) [
      | bytes [] ↦ some (content, err)
      | bytes (x ∷ xs) ↦ read_loop read max_size fuel (content ++ (x ∷ xs)) err
      | failed e ↦ some (content, e)
    ]
    else some (content, err)

pub data Kind : Type 0 where
  regular directory special : Kind

-- What `fstat` answers.
pub data Stat : Type 0 where
  stat : (kind : Kind) (size mtime ctime : ℕ) → Stat
  no_stat : ℕ → Stat

pub record Result : Type 0 where
  pub content : List ℕ
  pub file_size : Option ℕ
  pub modify_time : Option ℕ
  pub create_time : Option ℕ
  pub error : ℕ

abbrev pub size_of : Kind → ℕ → Option ℕ
size_of regular size = some size
size_of _ size = none

abbrev pub error_of : Kind → ℕ → ℕ
error_of directory err = eisdir
error_of _ err = err

abbrev pub when : Bool → ℕ → Option ℕ
when b n = if b then some n else none

-- What `fstat` gives, if the size is wanted; the content is empty.
unfoldable pub read_stat : Bool → Bool → Bool → Stat → ℕ → Result
read_stat wants_size wants_modify wants_create answer err =
    let untouched : Result = record {
      content = [];
      file_size = none;
      modify_time = none;
      create_time = none;
      error = err;
    } in
    let found : Result = elim answer [
      | stat kind size mtime ctime ↦ record {
        content = [];
        file_size = size_of kind size;
        modify_time = when wants_modify mtime;
        create_time = when wants_create ctime;
        error = error_of kind err;
      }
      | no_stat e ↦ record untouched { error = e }
    ] in
    if wants_size then found else untouched

-- `read_to_string`, and `read_file` with the constructor; `content` is what the string held before.
unfoldable pub read_to_string :
    (ℕ → ℕ → Answer) → ℕ → Bool → Bool → Bool → Stat → ℕ → List ℕ → ReadSmallFile → Option Result
unfolding read_loop read_stat
read_to_string read max_size wants_size wants_modify wants_create answer fuel content file =
    elim file.fd [
      | none ↦ some (record {
        content = content;
        file_size = none;
        modify_time = none;
        create_time = none;
        error = file.err;
      })
      | some fd ↦
          let r = read_stat wants_size wants_modify wants_create answer file.err in
          Option.map (λ (c : List ℕ × ℕ). record r { content = c.0; error = c.1 })
            (read_loop read max_size fuel r.content r.error)
    ]

unfoldable pub read_file :
    Opened → (ℕ → ℕ → Answer) → ℕ → Bool → Bool → Bool → Stat → ℕ → List ℕ → Option Result
unfolding new_read_small_file read_to_string
read_file opened read max_size wants_size wants_modify wants_create answer fuel content =
    read_to_string read max_size wants_size wants_modify wants_create answer fuel content
      (new_read_small_file opened)

-- `read_to_buffer`, with the error, and with the size that it gives.
unfoldable pub read_to_buffer : Answer → ReadSmallFile → ℕ × Option ℕ × ReadSmallFile
read_to_buffer answer file = elim file.fd [
  | none ↦ (file.err, none, file)
  | some fd ↦ elim answer [
    | bytes xs ↦ (file.err, some (length xs), record file { buf = xs ++ (0 ∷ []) })
    | failed e ↦ (e, none, file)
  ]
]
