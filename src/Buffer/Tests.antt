-- ===== src/Buffer/Tests.antt =====
-- Runs of the buffer (net/buffer.h, net/buffer.cpp) on small inputs.
use my_chat_respons.Common.{
  ℕ, zero, suc, ◌+◌, ◌-◌, ◌≤◌, ◌*◌, ◌/◌, ◌%◌, ◌^◌, ◌<◌, ◌≡◌, refl, ap, ◌∙◌, ◌↔◌, ◌⊎◌, List, [], ◌∷◌,
  ◌++◌, arith, length, ok, fault, Returns, length-append,
}
use my_chat_respons.Buffer.{Buffer, cheap_prepend, readable_bytes, writeable_bytes, append, retrive}
use my_chat_respons.Buffer.Valid.{IsValid, contents, writeable_bytes-eq}
use my_chat_respons.Buffer.Append.{append-drained, append_fault_iff}
use my_chat_respons.Buffer.Retrieve.{retrive-drop}
use my_chat_respons.Buffer.ReadFd.{ReadResult, got, offered, read_fd, read_fd_overflow_iff}
use my_chat_respons.Buffer.Search.{find_crlf_from, FindsCrlf, HasNoCrlf, find_crlf_from-Finds}
use my_chat_respons.Buffer.Integers.{Host, big_endian, append_int64, read_int64}
use my_chat_respons.Buffer.Integers.Laws.{ReadsBack, append_int64-read_int64}
use mathlib.Core.Option.{none, some}

-- Twenty-four bytes with nothing unread.
abbrev empty_buffer : Buffer
empty_buffer = record {
  bytes =
      0 ∷ 0 ∷ 0 ∷ 0 ∷ 0 ∷ 0 ∷ 0 ∷ 0 ∷ 0 ∷ 0 ∷ 0 ∷ 0 ∷ 0 ∷ 0 ∷ 0 ∷ 0 ∷ 0 ∷ 0 ∷ 0 ∷ 0 ∷ 0 ∷ 0 ∷ 0 ∷ 0
      ∷ [];
  capacity = 24;
  read_index = 8;
  write_index = 8;
}

-- The four bytes "a", CR, LF, "b" unread, and room for four more.
abbrev line_buffer : Buffer
line_buffer = record {
  bytes = 0 ∷ 0 ∷ 0 ∷ 0 ∷ 0 ∷ 0 ∷ 0 ∷ 0 ∷ 97 ∷ 13 ∷ 10 ∷ 98 ∷ 0 ∷ 0 ∷ 0 ∷ 0 ∷ [];
  capacity = 16;
  read_index = 8;
  write_index = 12;
}

empty_buffer-IsValid : IsValid empty_buffer
empty_buffer-IsValid = record {
  start = omega arith;
  order = omega arith;
  fits = omega arith;
  small = omega arith;
}

line_buffer-IsValid : IsValid line_buffer
line_buffer-IsValid = record {
  start = omega arith;
  order = omega arith;
  fits = omega arith;
  small = omega arith;
}

-- A machine that keeps integers the most significant byte first, where the macros do nothing.
pub load_from : ℕ → List ℕ → ℕ
load_from acc [] = acc
load_from acc (x ∷ xs) = load_from (acc * 256 + x) xs

load_from-append :
    (acc x : ℕ) (xs : List ℕ) → load_from acc (xs ++ (x ∷ [])) ≡ load_from acc xs * 256 + x
unfolding load_from
load_from-append acc x [] = refl
load_from-append acc x (y ∷ ys) = load_from-append (acc * 256 + y) x ys

pub length-big_endian : (width x : ℕ) → length (big_endian width x) ≡ width
length-big_endian zero x = refl
length-big_endian (suc width) x = omega (
  arith,
  length-append (big_endian width (x / 256)) (x % 256 ∷ []),
  length-big_endian width (x / 256),
)

pub load_from-big_endian : (width x : ℕ) → x < 256 ^ width → load_from 0 (big_endian width x) ≡ x
unfolding load_from
load_from-big_endian zero x h = omega arith
load_from-big_endian (suc width) x h =
    load_from-append 0 (x % 256) (big_endian width (x / 256))
    ∙ ap (λ n. n * 256 + x % 256) (load_from-big_endian width (x / 256) (omega arith))
    ∙ omega arith

abbrev pub big_machine : Host
big_machine = record {
  store = big_endian;
  load = λ width xs. load_from 0 xs;
  htobe = λ width x. x;
  betoh = λ width x. x;
  length_store = length-big_endian;
  load_store = load_from-big_endian;
  htobe-lt = λ width x h. h;
  betoh-htobe = λ width x h. refl;
  store-htobe = λ width x h. refl;
}

append-drained_example :
    Returns
      (λ b'. IsValid b' × (contents b' ≡ 1 ∷ 2 ∷ 3 ∷ []))
      (append (1 ∷ 2 ∷ 3 ∷ []) empty_buffer)
append-drained_example =
    append-drained (1 ∷ 2 ∷ 3 ∷ []) empty_buffer empty_buffer-IsValid
      (unfold readable_bytes in refl) (omega arith)

append_fault_iff_example :
    (append (1 ∷ 2 ∷ 3 ∷ 4 ∷ 5 ∷ []) line_buffer ≡ fault)
    ↔ (16 < 5 + readable_bytes line_buffer + cheap_prepend)
append_fault_iff_example =
    append_fault_iff (1 ∷ 2 ∷ 3 ∷ 4 ∷ 5 ∷ []) line_buffer line_buffer-IsValid (omega arith)

retrive-drop_example :
    ((retrive 2 line_buffer ≡ fault) × (4 < 2))
    ⊎ ((2 ≤ 4) × Returns (λ b'. IsValid b' × (contents b' ≡ 10 ∷ 98 ∷ [])) (retrive 2 line_buffer))
retrive-drop_example = retrive-drop 2 line_buffer line_buffer-IsValid

-- One byte more than the room in the vector.
abbrev five_bytes : ℕ → ReadResult
five_bytes size = got (1 ∷ 2 ∷ 3 ∷ 4 ∷ 5 ∷ [])

read_fd_overflow_iff_example :
    (read_fd five_bytes line_buffer ≡ fault)
    ↔ (line_buffer.read_index < 5 - writeable_bytes line_buffer + cheap_prepend)
unfolding writeable_bytes
read_fd_overflow_iff_example =
    read_fd_overflow_iff five_bytes (1 ∷ 2 ∷ 3 ∷ 4 ∷ 5 ∷ []) line_buffer line_buffer-IsValid refl
      (omega (arith, writeable_bytes-eq line_buffer-IsValid))
      (unfold offered in omega (arith, writeable_bytes-eq line_buffer-IsValid))

find_crlf_from-Finds_example :
    ((find_crlf_from 8 line_buffer ≡ fault) × ((8 < 8) ⊎ (12 < 8)))
    ⊎ ((p : ℕ) × (find_crlf_from 8 line_buffer ≡ ok (some p)) × FindsCrlf 8 line_buffer p)
    ⊎ ((find_crlf_from 8 line_buffer ≡ ok none) × HasNoCrlf 8 line_buffer)
find_crlf_from-Finds_example = find_crlf_from-Finds 8 line_buffer line_buffer-IsValid

append_int64-read_int64_example :
    Returns
      (λ b'. ReadsBack 123456789 (read_int64 big_machine b'))
      (append_int64 big_machine 123456789 empty_buffer)
append_int64-read_int64_example =
    append_int64-read_int64 big_machine 123456789 empty_buffer (omega arith) empty_buffer-IsValid
      (unfold readable_bytes in refl) (omega arith)
