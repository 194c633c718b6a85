-- ===== src/Buffer.antt =====
-- net/buffer.h and net/buffer.cpp: `Buffer`, the byte queue of a connection. The vector `buffer_`
-- is the list `bytes` (its size is the length) with `capacity`; pointers into it are offsets.
-- An operation that can stop at an `assert` is an `Outcome`.
pub mod Valid
pub mod Room
pub mod Append
pub mod Retrieve
pub mod Search
pub mod Integers
pub mod ReadFd
pub mod Tests
use my_chat_respons.Common.{
  ℕ, ◌+◌, ◌-◌, max, List, ◌++◌, ltb, leb, ◌==◌, if◌then◌else◌, length, take, drop, replicate,
  Outcome, ok, assert, add_size, sub_size, int_of_size, size_of_int, ◌>>=◌, ◌>>◌,
}

abbrev pub cheap_prepend : ℕ
cheap_prepend = 8

abbrev pub initial_size : ℕ
initial_size = 1024

pub record Buffer : Type 0 where
  pub bytes : List ℕ
  pub capacity : ℕ
  pub read_index : ℕ
  pub write_index : ℕ

unfoldable pub readable_bytes : Buffer → ℕ
readable_bytes b = sub_size b.write_index b.read_index

pub writeable_bytes : Buffer → ℕ
writeable_bytes b = sub_size (length b.bytes) b.write_index

pub prependable_bytes : Buffer → ℕ
prependable_bytes b = b.read_index

-- The constructor, with its three assertions. The vector's elements start at zero.
pub new_buffer : ℕ → Outcome Buffer
new_buffer initsize = do
  let size = add_size cheap_prepend initsize
  let b : Buffer = record {
    bytes = replicate size 0;
    capacity = size;
    read_index = cheap_prepend;
    write_index = cheap_prepend;
  }
  assert (readable_bytes b == 0)
  assert (writeable_bytes b == initsize)
  assert (prependable_bytes b == cheap_prepend)
  ok b

-- `swap` exchanges the three members.
unfoldable pub swap : Buffer → Buffer → Buffer × Buffer
swap b rhs = (rhs, b)

unfoldable pub peek : Buffer → ℕ
peek b = b.read_index

-- The overload for a mutable buffer, which the operations that write call.
unfoldable pub begin_write : Buffer → ℕ
begin_write b = b.read_index

-- The overload for a constant buffer.
unfoldable pub begin_write_const : Buffer → ℕ
begin_write_const b = b.write_index

-- The bytes from offset `first` up to offset `last`.
abbrev pub range : List ℕ → ℕ → ℕ → List ℕ
range bytes first last = take (last - first) (drop first bytes)

pub has_written : ℕ → Buffer → Outcome Buffer
has_written len b = do
  assert (leb len (writeable_bytes b))
  ok (record b { write_index = add_size b.write_index len })

pub unwrite : ℕ → Buffer → Outcome Buffer
unwrite len b = do
  assert (leb len (readable_bytes b))
  ok (record b { write_index = sub_size b.write_index len })

pub retrive_all : Buffer → Buffer
retrive_all b = record b { read_index = cheap_prepend; write_index = cheap_prepend }

pub retrive : ℕ → Buffer → Outcome Buffer
retrive len b = do
  assert (leb len (readable_bytes b))
  if ltb len (readable_bytes b)
      then ok (record b { read_index = add_size b.read_index len })
      else ok (retrive_all b)

pub retrive_int64 : Buffer → Outcome Buffer
retrive_int64 b = retrive 8 b

pub retrive_int32 : Buffer → Outcome Buffer
retrive_int32 b = retrive 4 b

pub retrive_int16 : Buffer → Outcome Buffer
retrive_int16 b = retrive 2 b

pub retrive_int8 : Buffer → Outcome Buffer
retrive_int8 b = retrive 1 b

-- `beginWrite` is the overload for a mutable buffer here.
pub retrive_until : ℕ → Buffer → Outcome Buffer
retrive_until end b = do
  assert (leb (peek b) end)
  assert (leb end (begin_write b))
  retrive (sub_size end (peek b)) b

pub retrive_as_string : ℕ → Buffer → Outcome (List ℕ × Buffer)
retrive_as_string len b = do
  assert (leb len (readable_bytes b))
  b' ← retrive len b
  ok (take len (drop (peek b) b.bytes), b')

pub retrive_all_as_string : Buffer → Outcome (List ℕ × Buffer)
retrive_all_as_string b = retrive_as_string (readable_bytes b) b

-- `std::copy` of `xs` to offset `at` of the vector.
abbrev pub copy_to : ℕ → List ℕ → List ℕ → List ℕ
copy_to at xs bytes = take at bytes ++ (xs ++ drop (at + length xs) bytes)

-- `reserve` changes the capacity alone.
abbrev pub reserve : ℕ → Buffer → Buffer
reserve n b = record b { capacity = max b.capacity n }

-- The branch of `makeSpace` that moves the readable bytes to the front.
pub move_to_front : Buffer → Outcome Buffer
move_to_front b = do
  assert (ltb cheap_prepend b.read_index)
  let readable = readable_bytes b
  let b' : Buffer = record b {
    bytes = copy_to cheap_prepend (range b.bytes b.read_index b.write_index) b.bytes;
    read_index = cheap_prepend;
    write_index = add_size cheap_prepend readable;
  }
  assert (readable == readable_bytes b')
  ok b'

pub make_space : ℕ → Buffer → Outcome Buffer
make_space len b =
    if ltb (add_size (writeable_bytes b) (prependable_bytes b)) (add_size len cheap_prepend)
    then ok (reserve (add_size b.write_index len) b)
    else move_to_front b

pub ensure_writeable_bytes : ℕ → Buffer → Outcome Buffer
ensure_writeable_bytes len b = do
  b' ← if ltb (writeable_bytes b) len then make_space len b else ok b
  assert (leb len (writeable_bytes b'))
  ok b'

-- `append(data, len)`; `memory` is what `data` points at.
pub append_from : List ℕ → ℕ → Buffer → Outcome Buffer
append_from memory len b = do
  b' ← ensure_writeable_bytes len b
  has_written len (record b' { bytes = copy_to (begin_write b') (take len memory) b'.bytes })

pub append : List ℕ → Buffer → Outcome Buffer
append data' b = append_from data' (length data') b

-- `toStringPiece`: where the piece starts, and its size, an int.
pub to_string_piece : Buffer → ℕ × ℕ
to_string_piece b = (peek b, int_of_size (readable_bytes b))

-- Only the assertion: the source copies nothing.
pub prepend : List ℕ → Buffer → Outcome Buffer
prepend data' b = do assert (leb (length data') (prependable_bytes b)); ok b

-- The buffer after `shirnk`: what it swaps with is dropped.
pub shirnk : ℕ → Buffer → Outcome Buffer
shirnk reserved b = do
  other ← new_buffer initial_size
  roomy ← ensure_writeable_bytes (add_size (readable_bytes b) reserved) other
  let piece = to_string_piece b
  filled ← append_from (drop piece.0 b.bytes) (size_of_int piece.1) roomy
  ok (swap b filled).0

pub internal_capacity : Buffer → ℕ
internal_capacity b = b.capacity
