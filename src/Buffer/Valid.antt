-- ===== src/Buffer/Valid.antt =====
-- The representation invariant of `Buffer` (net/buffer.h): where the two indices stand, and that
-- every operation that returns keeps them there.
use my_chat_respons.Common.{
  ℕ, ◌+◌, ◌-◌, ◌^◌, ◌≤◌, ◌<◌, ◌≡◌, List, ◌++◌, arith, ltb, if◌then◌else◌, length, take, drop,
  length-append, length-take, length-drop, length-replicate, ok, Ensures, Returns, Ensures-bind,
  Ensures-of_Returns, add_size,
}
use my_chat_respons.Buffer.{
  Buffer, cheap_prepend, initial_size, readable_bytes, writeable_bytes, prependable_bytes,
  new_buffer, has_written, unwrite, retrive_all, retrive, copy_to, range, move_to_front, make_space,
  ensure_writeable_bytes, append_from, shirnk, swap, begin_write,
}

pub record IsValid (b : Buffer) : Type 0 where
  pub start : cheap_prepend ≤ b.read_index
  pub order : b.read_index ≤ b.write_index
  pub fits : b.write_index ≤ length b.bytes
  pub small : length b.bytes < 2 ^ 63

-- The bytes that a reader has not taken yet, oldest first.
abbrev pub contents : Buffer → List ℕ
contents b = range b.bytes b.read_index b.write_index

pub readable_bytes-eq : {b : Buffer} → IsValid b → readable_bytes b ≡ b.write_index - b.read_index
unfolding readable_bytes
readable_bytes-eq v = omega arith

pub writeable_bytes-eq :
    {b : Buffer} → IsValid b → writeable_bytes b ≡ length b.bytes - b.write_index
unfolding writeable_bytes
writeable_bytes-eq v = omega arith

pub length-range :
    (bytes : List ℕ) (first last : ℕ)
    → last ≤ length bytes
    → length (range bytes first last) ≡ last - first
length-range bytes first last h =
    omega (arith, length-take (last - first) (drop first bytes), length-drop first bytes)

pub length-copy_to :
    (at : ℕ) (xs bytes : List ℕ)
    → at + length xs ≤ length bytes
    → length (copy_to at xs bytes) ≡ length bytes
length-copy_to at xs bytes h = omega (
  arith,
  length-append (take at bytes) (xs ++ drop (at + length xs) bytes),
  length-append xs (drop (at + length xs) bytes),
  length-take at bytes,
  length-drop (at + length xs) bytes,
)

pub length-contents : {b : Buffer} → IsValid b → length (contents b) ≡ readable_bytes b
length-contents {b} v =
    omega (arith, length-range b.bytes b.read_index b.write_index v.fits, readable_bytes-eq v)

pub new_buffer-IsValid : (n : ℕ) → n < 2 ^ 62 → Returns IsValid (new_buffer n)
unfolding new_buffer readable_bytes writeable_bytes prependable_bytes
new_buffer-IsValid n h = ground (arith, length-replicate {A = ℕ} (add_size cheap_prepend n) 0)

pub retrive-IsValid : (len : ℕ) {b : Buffer} → IsValid b → Ensures IsValid (retrive len b)
unfolding retrive retrive_all
retrive-IsValid len {b} v = ground (arith, readable_bytes-eq v)

pub has_written-IsValid : (len : ℕ) {b : Buffer} → IsValid b → Ensures IsValid (has_written len b)
unfolding has_written
has_written-IsValid len {b} v = ground (arith, writeable_bytes-eq v)

pub unwrite-IsValid : (len : ℕ) {b : Buffer} → IsValid b → Ensures IsValid (unwrite len b)
unfolding unwrite
unwrite-IsValid len {b} v = ground (arith, readable_bytes-eq v)

pub make_space-IsValid : (len : ℕ) {b : Buffer} → IsValid b → Ensures IsValid (make_space len b)
unfolding make_space move_to_front
make_space-IsValid len {b} v = ground (
  arith,
  readable_bytes-eq v,
  length-range b.bytes b.read_index b.write_index v.fits,
  length-copy_to cheap_prepend (range b.bytes b.read_index b.write_index) b.bytes,
)

pub ensure_writeable_bytes-IsValid :
    (len : ℕ) {b : Buffer} → IsValid b → Ensures IsValid (ensure_writeable_bytes len b)
unfolding ensure_writeable_bytes
ensure_writeable_bytes-IsValid len {b} v = ground (arith, make_space-IsValid len v)

-- Bytes copied inside the vector leave the invariant alone.
pub copied-IsValid :
    (at : ℕ) (xs : List ℕ) {b : Buffer}
    → IsValid b
    → at + length xs ≤ length b.bytes
    → IsValid (record b { bytes = copy_to at xs b.bytes })
copied-IsValid at xs {b} v h = ground (arith, length-copy_to at xs b.bytes)

-- A successful `ensureWriteableBytes` keeps the invariant and leaves the room that it checked.
abbrev pub HasRoom : ℕ → Buffer → Type 0
HasRoom len b = IsValid b × (len ≤ writeable_bytes b)

pub ensure_writeable_bytes-HasRoom :
    (len : ℕ) {b : Buffer} → IsValid b → Ensures (HasRoom len) (ensure_writeable_bytes len b)
unfolding ensure_writeable_bytes
ensure_writeable_bytes-HasRoom len {b} v =
    Ensures-bind IsValid (HasRoom len)
      (if ltb (writeable_bytes b) len then make_space len b else ok b) _
      (ground (arith, make_space-IsValid len v)) (λ b' v'. ground arith)

-- A write of `len` bytes at `beginWrite`, counted by `hasWritten`.
written-IsValid :
    (memory : List ℕ) (len : ℕ) (b : Buffer)
    → HasRoom len b
    → Ensures IsValid
        (has_written len (record b { bytes = copy_to (begin_write b) (take len memory) b.bytes }))
unfolding begin_write
written-IsValid memory len b (v, room) = has_written-IsValid len (
    copied-IsValid b.read_index (take len memory) v
      (omega (arith, length-take len memory, writeable_bytes-eq v)))

-- If `append(data, len)` on a valid buffer returns, the buffer is valid again.
append_from-IsValid :
    (memory : List ℕ) (len : ℕ) {b : Buffer}
    → IsValid b
    → Ensures IsValid (append_from memory len b)
unfolding append_from
append_from-IsValid memory len {b} v =
    Ensures-bind (HasRoom len) IsValid (ensure_writeable_bytes len b) _
      (ensure_writeable_bytes-HasRoom len v) (written-IsValid memory len)

-- If `shirnk` returns, on any buffer, the buffer is valid.
shirnk-IsValid : (reserved : ℕ) (b : Buffer) → Ensures IsValid (shirnk reserved b)
unfolding shirnk swap
shirnk-IsValid reserved b =
    Ensures-bind IsValid IsValid (new_buffer initial_size) _
      (Ensures-of_Returns IsValid (new_buffer initial_size)
        (new_buffer-IsValid initial_size (omega arith)))
      λ other v.
        Ensures-bind (HasRoom (add_size (readable_bytes b) reserved)) IsValid
          (ensure_writeable_bytes (add_size (readable_bytes b) reserved) other) _
          (ensure_writeable_bytes-HasRoom _ v)
          λ roomy room.
            Ensures-bind IsValid IsValid (append_from _ _ roomy) _ (append_from-IsValid _ _ room.0)
              (λ filled w. w)
