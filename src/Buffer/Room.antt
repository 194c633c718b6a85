-- ===== src/Buffer/Room.antt =====
-- `makeSpace` and `ensureWriteableBytes` (net/buffer.h): the room for new bytes, and what a move of
-- the readable bytes to the front of the vector keeps.
use my_chat_respons.Common.{
  ℕ, ◌+◌, ◌-◌, ◌^◌, ◌≤◌, ◌<◌, ◌≡◌, ap, ◌∙◌, List, [], ◌++◌, arith, length, take, drop, length-take,
  take_eq, drop_eq, take-append_add, drop-append_add, ok, fault, Ensures, add_size,
}
use mathlib.Core.List.{append-nil}
use my_chat_respons.Buffer.{
  Buffer, cheap_prepend, readable_bytes, writeable_bytes, prependable_bytes, copy_to, reserve,
  range, move_to_front, make_space, ensure_writeable_bytes,
}
use my_chat_respons.Buffer.Valid.{
  IsValid, contents, HasRoom, readable_bytes-eq, writeable_bytes-eq, length-range, length-copy_to,
  length-contents,
}

-- What stands in the vector from the place of a copy on.
pub drop-copy_to :
    (at : ℕ) (xs bytes : List ℕ)
    → at ≤ length bytes
    → drop at (copy_to at xs bytes) ≡ xs ++ drop (at + length xs) bytes
drop-copy_to at xs bytes h =
    drop_eq at (length (take at bytes) + 0) (copy_to at xs bytes)
      (omega (arith, length-take at bytes))
    ∙ drop-append_add 0 (take at bytes) (xs ++ drop (at + length xs) bytes)

-- A range that starts at a copied text and is longer shows the text, then the old bytes.
pub range-copy_to :
    (at last : ℕ) (xs bytes : List ℕ)
    → at ≤ length bytes
    → at + length xs ≤ last
    → range (copy_to at xs bytes) at last ≡ xs ++ range bytes (at + length xs) last
range-copy_to at last xs bytes h k = rw (drop-copy_to at xs bytes h) (
    take_eq (last - at) (length xs + (last - (at + length xs))) (xs ++ drop (at + length xs) bytes)
      (omega arith)
    ∙ take-append_add (last - (at + length xs)) xs (drop (at + length xs) bytes))

-- A range that is as long as the copied text shows that text.
pub range-copy_to_self :
    (at : ℕ) (xs bytes : List ℕ)
    → at ≤ length bytes
    → range (copy_to at xs bytes) at (at + length xs) ≡ xs
range-copy_to_self at xs bytes h =
    range-copy_to at (at + length xs) xs bytes h (omega arith)
    ∙ ap (◌++◌ xs)
        (take_eq (at + length xs - (at + length xs)) 0 (drop (at + length xs) bytes) (omega arith))
    ∙ append-nil xs

pub range_eq : (m n first : ℕ) (bytes : List ℕ) → m ≡ n → range bytes first m ≡ range bytes first n
range_eq m n first bytes e = ap (range bytes first) e

-- Moving the readable bytes to the front keeps them.
pub make_space-contents :
    (len : ℕ) {b : Buffer} → IsValid b → Ensures (λ b'. contents b' ≡ contents b) (make_space len b)
unfolding make_space move_to_front
make_space-contents len {b} v = ground (
  arith,
  readable_bytes-eq v,
  length-contents v,
  range-copy_to_self cheap_prepend (contents b) b.bytes,
  range_eq (add_size cheap_prepend (readable_bytes b)) (cheap_prepend + length (contents b))
      cheap_prepend (copy_to cheap_prepend (contents b) b.bytes),
)

-- The buffer after a move to the front.
abbrev pub moved : Buffer → Buffer
moved b = record b {
  bytes = copy_to cheap_prepend (contents b) b.bytes;
  read_index = cheap_prepend;
  write_index = cheap_prepend + (b.write_index - b.read_index);
}

pub move_to_front-eq :
    (b : Buffer) → IsValid b → cheap_prepend < b.read_index → move_to_front b ≡ ok (moved b)
unfolding move_to_front
move_to_front-eq b v h = ground (
  arith,
  readable_bytes-eq v,
  readable_bytes-eq {b = moved b} (
      ground (
        arith,
        length-copy_to cheap_prepend (contents b) b.bytes,
        length-contents v,
        readable_bytes-eq v,
      )),
)

pub moved-IsValid : (b : Buffer) → IsValid b → IsValid (moved b)
moved-IsValid b v = ground (
  arith,
  length-copy_to cheap_prepend (contents b) b.bytes,
  length-range b.bytes b.read_index b.write_index v.fits,
)

module _ (len : ℕ) (b : Buffer) (v : IsValid b) where
  pub ensure_fits : len ≤ writeable_bytes b → ensure_writeable_bytes len b ≡ ok b
  unfolding ensure_writeable_bytes
  ensure_fits h = ground arith

  pub ensure_moves :
      writeable_bytes b < len
      → len + readable_bytes b + cheap_prepend ≤ length b.bytes
      → ensure_writeable_bytes len b ≡ ok (moved b)
  unfolding ensure_writeable_bytes make_space prependable_bytes
  ensure_moves h k = ground (
    arith,
    writeable_bytes-eq v,
    readable_bytes-eq v,
    move_to_front-eq b v,
    writeable_bytes-eq (moved-IsValid b v),
    length-copy_to cheap_prepend (contents b) b.bytes,
    length-range b.bytes b.read_index b.write_index v.fits,
  )

  pub ensure_faults :
      len < 2 ^ 63
      → length b.bytes < len + readable_bytes b + cheap_prepend
      → ensure_writeable_bytes len b ≡ fault
  unfolding ensure_writeable_bytes make_space prependable_bytes
  ensure_faults h k = ground (
    arith,
    writeable_bytes-eq v,
    readable_bytes-eq v,
    writeable_bytes-eq {b = reserve (add_size b.write_index len) b} (ground arith),
  )

pub moved-HasRoom :
    (len : ℕ) (b : Buffer)
    → IsValid b
    → len + readable_bytes b + cheap_prepend ≤ length b.bytes
    → HasRoom len (moved b)
moved-HasRoom len b v h = (
  moved-IsValid b v,
  omega (
    arith,
    readable_bytes-eq v,
    writeable_bytes-eq (moved-IsValid b v),
    length-copy_to cheap_prepend (contents b) b.bytes,
    length-range b.bytes b.read_index b.write_index v.fits,
  ),
)

pub moved-contents : (b : Buffer) → IsValid b → contents (moved b) ≡ contents b
moved-contents b v =
    range_eq (cheap_prepend + (b.write_index - b.read_index)) (cheap_prepend + length (contents b))
      cheap_prepend (copy_to cheap_prepend (contents b) b.bytes)
      (omega (arith, length-range b.bytes b.read_index b.write_index v.fits))
    ∙ range-copy_to_self cheap_prepend (contents b) b.bytes (omega arith)

pub range_empty : (bytes : List ℕ) (first last : ℕ) → last ≤ first → range bytes first last ≡ []
range_empty bytes first last h = take_eq (last - first) 0 (drop first bytes) (omega arith)
