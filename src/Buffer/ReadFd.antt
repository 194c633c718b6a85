-- ===== src/Buffer/ReadFd.antt =====
-- `Buffer::readFd` (net/buffer.cpp). The kernel's `readv` is a parameter: from the room that the
-- two areas offer, it gives the bytes that it put there in order, or an error number.
use my_chat_respons.Common.{
  ℕ, ◌+◌, ◌-◌, ◌^◌, ◌≤◌, ◌<◌, ◌≡◌, ap, ◌∙◌, ◌↔◌, List, ◌++◌, arith, ltb, leb, if◌then◌else◌, length,
  take, drop, length-take, length-drop, take_all, take_eq, drop-take, take-append_le,
  take-append_add, drop-append_le, Outcome, ok, fault, ◌>>=◌, Returns, bind-ok-fault, add_size,
}
use my_chat_respons.Buffer.{Buffer, cheap_prepend, writeable_bytes, copy_to, range, append}
use my_chat_respons.Buffer.Valid.{
  IsValid, contents, readable_bytes-eq, writeable_bytes-eq, length-range, length-copy_to,
}
use my_chat_respons.Buffer.Append.{append_fault_iff}
use my_chat_respons.Buffer.Room.{range_eq}

pub data ReadResult : Type 0 where
  got : List ℕ → ReadResult
  failed : ℕ → ReadResult

-- What `readFd` returns: the count of `readv`, or -1 with the saved error number.
pub data IoCount : Type 0 where
  count : ℕ → IoCount
  error : ℕ → IoCount

abbrev pub extra_size : ℕ
extra_size = 65536

-- The second area is offered only when the vector's own room is smaller than it.
unfoldable pub offered : Buffer → ℕ
offered b = writeable_bytes b + (if ltb (writeable_bytes b) extra_size then extra_size else 0)

-- The bytes that fit go to the vector's room, the others to `extrabuf`, from where they are
-- appended.
received : List ℕ → Buffer → Outcome (IoCount × Buffer)
received xs b =
    let n = length xs in
    let writeable = writeable_bytes b in
    let filled : Buffer = record b { bytes = copy_to b.write_index (take writeable xs) b.bytes } in
    if leb n writeable
    then ok (count n, record filled { write_index = add_size b.write_index n })
    else (do
      b' ← append (drop writeable xs) (record filled { write_index = length filled.bytes })
      ok (count n, b'))

pub read_fd : (ℕ → ReadResult) → Buffer → Outcome (IoCount × Buffer)
unfolding received offered
read_fd readv b = elim (readv (offered b)) [ got xs ↦ received xs b | failed e ↦ ok (error e, b) ]

-- Writing behind the unread bytes extends them.
range-copy_to_end :
    (first last : ℕ) (xs bytes : List ℕ)
    → first ≤ last
    → last + length xs ≤ length bytes
    → range (copy_to last xs bytes) first (last + length xs) ≡ range bytes first last ++ xs
range-copy_to_end first last xs bytes h k =
    let old = range bytes first last in
    let rest = drop (last + length xs) bytes in
    ap (take (last + length xs - first)) (
      drop-append_le first (take last bytes) (xs ++ rest) (omega (arith, length-take last bytes))
      ∙ ap (λ l. l ++ (xs ++ rest)) (drop-take first last bytes))
    ∙ take_eq (last + length xs - first) (length old + length xs) (old ++ (xs ++ rest))
        (omega (arith, length-range bytes first last (omega arith)))
    ∙ take-append_add (length xs) old (xs ++ rest)
    ∙ ap (◌++◌ old)
        (take-append_le (length xs) xs rest (omega arith) ∙ take_all (length xs) xs (omega arith))

received-fits :
    (xs : List ℕ) (b : Buffer)
    → IsValid b
    → length xs ≤ writeable_bytes b
    → Returns
        (λ r. (r.0 ≡ count (length xs)) × IsValid r.1 × (contents r.1 ≡ contents b ++ xs))
        (received xs b)
unfolding received
received-fits xs b v fits = ground (
  arith,
  writeable_bytes-eq v,
  take_all (writeable_bytes b) xs,
  length-copy_to b.write_index xs b.bytes,
  range-copy_to_end b.read_index b.write_index xs b.bytes,
  range_eq (add_size b.write_index (length xs)) (b.write_index + length xs) b.read_index
      (copy_to b.write_index xs b.bytes),
)

-- The buffer whose room is used up, as `append` meets it.
abbrev filled_up : List ℕ → Buffer → Buffer
filled_up xs b =
    let bytes = copy_to b.write_index (take (writeable_bytes b) xs) b.bytes in
    record b { bytes = bytes; write_index = length bytes }

filled_up-IsValid :
    (xs : List ℕ) (b : Buffer)
    → IsValid b
    → writeable_bytes b < length xs
    → IsValid (filled_up xs b) × (length (filled_up xs b).bytes ≡ length b.bytes)
filled_up-IsValid xs b v over = ground (
  arith,
  writeable_bytes-eq v,
  length-take (writeable_bytes b) xs,
  length-copy_to b.write_index (take (writeable_bytes b) xs) b.bytes,
)

received-over :
    (xs : List ℕ) (b : Buffer)
    → writeable_bytes b < length xs
    → received xs b
      ≡ (append (drop (writeable_bytes b) xs) (filled_up xs b) >>= λ b'. ok (count (length xs), b'))
unfolding received
received-over xs b over = ground arith

received-overflow :
    (xs : List ℕ) (b : Buffer)
    → IsValid b
    → writeable_bytes b < length xs
    → length xs ≤ offered b
    → (received xs b ≡ fault) ↔ (b.read_index < length xs - writeable_bytes b + cheap_prepend)
unfolding offered
received-overflow xs b v over most =
    let (w, same) = filled_up-IsValid xs b v over in
    let rest = drop (writeable_bytes b) xs in
    let n = length-drop (writeable_bytes b) xs in
    let bound : length rest < 2 ^ 63 = ground (arith, n) in
    let (to, from) = append_fault_iff rest (filled_up xs b) w bound in
    let whole =
      bind-ok-fault {B = IoCount × Buffer} (append rest (filled_up xs b))
        (λ b'. (count (length xs), b')) in
    let full = readable_bytes-eq w in
    rw (received-over xs b over) (
      λ e. omega (arith, to (whole.0 e), full, same, n),
      λ h. whole.1 (from (omega (arith, full, same, n))),
    )

read_fd-received :
    (readv : ℕ → ReadResult) (xs : List ℕ) (b : Buffer)
    → readv (offered b) ≡ got xs
    → read_fd readv b ≡ received xs b
unfolding read_fd
read_fd-received readv xs b e = rw (e, read_fd)

-- When `readv` returns no more than the room in the vector, `readFd` on a valid buffer returns the
-- count, keeps the buffer valid, and the unread bytes are the old ones followed by those received.
read_fd-fits :
    (readv : ℕ → ReadResult) (xs : List ℕ) (b : Buffer)
    → IsValid b
    → readv (offered b) ≡ got xs
    → length xs ≤ writeable_bytes b
    → Returns
        (λ r. (r.0 ≡ count (length xs)) × IsValid r.1 × (contents r.1 ≡ contents b ++ xs))
        (read_fd readv b)
read_fd-fits readv xs b v e fits = rw (read_fd-received readv xs b e) (received-fits xs b v fits)

-- When `readv` returns more than the room in the vector, and no more than it was offered, `readFd` on a valid buffer
-- stops exactly if the excess is larger than what is free in front of the unread bytes, past the eight bytes.
pub read_fd_overflow_iff :
    (readv : ℕ → ReadResult) (xs : List ℕ) (b : Buffer)
    → IsValid b
    → readv (offered b) ≡ got xs
    → writeable_bytes b < length xs
    → length xs ≤ offered b
    → (read_fd readv b ≡ fault) ↔ (b.read_index < length xs - writeable_bytes b + cheap_prepend)
read_fd_overflow_iff readv xs b v e over most =
    rw (read_fd-received readv xs b e) (received-overflow xs b v over most)
