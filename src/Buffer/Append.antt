-- ===== src/Buffer/Append.antt =====
-- What `Buffer::append` (net/buffer.h) leaves readable. `beginWrite` is the overload for a mutable
-- buffer there, and points at the first unread byte.
use my_chat_respons.Common.{
  ℕ, ◌+◌, ◌^◌, ◌≤◌, ◌<◌, ◌≡◌, refl, ap, ◌∙◌, ◌≢◌, ◌↔◌, List, ◌∷◌, ◌++◌, arith, length, take,
  take_all, ok, fault, Returns, Ensures, Ensures-of_Returns,
}
use mathlib.Core.List.{append-nil}
use native.Mathlib.Decide.{dec_lt}
use my_chat_respons.Buffer.{
  Buffer, cheap_prepend, readable_bytes, writeable_bytes, has_written, copy_to, range, append_from,
  append, begin_write,
}
use my_chat_respons.Buffer.Valid.{
  IsValid, contents, HasRoom, readable_bytes-eq, writeable_bytes-eq, length-copy_to,
  length-contents, copied-IsValid,
}
use my_chat_respons.Buffer.Room.{
  range-copy_to, moved, moved-HasRoom, moved-contents, range_empty, ensure_fits, ensure_moves,
  ensure_faults,
}

-- The buffer after `append` where no move is needed.
abbrev appended : List ℕ → Buffer → Buffer
appended xs b = record b {
  bytes = copy_to b.read_index xs b.bytes;
  write_index = b.write_index + length xs;
}

write_appended :
    (xs : List ℕ) (b : Buffer)
    → HasRoom (length xs) b
    → has_written
        (length xs)
        (record b { bytes = copy_to (begin_write b) (take (length xs) xs) b.bytes })
      ≡ ok (appended xs b)
unfolding has_written begin_write
write_appended xs b (v, room) = rw (take_all (length xs) xs (omega arith)) (
    ground (
      arith,
      writeable_bytes-eq v,
      length-copy_to b.read_index xs b.bytes,
      writeable_bytes-eq (copied-IsValid b.read_index xs v (omega (arith, writeable_bytes-eq v))),
    ))

append_with_room :
    (xs : List ℕ) (b : Buffer) → HasRoom (length xs) b → append xs b ≡ ok (appended xs b)
unfolding append append_from
append_with_room xs b (v, room) =
    rw (ensure_fits (length xs) b v room) (write_appended xs b (v, room))

append_moving :
    (xs : List ℕ) (b : Buffer)
    → IsValid b
    → writeable_bytes b < length xs
    → length xs + readable_bytes b + cheap_prepend ≤ length b.bytes
    → append xs b ≡ ok (appended xs (moved b))
unfolding append append_from
append_moving xs b v h k =
    rw (ensure_moves (length xs) b v h k)
      (write_appended xs (moved b) (moved-HasRoom (length xs) b v k))

contents-appended :
    (xs : List ℕ) (b : Buffer)
    → HasRoom (length xs) b
    → contents (appended xs b)
      ≡ xs ++ range b.bytes (b.read_index + length xs) (b.write_index + length xs)
contents-appended xs b (v, room) =
    range-copy_to b.read_index (b.write_index + length xs) xs b.bytes (omega arith) (omega arith)

appended-IsValid : (xs : List ℕ) (b : Buffer) → HasRoom (length xs) b → IsValid (appended xs b)
appended-IsValid xs b (v, room) =
    ground (arith, writeable_bytes-eq v, length-copy_to b.read_index xs b.bytes)

-- Where the bytes fit, `append` writes them into a buffer with room that shows the same bytes:
-- the buffer itself, or the one moved to the front.
append_cases :
    (xs : List ℕ) (b : Buffer)
    → IsValid b
    → length xs + readable_bytes b + cheap_prepend ≤ length b.bytes
    → (b0 : Buffer) × HasRoom (length xs) b0
      × (contents b0 ≡ contents b)
      × (append xs b ≡ ok (appended xs b0))
append_cases xs b v fits = elim (dec_lt (writeable_bytes b) (length xs)) [
  | yes h ↦
      (moved b, moved-HasRoom (length xs) b v fits, moved-contents b v, append_moving xs b v h fits)
  | no h ↦ (b, (v, omega arith), refl, append_with_room xs b (v, omega arith))
]

-- What `append` promises: the unread bytes stay, and the new ones follow.
abbrev pub Queued : List ℕ → Buffer → Buffer → Type 0
Queued xs b b' = contents b' ≡ contents b ++ xs

-- On a valid buffer with nothing unread, into which the bytes fit, `append` returns a valid buffer whose unread
-- bytes are exactly the new ones, whether or not it moves the front.
pub append-drained :
    (xs : List ℕ) (b : Buffer)
    → IsValid b
    → readable_bytes b ≡ 0
    → length xs + cheap_prepend ≤ length b.bytes
    → Returns (λ b'. IsValid b' × (contents b' ≡ xs)) (append xs b)
append-drained xs b v empty fits =
    let (b0, room, same, e) = append_cases xs b v (omega arith) in
    rw e (
      appended-IsValid xs b0 room,
      contents-appended xs b0 room
          ∙ ap (◌++◌ xs) (
              range_empty b0.bytes (b0.read_index + length xs) (b0.write_index + length xs) (
                omega (
                  arith,
                  ap length same,
                  length-contents v,
                  length-contents room.0,
                  readable_bytes-eq room.0,
                )))
          ∙ append-nil xs,
    )

-- On a valid buffer `append` stops exactly when the unread bytes and the new ones do not fit
-- behind the eight bytes kept in front: it never enlarges the vector.
pub append_fault_iff :
    (xs : List ℕ) (b : Buffer)
    → IsValid b
    → length xs < 2 ^ 63
    → (append xs b ≡ fault) ↔ (length b.bytes < length xs + readable_bytes b + cheap_prepend)
unfolding append append_from
append_fault_iff xs b v small = (to, from)
  where
    to : append xs b ≡ fault → length b.bytes < length xs + readable_bytes b + cheap_prepend
    to e = elim (dec_lt (length b.bytes) (length xs + readable_bytes b + cheap_prepend)) [
      | yes h ↦ h
      | no h ↦ let (b0, _, _, f) = append_cases xs b v (omega arith) in cc
    ]

    from : length b.bytes < length xs + readable_bytes b + cheap_prepend → append xs b ≡ fault
    from h = rw (append, append_from, ensure_faults (length xs) b v small h)

-- Where the unread bytes start with another byte than the new ones, and the new ones fit,
-- `append` overwrites unread bytes: the result is not the old bytes followed by the new ones.
append_overwrites :
    (x c : ℕ) (xs old : List ℕ) (b : Buffer)
    → IsValid b
    → contents b ≡ c ∷ old
    → x ≢ c
    → length (x ∷ xs) + readable_bytes b + cheap_prepend ≤ length b.bytes
    → Returns (λ b'. ¬ Queued (x ∷ xs) b b') (append (x ∷ xs) b)
append_overwrites x c xs old b v start differ fits =
    let (b0, room, same, e) = append_cases (x ∷ xs) b v fits in
    rw e (λ q. differ (cc (contents-appended (x ∷ xs) b0 room, q, ap (λ l. l ++ (x ∷ xs)) start)))

-- The same with no room assumed: what `append` returns, if it does.
pub append-drained_partial :
    (xs : List ℕ) (b : Buffer)
    → IsValid b
    → readable_bytes b ≡ 0
    → length xs < 2 ^ 63
    → Ensures (λ b'. IsValid b' × (contents b' ≡ xs)) (append xs b)
append-drained_partial xs b v empty small =
    elim (dec_lt (length b.bytes) (length xs + cheap_prepend)) [
      | yes h ↦ rw ((append_fault_iff xs b v small).1 (omega arith)) tt
      | no h ↦
          Ensures-of_Returns (λ b'. IsValid b' × (contents b' ≡ xs)) (append xs b)
            (append-drained xs b v empty (omega arith))
    ]
