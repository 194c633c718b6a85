-- ===== src/Buffer/Retrieve.antt =====
-- The readers of `Buffer` (net/buffer.h): what `retrive` and its callers return and leave.
use my_chat_respons.Common.{
  ℕ, ◌+◌, ◌-◌, ◌≤◌, ◌<◌, min, ◌≡◌, sym, ap, ◌∙◌, ◌≢◌, ◌⊎◌, inl, inr, ◌++◌, arith, length, take,
  drop, take-append-drop, drop_all, take_eq, drop-drop, take-take, drop-take, fault, Returns,
  Returns-value,
}
use my_chat_respons.Buffer.{
  Buffer, cheap_prepend, retrive_all, retrive, retrive_until, retrive_as_string, peek, begin_write,
}
use my_chat_respons.Buffer.Valid.{IsValid, contents, readable_bytes-eq, length-contents}
use my_chat_respons.Buffer.Room.{range_empty}

contents-advance :
    (len : ℕ) (b : Buffer)
    → len ≤ b.write_index - b.read_index
    → contents (record b { read_index = b.read_index + len }) ≡ drop len (contents b)
contents-advance len b h =
    let r = b.read_index in
    let w = b.write_index in
    sym (
      drop-take len (w - r) (drop r b.bytes)
      ∙ ap (take (w - r - len)) (drop-drop len r b.bytes)
      ∙ take_eq (w - r - len) (w - (r + len)) (drop (r + len) b.bytes) (omega arith))

-- On a valid buffer `retrive` stops exactly when fewer bytes are unread; otherwise it drops that
-- many bytes from the front of the unread ones and keeps the buffer valid.
pub retrive-drop :
    (len : ℕ) (b : Buffer)
    → IsValid b
    → ((retrive len b ≡ fault) × (length (contents b) < len))
      ⊎ ((len ≤ length (contents b))
          × Returns (λ b'. IsValid b' × (contents b' ≡ drop len (contents b))) (retrive len b))
unfolding retrive retrive_all
retrive-drop len b v = ground (
  arith,
  length-contents v,
  readable_bytes-eq v,
  contents-advance len b,
  drop_all len (contents b),
  range_empty b.bytes cheap_prepend cheap_prepend,
)

-- The bytes from the first unread one on are the unread ones, as far as there are such.
pub take-contents :
    (len : ℕ) {b : Buffer}
    → IsValid b
    → len ≤ length (contents b)
    → take len (drop b.read_index b.bytes) ≡ take len (contents b)
take-contents len {b} v h =
    take_eq len (min len (b.write_index - b.read_index)) (drop b.read_index b.bytes)
      (omega (arith, length-contents v, readable_bytes-eq v))
    ∙ sym (take-take len (b.write_index - b.read_index) (drop b.read_index b.bytes))

-- On a valid buffer `retriveAsString` returns the first `len` unread bytes and leaves the others;
-- it stops when there are fewer.
retrive_as_string-split :
    (len : ℕ) (b : Buffer)
    → IsValid b
    → len ≤ length (contents b)
    → Returns
        (λ r. IsValid r.1 × (r.0 ≡ take len (contents b)) × (r.0 ++ contents r.1 ≡ contents b))
        (retrive_as_string len b)
unfolding retrive_as_string peek
retrive_as_string-split len b v h = elim (retrive-drop len b v) [
  | inl short ↦ absurd (omega arith)
  | inr (_, r) ↦
      let (b', e, (v', rest)) =
        Returns-value (λ b'. IsValid b' × (contents b' ≡ drop len (contents b))) (retrive len b)
          r in
      ground (
        arith,
        e,
        v',
        rest,
        length-contents v,
        take-contents len v h,
        take-append-drop len (contents b),
      )
]

-- `retriveUntil` goes nowhere: on a valid buffer it stops at every pointer but that of the first
-- unread byte, where it keeps all unread bytes.
retrive_until_stuck :
    (end : ℕ) (b : Buffer)
    → IsValid b
    → ((end ≢ peek b) × (retrive_until end b ≡ fault))
      ⊎ ((end ≡ peek b) × Returns (λ b'. contents b' ≡ contents b) (retrive_until end b))
unfolding retrive_until peek begin_write retrive retrive_all
retrive_until_stuck end b v = ground (
  arith,
  readable_bytes-eq v,
  range_empty b.bytes cheap_prepend cheap_prepend,
  range_empty b.bytes b.read_index b.write_index,
)
