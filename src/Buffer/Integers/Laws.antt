-- ===== src/Buffer/Integers/Laws.antt =====
-- Integers written to a `Buffer` (net/buffer.h) and read back, and the bytes that go out.
use my_chat_respons.Common.{
  ℕ, ◌+◌, ◌^◌, ◌≤◌, ◌<◌, ◌≡◌, ap, ◌∙◌, ◌⊎◌, inl, inr, true, List, [], arith, leb, length, take,
  drop, take_all, drop_all, Outcome, ok, fault, ◌>>=◌, ◌>>◌, assert, Returns, Returns-value,
  Returns-mono,
}
use my_chat_respons.Buffer.{
  Buffer, cheap_prepend, readable_bytes, prependable_bytes, retrive, append, prepend, peek,
  retrive_int64, retrive_int32, retrive_int16,
}
use my_chat_respons.Buffer.Valid.{IsValid, contents, length-contents}
use my_chat_respons.Buffer.Append.{append-drained}
use my_chat_respons.Buffer.Retrieve.{retrive-drop, take-contents}
use my_chat_respons.Buffer.Integers.{
  Host, big_endian, append_int64, append_int32, append_int16, read_int64, read_int32, read_int16,
  prepend_int32, copied, host_to_network16, network_to_host16,
}

-- The value read is `x`, and nothing is left unread.
abbrev pub ReadsBack : ℕ → Outcome (ℕ × Buffer) → Type 0
ReadsBack x r = Returns (λ r. (r.0 ≡ x) × IsValid r.1 × (contents r.1 ≡ [])) r

module _ (h : Host) where
  -- A valid buffer whose unread bytes are one image gives it to `memcpy`, and `retrive` of its
  -- length leaves nothing.
  copied_image :
      (width : ℕ) (image : List ℕ) (b : Buffer)
      → IsValid b
      → contents b ≡ image
      → length image ≡ width
      → (copied h width b ≡ h.load width image)
        × (leb width (readable_bytes b) ≡ true)
        × Returns (λ b'. IsValid b' × (contents b' ≡ [])) (retrive width b)
  unfolding copied peek
  copied_image width image b v e n = (
    ap (h.load width)
        (take-contents width v enough ∙ ap (take width) e ∙ take_all width image (omega arith)),
    ground (arith, length-contents v, size),
    elim (retrive-drop width b v) [
      | inl short ↦ absurd (omega (arith, size))
      | inr (_, r) ↦
          Returns-mono (λ b'. IsValid b' × (contents b' ≡ drop width (contents b)))
            (λ b'. IsValid b' × (contents b' ≡ [])) (retrive width b)
            (λ b' (v', q). (v', q ∙ drop_all width (contents b) (omega (arith, size)))) r
    ],
  )
    where
      size : length (contents b) ≡ width
      size = ap length e ∙ n

      enough : width ≤ length (contents b)
      enough = omega (arith, size)

  -- The shape that the readers share.
  reads_image :
      (width x : ℕ) (decode : ℕ → ℕ) (image : List ℕ) (b : Buffer)
      → IsValid b
      → contents b ≡ image
      → length image ≡ width
      → decode (h.load width image) ≡ x
      → ReadsBack x (do
        result ← (do assert (leb width (readable_bytes b)); ok (decode (copied h width b)))
        b' ← retrive width b
        ok (result, b'))
  reads_image width x decode image b v e n d =
      let (same, enough, rest) = copied_image width image b v e n in
      let (b', r, left) =
        Returns-value (λ b'. IsValid b' × (contents b' ≡ [])) (retrive width b) rest in
      rw (enough, r) (ap decode same ∙ d, left.0, left.1)

  decoded :
      (width x : ℕ)
      → x < 256 ^ width
      → h.betoh width (h.load width (h.store width (h.htobe width x))) ≡ x
  decoded width x small =
      ap (h.betoh width) (h.load_store width (h.htobe width x) (h.htobe-lt width x small))
      ∙ h.betoh-htobe width x small

  -- An integer of 64 bits appended to a valid buffer with nothing unread, and room for it, is read
  -- back as it was, and leaves nothing unread.
  pub append_int64-read_int64 :
      (x : ℕ) (b : Buffer)
      → x < 2 ^ 64
      → IsValid b
      → readable_bytes b ≡ 0
      → 8 + cheap_prepend ≤ length b.bytes
      → Returns (λ b'. ReadsBack x (read_int64 h b')) (append_int64 h x b)
  unfolding append_int64 read_int64 retrive_int64
  append_int64-read_int64 x b small v empty fits =
      let image = h.store 8 (h.htobe 8 x) in
      Returns-mono (λ b'. IsValid b' × (contents b' ≡ image)) (λ b'. ReadsBack x (read_int64 h b'))
        (append image b)
        (λ b' (v', e).
          reads_image 8 x (h.betoh 8) image b' v' e (h.length_store 8 (h.htobe 8 x))
            (decoded 8 x small))
        (append-drained image b v empty (omega (arith, h.length_store 8 (h.htobe 8 x))))

  -- An integer of 32 bits appended to a valid buffer with nothing unread, and room for it, is read
  -- back as it was, and leaves nothing unread.
  pub append_int32-read_int32 :
      (x : ℕ) (b : Buffer)
      → x < 2 ^ 32
      → IsValid b
      → readable_bytes b ≡ 0
      → 4 + cheap_prepend ≤ length b.bytes
      → Returns (λ b'. ReadsBack x (read_int32 h b')) (append_int32 h x b)
  unfolding append_int32 read_int32 retrive_int32
  append_int32-read_int32 x b small v empty fits =
      let image = h.store 4 (h.htobe 4 x) in
      Returns-mono (λ b'. IsValid b' × (contents b' ≡ image)) (λ b'. ReadsBack x (read_int32 h b'))
        (append image b)
        (λ b' (v', e).
          reads_image 4 x (h.betoh 4) image b' v' e (h.length_store 4 (h.htobe 4 x))
            (decoded 4 x small))
        (append-drained image b v empty (omega (arith, h.length_store 4 (h.htobe 4 x))))

  -- An integer of 16 bits appended to a valid buffer with nothing unread, and room for it, is read
  -- back as it was, and leaves nothing unread.
  pub append_int16-read_int16 :
      (x : ℕ) (b : Buffer)
      → x < 2 ^ 16
      → IsValid b
      → readable_bytes b ≡ 0
      → 2 + cheap_prepend ≤ length b.bytes
      → Returns (λ b'. ReadsBack x (read_int16 h b')) (append_int16 h x b)
  unfolding append_int16 read_int16 retrive_int16
  append_int16-read_int16 x b small v empty fits =
      let image = h.store 2 (h.htobe 2 x) in
      Returns-mono (λ b'. IsValid b' × (contents b' ≡ image)) (λ b'. ReadsBack x (read_int16 h b'))
        (append image b)
        (λ b' (v', e).
          reads_image 2 x (h.betoh 2) image b' v' e (h.length_store 2 (h.htobe 2 x))
            (decoded 2 x small))
        (append-drained image b v empty (omega (arith, h.length_store 2 (h.htobe 2 x))))

  -- A 32-bit integer appended to a valid buffer with nothing unread, and room for it, goes out as
  -- its four bytes with the most significant first.
  append_int32-big_endian :
      (x : ℕ) (b : Buffer)
      → x < 2 ^ 32
      → IsValid b
      → readable_bytes b ≡ 0
      → 4 + cheap_prepend ≤ length b.bytes
      → Returns (λ b'. contents b' ≡ big_endian 4 x) (append_int32 h x b)
  unfolding append_int32
  append_int32-big_endian x b small v empty fits =
      let image = h.store 4 (h.htobe 4 x) in
      Returns-mono (λ b'. IsValid b' × (contents b' ≡ image)) (λ b'. contents b' ≡ big_endian 4 x)
        (append image b) (λ b' (v', e). e ∙ h.store-htobe 4 x small)
        (append-drained image b v empty (omega (arith, h.length_store 4 (h.htobe 4 x))))

  -- `prependInt32` writes nothing: on every buffer it stops where `prependableBytes` is below four,
  -- and otherwise returns the buffer as it was.
  prepend_int32-unchanged :
      (x : ℕ) (b : Buffer)
      → ((b.read_index < 4) × (prepend_int32 h x b ≡ fault))
        ⊎ ((4 ≤ b.read_index) × (prepend_int32 h x b ≡ ok b))
  unfolding prepend_int32 prepend prependable_bytes
  prepend_int32-unchanged x b = ground (arith, h.length_store 4 (h.htobe 4 x))

-- A port that goes to the network and back is as it was.
pub network_to_host16-host_to_network16 :
    (h : Host) (x : ℕ) → x < 256 ^ 2 → network_to_host16 h (host_to_network16 h x) ≡ x
unfolding network_to_host16 host_to_network16
network_to_host16-host_to_network16 h x small = h.betoh-htobe 2 x small
