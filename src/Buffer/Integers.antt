-- ===== src/Buffer/Integers.antt =====
-- The integers in a `Buffer` (net/buffer.h), in network order (net/endian.h). What the machine and
-- its <endian.h> do is the parameter `Host`. A signed value is its bit pattern, below 256 ^ width.
pub mod Laws
use my_chat_respons.Common.{
  ℕ, zero, suc, ◌/◌, ◌%◌, ◌^◌, ◌<◌, ◌≡◌, List, [], ◌∷◌, ◌++◌, leb, length, take, drop, Outcome, ok,
  assert, ◌>>=◌, ◌>>◌,
}
use my_chat_respons.Buffer.{
  Buffer, readable_bytes, append, prepend, peek, retrive_int64, retrive_int32, retrive_int16,
  retrive_int8,
}

-- The bytes of an unsigned value of `width` bytes, the most significant first.
abbrev pub big_endian : ℕ → ℕ → List ℕ
big_endian zero x = []
big_endian (suc width) x = big_endian width (x / 256) ++ (x % 256 ∷ [])

-- How the machine keeps an unsigned integer of a width in bytes, and the macros of <endian.h> at
-- that width, with what they document: a value in memory reads back, `be..toh` undoes `htobe..`,
-- and `htobe..` gives the value whose memory image is the big-endian one.
pub record Host : Type 0 where
  pub store : ℕ → ℕ → List ℕ
  pub load : ℕ → List ℕ → ℕ
  pub htobe : ℕ → ℕ → ℕ
  pub betoh : ℕ → ℕ → ℕ
  pub length_store : (width x : ℕ) → length (store width x) ≡ width
  pub load_store : (width x : ℕ) → x < 256 ^ width → load width (store width x) ≡ x
  pub htobe-lt : (width x : ℕ) → x < 256 ^ width → htobe width x < 256 ^ width
  pub betoh-htobe : (width x : ℕ) → x < 256 ^ width → betoh width (htobe width x) ≡ x
  pub store-htobe :
      (width x : ℕ) → x < 256 ^ width → store width (htobe width x) ≡ big_endian width x

module _ (h : Host) where
  pub host_to_network64 : ℕ → ℕ
  host_to_network64 x = h.htobe 8 x

  pub host_to_network32 : ℕ → ℕ
  host_to_network32 x = h.htobe 4 x

  pub host_to_network16 : ℕ → ℕ
  host_to_network16 x = h.htobe 2 x

  pub network_to_host64 : ℕ → ℕ
  network_to_host64 x = h.betoh 8 x

  pub network_to_host32 : ℕ → ℕ
  network_to_host32 x = h.betoh 4 x

  pub network_to_host16 : ℕ → ℕ
  network_to_host16 x = h.betoh 2 x

  pub append_int64 : ℕ → Buffer → Outcome Buffer
  unfolding host_to_network64
  append_int64 x b = append (h.store 8 (host_to_network64 x)) b

  pub append_int32 : ℕ → Buffer → Outcome Buffer
  unfolding host_to_network32
  append_int32 x b = append (h.store 4 (host_to_network32 x)) b

  pub append_int16 : ℕ → Buffer → Outcome Buffer
  unfolding host_to_network16
  append_int16 x b = append (h.store 2 (host_to_network16 x)) b

  pub append_int8 : ℕ → Buffer → Outcome Buffer
  append_int8 x b = append (h.store 1 x) b

  -- `memcpy` of `width` bytes from the first unread one.
  copied : ℕ → Buffer → ℕ
  copied width b = h.load width (take width (drop (peek b) b.bytes))

  pub peek_int64 : Buffer → Outcome ℕ
  unfolding network_to_host64 copied
  peek_int64 b = do assert (leb 8 (readable_bytes b)); ok (network_to_host64 (copied 8 b))

  pub peek_int32 : Buffer → Outcome ℕ
  unfolding network_to_host32 copied
  peek_int32 b = do assert (leb 4 (readable_bytes b)); ok (network_to_host32 (copied 4 b))

  pub peek_int16 : Buffer → Outcome ℕ
  unfolding network_to_host16 copied
  peek_int16 b = do assert (leb 2 (readable_bytes b)); ok (network_to_host16 (copied 2 b))

  pub peek_int8 : Buffer → Outcome ℕ
  unfolding copied
  peek_int8 b = do assert (leb 1 (readable_bytes b)); ok (copied 1 b)

  pub read_int64 : Buffer → Outcome (ℕ × Buffer)
  unfolding peek_int64
  read_int64 b = do result ← peek_int64 b; b' ← retrive_int64 b; ok (result, b')

  pub read_int32 : Buffer → Outcome (ℕ × Buffer)
  unfolding peek_int32
  read_int32 b = do result ← peek_int32 b; b' ← retrive_int32 b; ok (result, b')

  pub read_int16 : Buffer → Outcome (ℕ × Buffer)
  unfolding peek_int16
  read_int16 b = do result ← peek_int16 b; b' ← retrive_int16 b; ok (result, b')

  pub read_int8 : Buffer → Outcome (ℕ × Buffer)
  unfolding peek_int8
  read_int8 b = do result ← peek_int8 b; b' ← retrive_int8 b; ok (result, b')

  pub prepend_int64 : ℕ → Buffer → Outcome Buffer
  unfolding host_to_network64
  prepend_int64 x b = prepend (h.store 8 (host_to_network64 x)) b

  pub prepend_int32 : ℕ → Buffer → Outcome Buffer
  unfolding host_to_network32
  prepend_int32 x b = prepend (h.store 4 (host_to_network32 x)) b

  pub prepend_int16 : ℕ → Buffer → Outcome Buffer
  unfolding host_to_network16
  prepend_int16 x b = prepend (h.store 2 (host_to_network16 x)) b

  pub prepend_int8 : ℕ → Buffer → Outcome Buffer
  prepend_int8 x b = prepend (h.store 1 x) b
