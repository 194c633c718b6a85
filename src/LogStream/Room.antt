-- ===== src/LogStream/Room.antt =====
-- The room in the buffer of a log line (base/log_stream.h), and the scale of `formatSI`.
use my_chat_respons.Common.{
  ℕ, ◌+◌, ◌*◌, ◌^◌, ◌≤◌, ◌<◌, ◌≡◌, ◌⊎◌, some, List, ◌++◌, arith, length, length-append,
}
use my_chat_respons.LogStream.{FixBuffer, append, format_si}

-- `append` is all or nothing: the bytes are added exactly if they leave at least one place free,
-- and otherwise the buffer is as it was; so a buffer with a free place keeps one.
append-whole :
    (xs : List ℕ) (b : FixBuffer)
    → length b.text < b.size
    → (length (append xs b).text < b.size)
      × (((length b.text + length xs < b.size) × ((append xs b).text ≡ b.text ++ xs))
          ⊎ ((b.size ≤ length b.text + length xs) × (append xs b ≡ b)))
unfolding append
append-whole xs b h = ground (arith, length-append b.text xs)

-- What `formatSI` shows of a count from 1000 to below 999.5 P has three digits: the count in the
-- unit, with that many decimals, rounds to a number from 100 to 999.
format_si-three_digits :
    (s decimals unit : ℕ)
    → s < 999500000000000000
    → format_si s ≡ some (decimals, unit)
    → (199 * 10 ^ unit < 2 * s * 10 ^ decimals) × (2 * s * 10 ^ decimals < 1999 * 10 ^ unit)
unfolding format_si
format_si-three_digits s decimals unit top e = ground arith
