-- ===== src/Connector/Backoff.antt =====
-- How long a connector (net/connector.cpp) waits between its tries.
use native.Mathlib.Nat.{pow-suc, pow-succ', mul_assoc, le-mul_of_pos_right}
use native.Mathlib.Decide.{dec_lt}
use my_chat_respons.Common.{
  ℕ, zero, suc, ◌*◌, ◌^◌, ◌≤◌, ◌<◌, min, ◌≡◌, refl, sym, ap, ◌∙◌, true, ◌∷◌, arith, Outcome, ok,
  ◌>>=◌, Returns,
}
use my_chat_respons.Connector.{
  max_retry_delay, disconnected, closes, starts_after, Connector, try_again, start_in_loop,
}

-- A row of tries, each of which the kernel turns down for now.
pub tries : ℕ → ℕ → Connector → Outcome Connector
tries zero sockfd c = ok c
tries (suc n) sockfd c = start_in_loop try_again sockfd c >>= tries n sockfd

pow_positive : (n : ℕ) → 1 ≤ 2 ^ n
pow_positive zero = omega arith
pow_positive (suc n) = omega (arith, pow_positive n, pow-suc 2 n)

doubled : (n d : ℕ) → d * 2 ^ suc n ≡ d * 2 * 2 ^ n
doubled n d = ap (◌*◌ d) (pow-succ' 2 n) ∙ sym (mul_assoc d 2 (2 ^ n))

capped : (d : ℕ) → max_retry_delay < d * 2 → min (d * 2) max_retry_delay ≡ max_retry_delay
capped d h = omega arith

kept : (d : ℕ) → d * 2 ≤ max_retry_delay → min (d * 2) max_retry_delay ≡ d * 2
kept d h = omega arith

grown :
    (n d : ℕ)
    → min (min (d * 2) max_retry_delay * 2 ^ n) max_retry_delay
      ≡ min (d * 2 ^ suc n) max_retry_delay
grown n d = elim (dec_lt max_retry_delay (d * 2)) [
  | yes h ↦
      rw (doubled n d, capped d h)
        (omega (arith, pow_positive n, le-mul_of_pos_right {m = 2 ^ n} (d * 2) (pow_positive n)))
  | no h ↦ rw (doubled n d, kept d (omega arith)) refl
]

-- The connector wants a connection and has none.
abbrev pub Waits : Connector → Type 0
Waits c = (c.state ≡ disconnected) × (c.connect ≡ true)

one_try :
    (sockfd : ℕ) (c : Connector)
    → Waits c
    → start_in_loop try_again sockfd c
      ≡ ok (record c {
        state = disconnected;
        requests = starts_after c.retry_delay ∷ closes sockfd ∷ c.requests;
        retry_delay = min (c.retry_delay * 2) max_retry_delay;
      })
unfolding start_in_loop
one_try sockfd c w = ground (arith, w)

-- Where the connector waits and its delay is not above the limit: after `n` tries that the kernel
-- turned down, one more is asked of the loop after the first delay times 2 ^ n, at most 30
-- seconds, and the socket of the failed try is closed.
pub tries-starts_after :
    (n sockfd : ℕ) (c : Connector)
    → Waits c
    → c.retry_delay ≤ max_retry_delay
    → Returns
        (λ c'.
          Returns
            (λ c''.
              c''.requests
              ≡ starts_after (min (c.retry_delay * 2 ^ n) max_retry_delay)
                ∷ closes sockfd
                ∷ c'.requests)
            (start_in_loop try_again sockfd c'))
        (tries n sockfd c)
unfolding tries
tries-starts_after zero sockfd c w low =
    rw (one_try sockfd c w) (ap (λ d. starts_after d ∷ closes sockfd ∷ c.requests) (omega arith))
tries-starts_after (suc n) sockfd c w low =
    rw (one_try sockfd c w, sym (grown n c.retry_delay))
      (tries-starts_after n sockfd
        (record c {
          state = disconnected;
          requests = starts_after c.retry_delay ∷ closes sockfd ∷ c.requests;
          retry_delay = min (c.retry_delay * 2) max_retry_delay;
        })
        (refl, w.1) (omega arith))
