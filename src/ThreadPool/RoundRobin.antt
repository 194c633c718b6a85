-- ===== src/ThreadPool/RoundRobin.antt =====
-- Which loop `getNextLoop` (net/eventloop_threadpool.cpp) gives at each of a row of calls.
use my_chat_respons.Common.{
  ℕ, zero, suc, ◌+◌, ◌-◌, ◌<◌, ◌≡◌, sym, true, arith, ltb, ◌==◌, if◌then◌else◌, length, get_or,
  Outcome, ok, ◌>>=◌,
}
use my_chat_respons.ThreadPool.{ThreadPool, get_next_loop}

-- What the last of `n + 1` calls in a row gives: the loop, and the pool after it.
pub next_after : ℕ → ThreadPool → Outcome (ℕ × ThreadPool)
next_after zero p = get_next_loop p
next_after (suc n) p = get_next_loop p >>= λ r. next_after n r.1

-- One place further, and `n` places further, round `count` places.
abbrev pub turn : ℕ → ℕ → ℕ
turn at count = if at + 1 == count then 0 else at + 1

abbrev pub place : ℕ → ℕ → ℕ → ℕ
place at n count = if ltb (at + n) count then at + n else at + n - count

next-loop :
    (p : ThreadPool)
    → p.started ≡ true
    → 0 < length p.loops
    → get_next_loop p
      ≡ ok (get_or p.loops p.next p.base_loop, record p { next = turn p.next (length p.loops) })
unfolding get_next_loop
next-loop p on some_loop = ground (arith, on)

place-turn :
    (at n count : ℕ)
    → at < count
    → suc n < count
    → place (turn at count) n count ≡ place at (suc n) count
place-turn at n count h k = ground arith

turn-lt : (at count : ℕ) → at < count → turn at count < count
turn-lt at count h = ground arith

place-zero : (at count : ℕ) → at < count → place at 0 count ≡ at
place-zero at count h = ground arith

-- On a pool that is started, whose next place is in range, call number `n` of a row, counted from
-- zero and below the number of loops, gives the loop `n` places further round, and the place after
-- that is next: so each loop is given once in a round.
next_after-place :
    (n : ℕ) (p : ThreadPool)
    → p.started ≡ true
    → p.next < length p.loops
    → n < length p.loops
    → let at = place p.next n (length p.loops) in
      next_after n p
      ≡ ok (get_or p.loops at p.base_loop, record p { next = turn at (length p.loops) })
unfolding next_after
next_after-place zero p on inside h =
    rw (place-zero p.next (length p.loops) inside) (next-loop p on (omega arith))
next_after-place (suc n) p on inside h =
    rw (next-loop p on (omega arith), sym (place-turn p.next n (length p.loops) inside h))
      (next_after-place n (record p { next = turn p.next (length p.loops) }) on
        (turn-lt p.next (length p.loops) inside) (omega arith))
