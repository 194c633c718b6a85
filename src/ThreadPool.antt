-- ===== src/ThreadPool.antt =====
-- net/eventloop_threadpool.h and net/eventloop_threadpool.cpp: the loops among which a server
-- spreads its connections. A pointer to a loop is a number; the loops of new threads are given. All calls are
-- in the base loop's thread.
pub mod RoundRobin
use my_chat_respons.Common.{
  ℕ, ◌+◌, ◌%◌, Bool, true, false, Option, none, some, List, [], ◌∷◌, ◌++◌, ◌==◌, if◌then◌else◌,
  length, get_or, Outcome, ok, assert, ◌>>=◌, ◌>>◌,
}

pub record ThreadPool : Type 0 where
  pub base_loop : ℕ
  pub started : Bool
  pub loops : List ℕ
  pub next : ℕ

abbrev pub is_empty : List ℕ → Bool
is_empty [] = true
is_empty (x ∷ xs) = false

-- `start`; the loops that the new threads give are an argument.
unfoldable pub start : List ℕ → ThreadPool → Outcome ThreadPool
start new_loops p = do
  assert (if p.started then false else true)
  ok (record p { started = true; loops = p.loops ++ new_loops })

-- `next` is in range; the default of `get_or` stands for reading past the end.
unfoldable pub get_next_loop : ThreadPool → Outcome (ℕ × ThreadPool)
get_next_loop p = do
  assert p.started
  if is_empty p.loops
      then ok (p.base_loop, p)
      else ok (
        get_or p.loops p.next p.base_loop,
        record p { next = if p.next + 1 == length p.loops then 0 else p.next + 1 },
      )

unfoldable pub get_loop_for_hash : ℕ → ThreadPool → Outcome (Option ℕ)
get_loop_for_hash hash_code p = do
  assert p.started
  if is_empty p.loops
      then ok none
      else ok (some (get_or p.loops (hash_code % length p.loops) p.base_loop))

pub get_all_loops : ThreadPool → Outcome (List ℕ)
get_all_loops p = do
  assert p.started
  if is_empty p.loops then ok (p.base_loop ∷ []) else ok p.loops
