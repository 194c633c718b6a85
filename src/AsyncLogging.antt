-- ===== src/AsyncLogging.antt =====
-- base/asynclog.h and base/asynclog.cpp: the buffers between the threads that log and the thread that
-- writes the log's files. The lock is held for a whole step; `meanwhile` is what the other threads do
-- while the writer waits. The loop of the writer is a round here, and the start of its thread is left out.
pub mod Front
pub mod Rounds
mod Tests
use my_chat_respons.Common.{
  ℕ, suc, ◌*◌, Bool, true, false, not, Option, none, some, List, [], ◌∷◌, ◌++◌, ltb, ◌==◌,
  if◌then◌else◌, length, take, Outcome, ok, assert, ◌>>=◌, ◌>>◌,
}
use my_chat_respons.LogStream.{FixBuffer, new_fix_buffer, avail}
use my_chat_respons.LogStream
use my_chat_respons.LogFile.{LogFile, Line, pointed, append_unlocked, flush_log}

abbrev pub large_buffer : ℕ
large_buffer = 4000 * 1000

-- The members; a pointer may be null.
pub record AsyncLogging : Type 0 where
  pub current : Option FixBuffer
  pub next : Option FixBuffer
  pub buffers : List FixBuffer
  pub posts : ℕ

unfoldable pub new_logging : AsyncLogging
unfolding new_fix_buffer
new_logging = record {
  current = some (new_fix_buffer large_buffer);
  next = some (new_fix_buffer large_buffer);
  buffers = [];
  posts = 0;
}

abbrev pub spare_or_new : Option FixBuffer → FixBuffer
spare_or_new none = new_fix_buffer large_buffer
spare_or_new (some b) = b

unfoldable pub append : List ℕ → AsyncLogging → Outcome AsyncLogging
unfolding LogStream.append
append line a = do
  b ← pointed a.current
  ok (
      if ltb (length line) (avail b)
      then record a { current = some (LogStream.append line b) }
      else record a {
        buffers = a.buffers ++ (b ∷ []);
        current = some (LogStream.append line (spare_or_new a.next));
        next = none;
        posts = suc a.posts;
      })

-- What the thread holds.
pub record Writer : Type 0 where
  pub spare1 : Option FixBuffer
  pub spare2 : Option FixBuffer
  pub buffers_to_writes : List FixBuffer
  pub output : LogFile

abbrev pub is_empty : List FixBuffer → Bool
is_empty [] = true
is_empty (b ∷ bs) = false

abbrev pub is_clean : Option FixBuffer → Bool
is_clean none = false
is_clean (some b) = length b.text == 0

-- The first spare buffer is in use; the second one becomes the next, if there is none.
abbrev pub fill_next : Option FixBuffer → AsyncLogging → Writer → AsyncLogging × Writer
fill_next none a w = (record a { next = w.spare2 }, record w { spare1 = none; spare2 = none })
fill_next (some n) a w = (a, record w { spare1 = none })

-- Under the lock: the current buffer goes to the full ones, and the spare ones take the free places. A
-- null current buffer, which `append` never leaves, is a fault here, and not put among the full ones.
unfoldable pub swap_buffers :
    (AsyncLogging → AsyncLogging) → AsyncLogging → Writer → Outcome (AsyncLogging × Writer)
swap_buffers meanwhile a w = do
  let a' : AsyncLogging = if is_empty a.buffers then meanwhile a else a
  b ← pointed a'.current
  let a'' : AsyncLogging = record a' { buffers = a'.buffers ++ (b ∷ []); current = w.spare1 }
  ok (fill_next a''.next a'' w)

-- `output.append` of one buffer after the other; `line` has the clock and the stream at each.
unfoldable pub write_all : (ℕ → Bool) → (List ℕ → Line) → List FixBuffer → LogFile → Outcome LogFile
write_all opens line [] l = ok l
write_all opens line (b ∷ bs) l = do
  l' ← append_unlocked opens (line b.text) l
  write_all opens line bs l'

-- The list without its last element, for `back` and `pop_back`.
abbrev pub pop_back : List FixBuffer → List FixBuffer
pop_back [] = []
pop_back (b ∷ []) = []
pop_back (b ∷ c ∷ bs) = b ∷ pop_back (c ∷ bs)

-- `if(!new_buffer_ptr)`: the pointer that takes the last buffer is reset at once, and so null again.
unfoldable pub take_back :
    Option FixBuffer → List FixBuffer → Outcome (Option FixBuffer × List FixBuffer)
take_back (some b) bs = ok (some b, bs)
take_back none bs = do assert (not (is_empty bs)); ok (none, pop_back bs)

-- The message of dropped buffers, whose text snprintf makes, and the two buffers that stay.
unfoldable pub drop_excess :
    (ℕ → Bool)
    → (List ℕ → Line)
    → List ℕ
    → List FixBuffer
    → LogFile
    → Outcome (List FixBuffer × LogFile)
drop_excess opens line dropped bs l =
    if ltb 25 (length bs)
    then (do l' ← append_unlocked opens (line dropped) l; ok (take 2 bs, l'))
    else ok (bs, l)

-- One round of `thread_func`.
unfoldable pub write_round :
    (ℕ → Bool)
    → (List ℕ → Line)
    → List ℕ
    → (AsyncLogging → AsyncLogging)
    → AsyncLogging
    → Writer
    → Outcome (AsyncLogging × Writer)
unfolding swap_buffers drop_excess write_all take_back
write_round opens line dropped meanwhile a w = do
  assert (is_clean w.spare1)
  assert (is_empty w.buffers_to_writes)
  r ← swap_buffers meanwhile a w
  assert (not (is_empty r.0.buffers))
  d ← drop_excess opens line dropped r.1.buffers_to_writes r.1.output
  l ← write_all opens line d.0 d.1
  s ← take_back r.1.spare1 (take 2 d.0)
  t ← take_back r.1.spare2 s.1
  l' ← flush_log l
  ok (r.0, record { spare1 = s.0; spare2 = t.0; buffers_to_writes = []; output = l' })
