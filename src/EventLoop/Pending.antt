-- ===== src/EventLoop/Pending.antt =====
-- What one round of `doPendingFunctors` (net/event_loop.cpp) runs and leaves.
use mathlib.Core.List.{append-nil, append_assoc}
use my_chat_respons.Common.{
  ℕ, suc, ◌+◌, ◌≡◌, refl, sym, ap, ◌∙◌, true, false, List, [], ◌∷◌, ◌++◌, arith, length,
  length-append,
}
use my_chat_respons.EventLoop.{
  EventLoop, wakeup, queue_in_loop, queue_all, call_task, call_all, do_pending_functors,
}

-- The tasks in the order in which they ran, before the ones that ran earlier, newest first.
abbrev pub newest_first : List ℕ → List ℕ → List ℕ
newest_first [] earlier = earlier
newest_first (t ∷ ts) earlier = newest_first ts (t ∷ earlier)

-- All that a row of tasks queues, in order.
abbrev pub all_queued : (ℕ → List ℕ) → List ℕ → List ℕ
all_queued queues [] = []
all_queued queues (t ∷ ts) = queues t ++ all_queued queues ts

-- Tasks ran and tasks were queued, with a call of `wakeup` for each of the latter.
abbrev pub Went : List ℕ → List ℕ → EventLoop → EventLoop → Type 0
Went called queued l l' =
    (l'.ran ≡ newest_first called l.ran)
    × (l'.pending ≡ l.pending ++ queued)
    × (l'.wakeups ≡ l.wakeups + length queued)
    × (l'.calling_pending ≡ l.calling_pending)

pub queue_in_loop-woken :
    (t : ℕ) (l : EventLoop)
    → l.calling_pending ≡ true
    → queue_in_loop true t l ≡ record l { pending = l.pending ++ (t ∷ []); wakeups = suc l.wakeups }
unfolding queue_in_loop wakeup
queue_in_loop-woken t l h = ground (arith, h)

module _ (queues : ℕ → List ℕ) where
  pub queue_all-Went :
      (ts : List ℕ) (l : EventLoop)
      → l.calling_pending ≡ true
      → Went [] ts l (queue_all queues ts l)
  unfolding queue_all
  queue_all-Went [] l h = (refl, sym (append-nil l.pending), omega arith, refl)
  queue_all-Went (t ∷ ts) l h =
      let (a, b, c, d) =
        queue_all-Went ts (record l { pending = l.pending ++ (t ∷ []); wakeups = suc l.wakeups })
          h in
      rw (queue_all, queue_in_loop-woken t l h)
        (a, b ∙ append_assoc l.pending (t ∷ []) ts, omega (arith, c), d)

  call_all-Went :
      (ts : List ℕ) (l : EventLoop)
      → l.calling_pending ≡ true
      → Went ts (all_queued queues ts) l (call_all queues ts l)
  unfolding call_all call_task
  call_all-Went [] l h = (refl, sym (append-nil l.pending), omega arith, refl)
  call_all-Went (t ∷ ts) l h =
      let (a, b, c, d) = queue_all-Went (queues t) (record l { ran = t ∷ l.ran }) h in
      let l1 = queue_all queues (queues t) (record l { ran = t ∷ l.ran }) in
      let (a', b', c', d') = call_all-Went ts l1 (d ∙ h) in
      (
        a' ∙ ap (newest_first ts) a,
        b'
            ∙ ap (λ q. q ++ all_queued queues ts) b
            ∙ append_assoc l.pending (queues t) (all_queued queues ts),
        omega (arith, c, c', length-append (queues t) (all_queued queues ts)),
        d' ∙ d,
      )

  -- One round runs each task that was pending once, in the order of the list, and nothing else;
  -- what they queue waits for the next round, in order, with a wake-up for each.
  pub do_pending_functors-round :
      (l : EventLoop)
      → let l' = do_pending_functors queues l in
        (l'.ran ≡ newest_first l.pending l.ran)
        × (l'.pending ≡ all_queued queues l.pending)
        × (l'.wakeups ≡ l.wakeups + length (all_queued queues l.pending))
        × (l'.calling_pending ≡ false)
  unfolding do_pending_functors
  do_pending_functors-round l =
      let (a, b, c, d) =
        call_all-Went l.pending (record l { calling_pending = true; pending = [] }) refl in
      (a, b, c, refl)
