-- ===== src/EventLoop.antt =====
-- net/event_loop.h and net/event_loop.cpp: the tasks that wait for the loop's thread. A task is a
-- number; what a task queues while it runs, in the loop's thread, is the parameter `queues`. The
-- lock is held for a whole operation on the list, so operations are steps.
pub mod Pending
pub mod Looping
pub mod Interleaving
pub mod Stranded
mod Tests
use my_chat_respons.Common.{
  ℕ, suc, Bool, true, false, not, ◌||◌, List, [], ◌∷◌, ◌++◌, if◌then◌else◌, length,
}

pub record EventLoop : Type 0 where
  pub calling_pending : Bool
  pub pending : List ℕ
  pub wakeups : ℕ
  pub ran : List ℕ

-- `wakeup` writes to the descriptor that the loop watches.
unfoldable pub wakeup : EventLoop → EventLoop
wakeup l = record l { wakeups = suc l.wakeups }

-- `in_thread` tells whether the caller is the loop's thread.
unfoldable pub queue_in_loop : Bool → ℕ → EventLoop → EventLoop
unfolding wakeup
queue_in_loop in_thread task l =
    let l' : EventLoop = record l { pending = l.pending ++ (task ∷ []) } in
    if not in_thread || l'.calling_pending then wakeup l' else l'

pub queue_size : EventLoop → ℕ
queue_size l = length l.pending

module _ (queues : ℕ → List ℕ) where
  unfoldable pub queue_all : List ℕ → EventLoop → EventLoop
  unfolding queue_in_loop
  queue_all [] l = l
  queue_all (t ∷ ts) l = queue_all ts (queue_in_loop true t l)

  -- A call of a task, with what it queues.
  unfoldable pub call_task : ℕ → EventLoop → EventLoop
  unfolding queue_all
  call_task t l = queue_all (queues t) (record l { ran = t ∷ l.ran })

  unfoldable pub run_in_loop : Bool → ℕ → EventLoop → EventLoop
  unfolding queue_in_loop call_task
  run_in_loop in_thread task l = if in_thread then call_task task l else queue_in_loop false task l

  unfoldable pub call_all : List ℕ → EventLoop → EventLoop
  unfolding call_task
  call_all [] l = l
  call_all (t ∷ ts) l = call_all ts (call_task t l)

  unfoldable pub do_pending_functors : EventLoop → EventLoop
  unfolding call_all
  do_pending_functors l =
      let l' = call_all l.pending (record l { calling_pending = true; pending = [] }) in
      record l' { calling_pending = false }
