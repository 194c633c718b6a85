-- ===== src/EventLoop/Interleaving.antt =====
-- The loop's thread and the others (net/event_loop.cpp), in every order of their steps. Of `queueInLoop` in another
-- thread there are two steps, since the lock is given back before the wake-up; all else of a task is one. Calls of
-- `runInLoop` in the loop's thread, which run a task at once, are not among them.
use my_chat_respons.Common.{ℕ, suc, ◌≡◌, Bool, true, false, List, [], ◌∷◌, ◌++◌}
use my_chat_respons.EventLoop.{EventLoop, wakeup, queue_in_loop, call_task}

-- Where the loop's thread is: outside of `loop`, at the test of its `while`, at the active channels that a poll gave, or
-- in `doPendingFunctors` with the tasks that are left.
pub data Place : Type 0 where
  outside testing handling : Place
  calling : List ℕ → Place

-- `waking` counts the threads that have queued a task and not yet woken the loop up; `queued` has all tasks
-- that were queued, in order.
pub record Threads : Type 0 where
  pub event_loop : EventLoop
  pub place : Place
  pub quit_set : Bool
  pub waking : ℕ
  pub queued : List ℕ

unfoldable pub new_threads : Threads
new_threads = record {
  event_loop = record { calling_pending = false; pending = []; wakeups = 0; ran = [] };
  place = outside;
  quit_set = false;
  waking = 0;
  queued = [];
}

-- `loop` up to its `while`.
unfoldable pub enter : Threads → Threads
enter s = record s { place = testing; quit_set = true }

-- `queueInLoop` up to the end of its lock.
abbrev pub push : ℕ → EventLoop → EventLoop
push task l = record l { pending = l.pending ++ (task ∷ []) }

-- `handleRead`: the descriptor counts the wake-ups, and a read takes them all.
unfoldable pub handle_read : EventLoop → EventLoop
handle_read l = record l { wakeups = 0 }

-- `doPendingFunctors` up to the end of its lock.
unfoldable pub swap_pending : EventLoop → EventLoop
swap_pending l = record l { calling_pending = true; pending = [] }

-- What the tasks queue is the parameter `queues`.
pub data Step (queues : ℕ → List ℕ) : Threads → Threads → Type 0 where
  pushes :
      (s : Threads) (task : ℕ)
      → Step queues s (record s {
        event_loop = push task s.event_loop;
        waking = suc s.waking;
        queued = s.queued ++ (task ∷ []);
      })
  wakes :
      (s : Threads) (n : ℕ)
      → s.waking ≡ suc n
      → Step queues s (record s { event_loop = wakeup s.event_loop; waking = n })
  queues_outside :
      (s : Threads) (task : ℕ)
      → s.place ≡ outside
      → Step queues s (record s {
        event_loop = queue_in_loop true task s.event_loop;
        queued = s.queued ++ (task ∷ []);
      })
  quits_elsewhere :
      (s : Threads) → Step queues s (record s { event_loop = wakeup s.event_loop; quit_set = true })
  enters : (s : Threads) → s.place ≡ outside → Step queues s (enter s)
  leaves :
      (s : Threads)
      → s.place ≡ testing
      → s.quit_set ≡ true
      → Step queues s (record s { place = outside })
  polls :
      (s : Threads)
      → s.place ≡ testing
      → s.quit_set ≡ false
      → Step queues s (record s { place = handling })
  handler_quits : (s : Threads) → s.place ≡ handling → Step queues s (record s { quit_set = true })
  reads :
      (s : Threads)
      → s.place ≡ handling
      → Step queues s (record s { event_loop = handle_read s.event_loop })
  handler_queues :
      (s : Threads) (task : ℕ)
      → s.place ≡ handling
      → Step queues s (record s {
        event_loop = queue_in_loop true task s.event_loop;
        queued = s.queued ++ (task ∷ []);
      })
  swaps :
      (s : Threads)
      → s.place ≡ handling
      → Step queues s (record s {
        event_loop = swap_pending s.event_loop;
        place = calling s.event_loop.pending;
      })
  calls :
      (s : Threads) (task : ℕ) (tasks : List ℕ)
      → s.place ≡ calling (task ∷ tasks)
      → Step queues s (record s {
        event_loop = call_task queues task s.event_loop;
        place = calling tasks;
        queued = s.queued ++ queues task;
      })
  ends :
      (s : Threads)
      → s.place ≡ calling []
      → Step queues s (record s {
        event_loop = record (s.event_loop) { calling_pending = false };
        place = testing;
      })

pub data Reach (queues : ℕ → List ℕ) : Threads → Type 0 where
  here : Reach queues new_threads
  next : {r s : Threads} → Reach queues r → Step queues r s → Reach queues s
