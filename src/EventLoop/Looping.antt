-- ===== src/EventLoop/Looping.antt =====
-- The rounds of `loop` (net/event_loop.cpp): a poll, the events of the active channels, and the tasks that
-- wait. `handle` is what `handleEvent` of a channel does to the loop by its callbacks, which may be anything: they may
-- queue tasks and call `quit`.
use my_chat_respons.Common.{
  ℕ, suc, Bool, true, false, not, Option, none, some, List, [], ◌∷◌, if◌then◌else◌, Outcome, ok,
  assert, ◌>>=◌, ◌>>◌, ◌≡◌, refl,
}
use my_chat_respons.Channel.{Channel}
use my_chat_respons.Poller.{Poller, Waited, poll}
use my_chat_respons.EventLoop.{EventLoop, wakeup, do_pending_functors}

pub record Looping : Type 0 where
  pub looping : Bool
  pub quit : Bool
  pub event_handling : Bool
  pub iteration : ℕ
  pub poller : Poller
  pub event_list_size : ℕ
  pub active : List Channel
  pub current : Option Channel
  pub tasks : EventLoop

module _ (queues : ℕ → List ℕ) (handle : Channel → Looping → Looping) where
  -- `handleEvent` of one channel after the other.
  unfoldable pub handle_active : List Channel → Looping → Looping
  handle_active [] l = l
  handle_active (c ∷ cs) l = handle_active cs (handle c (record l { current = some c }))

  -- One round, with what epoll_wait gives.
  unfoldable pub loop_round : Waited → Looping → Outcome Looping
  unfolding handle_active do_pending_functors
  loop_round waited l = do
    r ← poll l.poller l.event_list_size waited
    let l' : Looping = handle_active (r.0) (record l {
      active = r.0;
      event_list_size = r.1;
      iteration = suc l.iteration;
      event_handling = true;
    })
    ok (record l' {
      current = none;
      event_handling = false;
      tasks = do_pending_functors queues l'.tasks;
    })

  -- `while(!quit_)`, over a row of polls.
  unfoldable pub until_quit : List Waited → Looping → Outcome Looping
  unfolding loop_round
  until_quit [] l = ok l
  until_quit (w ∷ ws) l =
      let rest = loop_round w l >>= until_quit ws in if l.quit then ok l else rest

  unfoldable pub loop : List Waited → Looping → Outcome Looping
  unfolding until_quit
  loop ws l = do
    assert (not l.looping)
    l' ← until_quit ws (record l { looping = false; quit = true })
    ok (record l' { looping = false })

  unfoldable pub quit : Bool → Looping → Looping
  unfolding wakeup
  quit in_thread l = record l { quit = true; tasks = if in_thread then l.tasks else wakeup l.tasks }

  -- `loop`, called while it is not looping, returns at once, whatever the kernel would give: it sets `quit_`
  -- itself and so never polls, handles no event and runs no task.
  pub loop_never_polls :
      (ws : List Waited) (l : Looping)
      → l.looping ≡ false
      → loop ws l ≡ ok (record l { looping = false; quit = true })
  unfolding loop until_quit
  loop_never_polls [] l off = rw off refl
  loop_never_polls (w ∷ ws) l off = rw off refl
