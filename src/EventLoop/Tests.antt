-- ===== src/EventLoop/Tests.antt =====
-- A loop (net/event_loop.cpp) with two tasks, of which one queues a third.
use my_chat_respons.Common.{
  ℕ, ◌≡◌, ◌==◌, if◌then◌else◌, true, false, some, none, ok, refl, List, [], ◌∷◌,
}
use my_chat_respons.Common.Int.{pos}
use my_chat_respons.EventLoop.{EventLoop, wakeup, queue_in_loop}
use my_chat_respons.EventLoop.Interleaving.{
  Threads, testing, Reach, here, next, pushes, wakes, enters, new_threads, enter,
}
use my_chat_respons.EventLoop.Stranded.{IsStranded, Reach-IsStranded}
use my_chat_respons.EventLoop.Looping.{Looping, loop, loop_never_polls}
use my_chat_respons.Channel.{Channel, Events, none_event}
use my_chat_respons.Poller.{Poller, Waited, happened}

abbrev first_queues : ℕ → List ℕ
first_queues t = if t == 1 then 3 ∷ [] else []

abbrev two_pending : EventLoop
two_pending = record { calling_pending = false; pending = 1 ∷ 2 ∷ []; wakeups = 0; ran = [] }

-- A poller that watches channel 1 under descriptor 5, and a loop that is not running.
abbrev watching : Poller
watching = record { channels = λ k. if k == 5 then some 1 else none; calls = [] }

abbrev readable : Events
readable = record none_event { pollin = true }

abbrev watched : Channel
watched = record {
  id = 1;
  fd = 5;
  events = readable;
  revents = none_event;
  index = pos 1;
  tied = false;
  event_handling = false;
  add_to_loop = true;
  callbacks = record { on_read = true; on_write = false; on_close = false; on_error = false };
}

abbrev idle_loop : Looping
idle_loop = record {
  looping = false;
  quit = false;
  event_handling = false;
  iteration = 0;
  poller = watching;
  event_list_size = 16;
  active = [];
  current = none;
  tasks = two_pending;
}

abbrev queues_four : Channel → Looping → Looping
queues_four c l = record l { tasks = queue_in_loop true 4 l.tasks }

abbrev one_event : Waited
one_event = happened ((watched, readable) ∷ [])

loop_never_polls_example :
    loop first_queues queues_four (one_event ∷ []) idle_loop ≡ ok (record idle_loop { quit = true })
loop_never_polls_example = loop_never_polls first_queues queues_four (one_event ∷ []) idle_loop refl

-- Another thread queued task 1 and woke the loop up; the loop's thread came to the test of `while`.
abbrev at_test : Threads
at_test = record {
  event_loop = record { calling_pending = false; pending = 1 ∷ []; wakeups = 1; ran = [] };
  place = testing;
  quit_set = true;
  waking = 0;
  queued = 1 ∷ [];
}

at_test_reached : Reach first_queues at_test
unfolding new_threads wakeup enter
at_test_reached =
    let queued = next here (pushes _ 1) in
    let woken = next queued (wakes _ 0 refl) in next woken (enters _ refl)

Reach-IsStranded_example : IsStranded at_test
Reach-IsStranded_example = Reach-IsStranded first_queues at_test at_test_reached
