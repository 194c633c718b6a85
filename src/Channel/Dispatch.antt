-- ===== src/Channel/Dispatch.antt =====
-- Which callbacks `Channel::handleEvent` (net/channel.cpp) calls, for what came in.
use my_chat_respons.Common.{
  ℕ, suc, ◌+◌, ◌≡◌, refl, Bool, true, false, not, ◌&&◌, ◌||◌, List, [], ◌∷◌, ◌++◌, arith,
  if◌then◌else◌,
}
use my_chat_respons.Channel.{
  Channel, Callback, close_callback, error_callback, read_callback, write_callback, handle_event,
  handle_event_with_guard, when, none_event,
}

abbrev same_callback : Callback → Callback → Bool
same_callback close_callback close_callback = true
same_callback error_callback error_callback = true
same_callback read_callback read_callback = true
same_callback write_callback write_callback = true
same_callback _ _ = false

-- How often a callback is called.
pub times : Callback → List Callback → ℕ
times k [] = 0
times k (x ∷ xs) = let rest = times k xs in if same_callback k x then suc rest else rest

abbrev pub once_if : Bool → ℕ
once_if b = if b then 1 else 0

times-append : (k : Callback) (xs ys : List Callback) → times k (xs ++ ys) ≡ times k xs + times k ys
unfolding times
times-append k [] ys = omega arith
times-append k (x ∷ xs) ys = ground (arith, times-append k xs ys)

times-when :
    (k j : Callback) (b : Bool) → times k (when b j) ≡ (if same_callback k j then once_if b else 0)
unfolding times
times-when k j b = ground arith

guard-times :
    (c : Channel)
    → let r = c.revents in
      let k = c.callbacks in
      let called = handle_event_with_guard c in
      (times close_callback called ≡ once_if (r.pollhup && not r.pollin && k.on_close))
      × (times error_callback called ≡ once_if (r.pollin && k.on_error))
      × (times read_callback called ≡ once_if ((r.pollin || r.pollpri || r.pollrdhup) && k.on_read))
      × (times write_callback called ≡ once_if (r.pollout && k.on_write))
unfolding handle_event_with_guard
guard-times c = (
  simp (times-append, times-when) (omega arith),
  simp (times-append, times-when) (omega arith),
  simp (times-append, times-when) (omega arith),
  simp (times-append, times-when) (omega arith),
)

handle_event-live :
    (alive : Bool) (c : Channel)
    → handle_event alive c ≡ (if not c.tied || alive then handle_event_with_guard c else [])
unfolding handle_event
handle_event-live alive c = ground arith

times-if :
    (k : Callback) (live : Bool) (b : Bool) (xs : List Callback)
    → times k xs ≡ once_if b
    → times k (if live then xs else []) ≡ once_if (live && b)
unfolding times
times-if k true b xs e = e
times-if k false b xs e = refl

-- Each callback that is set is called at most once for an event: the close callback exactly on a hang-up without
-- input, the error callback exactly on input, the read callback on input, priority data or a
-- half-close, the write callback on room for output; and none of them if the channel is tied to an
-- object that is gone.
pub handle_event-times :
    (alive : Bool) (c : Channel)
    → let live = not c.tied || alive in
      let r = c.revents in
      let k = c.callbacks in
      let called = handle_event alive c in
      (times close_callback called ≡ once_if (live && (r.pollhup && not r.pollin && k.on_close)))
      × (times error_callback called ≡ once_if (live && (r.pollin && k.on_error)))
      × (times read_callback called
          ≡ once_if (live && ((r.pollin || r.pollpri || r.pollrdhup) && k.on_read)))
      × (times write_callback called ≡ once_if (live && (r.pollout && k.on_write)))
handle_event-times alive c =
    let (closed, failed, received, sent) = guard-times c in
    let live = not c.tied || alive in
    let calls = handle_event_with_guard c in
    rw (handle_event-live alive c) (
      times-if close_callback live _ calls closed,
      times-if error_callback live _ calls failed,
      times-if read_callback live _ calls received,
      times-if write_callback live _ calls sent,
    )

-- An event that is an error alone, or an invalid descriptor, calls nothing.
error_alone_calls_nothing :
    (alive : Bool) (c : Channel) (bad : Bool)
    → c.revents ≡ record none_event { pollerr = true; pollnval = bad }
    → handle_event alive c ≡ []
unfolding handle_event handle_event_with_guard
error_alone_calls_nothing alive c bad e = ground arith
