-- ===== src/Channel.antt =====
-- net/channel.h and net/channel.cpp: the events of one descriptor and their callbacks. An event
-- mask is a record of its bits; a pointer to a channel is the number `id`.
pub mod Dispatch
mod Tests
use my_chat_respons.Common.{
  ℕ, Bool, true, false, not, ◌&&◌, ◌||◌, List, [], ◌∷◌, ◌++◌, if◌then◌else◌,
}
use my_chat_respons.Common.Int.{ℤ, pos}

-- The bits of `poll` that the code names. On Linux POLLIN is the value 1.
pub record Events : Type 0 where
  pub pollin : Bool
  pub pollpri : Bool
  pub pollout : Bool
  pub pollerr : Bool
  pub pollhup : Bool
  pub pollnval : Bool
  pub pollrdhup : Bool

-- `KNoneEvent`.
abbrev pub none_event : Events
none_event = record {
  pollin = false;
  pollpri = false;
  pollout = false;
  pollerr = false;
  pollhup = false;
  pollnval = false;
  pollrdhup = false;
}

-- Which callbacks have been set.
pub record Callbacks : Type 0 where
  pub on_read : Bool
  pub on_write : Bool
  pub on_close : Bool
  pub on_error : Bool

pub record Channel : Type 0 where
  pub id : ℕ
  pub fd : ℕ
  pub events : Events
  pub revents : Events
  pub index : ℤ
  pub tied : Bool
  pub event_handling : Bool
  pub add_to_loop : Bool
  pub callbacks : Callbacks

unfoldable pub new_channel : ℕ → ℕ → Channel
new_channel id fd = record {
  id = id;
  fd = fd;
  events = none_event;
  revents = none_event;
  index = pos 0;
  tied = false;
  event_handling = false;
  add_to_loop = false;
  callbacks = record { on_read = false; on_write = false; on_close = false; on_error = false };
}

unfoldable pub set_revents : Events → Channel → Channel
set_revents revt c = record c { revents = revt }

unfoldable pub set_index : ℤ → Channel → Channel
set_index i c = record c { index = i }

unfoldable pub tie : Channel → Channel
tie c = record c { tied = true }

-- A mask is zero when no bit is set.
abbrev pub is_zero : Events → Bool
is_zero e =
    not (e.pollin || e.pollpri || e.pollout || e.pollerr || e.pollhup || e.pollnval || e.pollrdhup)

-- `isNoneEvent`, which compares what came in, not what is asked for.
unfoldable pub is_none_event : Channel → Bool
is_none_event c = is_zero c.revents

-- `KReadEvent & events_`.
unfoldable pub is_writing : Channel → Bool
is_writing c = c.events.pollin || c.events.pollpri

-- `KWriteEvent & events_`.
unfoldable pub is_reading : Channel → Bool
is_reading c = c.events.pollout

-- The changes of `events_` before `update`; KReadEvent is POLLIN|POLLPRI, KWriteEvent is POLLOUT.
unfoldable pub with_reading : Bool → Channel → Channel
with_reading on c = record c { events = record (c.events) { pollin = on; pollpri = on } }

unfoldable pub with_writing : Bool → Channel → Channel
with_writing on c = record c { events = record (c.events) { pollout = on } }

unfoldable pub with_none : Channel → Channel
with_none c = record c { events = none_event }

pub data Callback : Type 0 where
  close_callback error_callback read_callback write_callback : Callback

abbrev pub when : Bool → Callback → List Callback
when b k = if b then k ∷ [] else []

-- The callbacks that `handleEventWithGuard` calls, in order. In the test for errors the mask is
-- `POLLERR||POLLNVAL`, the value 1, which is POLLIN.
unfoldable pub handle_event_with_guard : Channel → List Callback
handle_event_with_guard c =
    let r = c.revents in
    let k = c.callbacks in
    when (r.pollhup && not r.pollin && k.on_close) close_callback
    ++ (when (r.pollin && k.on_error) error_callback
        ++ (when ((r.pollin || r.pollpri || r.pollrdhup) && k.on_read) read_callback
            ++ when (r.pollout && k.on_write) write_callback))

-- `alive` tells whether the tied object can still be locked.
unfoldable pub handle_event : Bool → Channel → List Callback
handle_event alive c =
    if c.tied then (if alive then handle_event_with_guard c else []) else handle_event_with_guard c
