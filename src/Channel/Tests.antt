-- ===== src/Channel/Tests.antt =====
-- Runs of the dispatch of events (net/channel.cpp).
use my_chat_respons.Common.{◌≡◌, true, false}
use my_chat_respons.Common.Int.{pos}
use my_chat_respons.Channel.{
  Events, Channel, none_event, close_callback, error_callback, read_callback, write_callback,
  handle_event,
}
use my_chat_respons.Channel.Dispatch.{times, handle_event-times}

-- A channel with every callback, into which the given events came.
abbrev served : Events → Channel
served revents = record {
  id = 1;
  fd = 5;
  events = none_event;
  revents = revents;
  index = pos 1;
  tied = true;
  event_handling = false;
  add_to_loop = true;
  callbacks = record { on_read = true; on_write = true; on_close = true; on_error = true };
}

abbrev input_event : Events
input_event = record none_event { pollin = true }

abbrev error_event : Events
error_event = record none_event { pollerr = true; pollnval = false }

handle_event-times_example :
    let called = handle_event true (served input_event) in
    (times close_callback called ≡ 0)
    × (times error_callback called ≡ 1)
    × (times read_callback called ≡ 1)
    × (times write_callback called ≡ 0)
handle_event-times_example = handle_event-times true (served input_event)
