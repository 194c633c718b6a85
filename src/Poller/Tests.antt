-- ===== src/Poller/Tests.antt =====
-- A run of the registration of a channel (net/epoll_poller.cpp).
use my_chat_respons.Common.{◌≡◌, refl, Bool, true, false, none, [], fault}
use my_chat_respons.Channel.{Callbacks, Channel, new_channel}
use my_chat_respons.Poller.{Ctl, Poller, enable_reading, enable_writing, disable_all, remove}
use my_chat_respons.Poller.Registration.{new_channel-stops}

abbrev always : Ctl → Bool
always call = true

-- The poller watches nothing.
abbrev idle : Poller
idle = record { channels = λ k. none; calls = [] }

-- A channel for reading.
abbrev reads : Callbacks
reads = record { on_read = true; on_write = false; on_close = false; on_error = false }

abbrev fresh : Channel
fresh = record (new_channel 1 5) { callbacks = reads }

new_channel-stops_example :
    (enable_reading always fresh idle ≡ fault)
    × (enable_writing always fresh idle ≡ fault)
    × (disable_all always fresh idle ≡ fault)
    × (remove always fresh idle ≡ fault)
new_channel-stops_example = new_channel-stops always 1 5 reads idle refl
