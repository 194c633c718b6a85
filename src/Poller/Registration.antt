-- ===== src/Poller/Registration.antt =====
-- How the index of a channel and the poller's map (net/epoll_poller.cpp) stay in step.
use my_chat_respons.Common.{
  ℕ, ◌≡◌, refl, ◌≢◌, ◌⊎◌, inl, Bool, true, false, ◌&&◌, none, some, List, [], ◌∷◌, arith, ==_refl,
  length, fault, Returns,
}
use my_chat_respons.Channel.{
  Events, none_event, Callbacks, Channel, new_channel, set_index, is_none_event, with_reading,
  with_writing, with_none,
}
use my_chat_respons.Poller.{
  index_new, index_added, index_deleted, ctl_add, ctl_mod, ctl_del, Ctl, Poller, is_channel,
  update_channel, enable_reading, enable_writing, disable_all, remove, fill_active_list,
}

-- The channel is watched under its descriptor exactly if its index is not that of a new one.
abbrev pub Registered : Poller → Channel → Type 0
Registered p c =
    ((c.index ≡ index_new) × (p.channels c.fd ≡ none))
    ⊎ (((c.index ≡ index_added) ⊎ (c.index ≡ index_deleted)) × (p.channels c.fd ≡ some c.id))

module _ (epoll_ctl : Ctl → Bool) (succeeds : (call : Ctl) → epoll_ctl call ≡ true) where
  -- Where `epoll_ctl` always succeeds, `updateChannel` on a channel in step with the map returns; the two
  -- are in step again, the channel is watched under its descriptor, and no other entry changes.
  update_channel-Registered :
      (c : Channel) (p : Poller) (k : ℕ)
      → Registered p c
      → Returns
          (λ r.
            Registered r.0 r.1
            × (r.0.channels c.fd ≡ some c.id)
            × (k ≢ c.fd → r.0.channels k ≡ p.channels k))
          (update_channel epoll_ctl c p)
  unfolding update_channel set_index is_none_event
  update_channel-Registered c p k h = ground (
    arith,
    succeeds (record { operation = ctl_add; fd = c.fd; events = c.events }),
    succeeds (record { operation = ctl_mod; fd = c.fd; events = c.events }),
    succeeds (record { operation = ctl_del; fd = c.fd; events = c.events }),
    ==_refl c.fd,
  )

  -- Where `epoll_ctl` always succeeds: a watched channel, in step with the map, into which nothing came can be taken out: the poller forgets its descriptor
  -- and no other, and the channel is as new.
  remove-Registered :
      (c : Channel) (p : Poller) (k : ℕ)
      → Registered p c
      → p.channels c.fd ≡ some c.id
      → is_none_event c ≡ true
      → Returns
          (λ r.
            Registered r.0 r.1
            × (r.0.channels c.fd ≡ none)
            × (r.1.index ≡ index_new)
            × (k ≢ c.fd → r.0.channels k ≡ p.channels k))
          (remove epoll_ctl c p)
  unfolding remove set_index is_none_event
  remove-Registered c p k h watched idle =
      ground (
        arith,
        succeeds (record { operation = ctl_del; fd = c.fd; events = c.events }),
        ==_refl c.fd,
      )

-- A channel just made, with any callbacks, of a descriptor that the poller does not know, can be neither added nor
-- removed, whatever the kernel answers: its index starts at 0, not at that of a new channel, and
-- `enableReading`, `enableWriting`, `disAbleAll` and `remove` stop at an assertion.
pub new_channel-stops :
    (epoll_ctl : Ctl → Bool) (id fd : ℕ) (callbacks : Callbacks) (p : Poller)
    → p.channels fd ≡ none
    → let c : Channel = record (new_channel id fd) { callbacks = callbacks } in
      (enable_reading epoll_ctl c p ≡ fault)
      × (enable_writing epoll_ctl c p ≡ fault)
      × (disable_all epoll_ctl c p ≡ fault)
      × (remove epoll_ctl c p ≡ fault)
unfolding enable_reading enable_writing disable_all remove new_channel with_reading with_writing
    with_none
new_channel-stops epoll_ctl id fd callbacks p unknown = ground arith

-- While an event is still recorded as come in, `disAbleAll` on an added channel does not take it
-- out: the kernel is asked to change it, its index stays, and a `remove` after that stops.
disable_all-keeps :
    (epoll_ctl : Ctl → Bool) (c : Channel) (p : Poller)
    → ((call : Ctl) → epoll_ctl call ≡ true)
    → p.channels c.fd ≡ some c.id
    → c.index ≡ index_added
    → is_none_event c ≡ false
    → Returns
        (λ r.
          (r.1.index ≡ index_added)
          × (r.0.calls ≡ record { operation = ctl_mod; fd = c.fd; events = none_event } ∷ p.calls)
          × (remove epoll_ctl r.1 r.0 ≡ fault))
        (disable_all epoll_ctl c p)
unfolding disable_all remove with_none set_index is_none_event
disable_all-keeps epoll_ctl c p succeeds watched added busy =
    ground (arith, succeeds (record { operation = ctl_mod; fd = c.fd; events = none_event }))

-- Every event names the channel that the poller watches under its descriptor.
abbrev all_known : Poller → List (Channel × Events) → Bool
all_known p [] = true
all_known p ((c, e) ∷ rest) = is_channel (p.channels c.fd) c.id && all_known p rest

-- The list of active channels is built exactly when every event names the channel that the poller
-- watches under that descriptor; then it has one channel for each event.
fill_active_list_iff :
    (p : Poller) (events : List (Channel × Events))
    → ((all_known p events ≡ true)
        × Returns (λ active. length active ≡ length events) (fill_active_list p events))
      ⊎ ((all_known p events ≡ false) × (fill_active_list p events ≡ fault))
unfolding fill_active_list
fill_active_list_iff p [] = inl (refl, refl)
fill_active_list_iff p ((c, e) ∷ rest) = ground (arith, fill_active_list_iff p rest)
