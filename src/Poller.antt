-- ===== src/Poller.antt =====
-- net/poller.h, net/poller.cpp and net/epoll_poller.cpp: which channels the loop watches. All
-- calls are in the loop's thread; what `epoll_ctl` answers is a parameter, and its calls are kept
-- in a list, newest first.
pub mod Registration
mod Tests
use my_chat_respons.Common.{
  ℕ, ◌*◌, Bool, true, false, not, ◌||◌, Option, none, some, List, [], ◌∷◌, leb, ◌==◌, if◌then◌else◌,
  length, Outcome, ok, assert, ◌>>=◌, ◌>>◌,
}
use my_chat_respons.Common.Int.{ℤ, pos, negsuc, eqb_ℤ}
use my_chat_respons.Channel.{
  Events, Channel, set_index, set_revents, is_none_event, with_reading, with_writing, with_none,
}

-- `KNew`, `KAdded` and `KDeleted`.
abbrev pub index_new : ℤ
index_new = negsuc 0

abbrev pub index_added : ℤ
index_added = pos 1

abbrev pub index_deleted : ℤ
index_deleted = pos 2

pub data Operation : Type 0 where
  ctl_add ctl_mod ctl_del : Operation

pub record Ctl : Type 0 where
  pub operation : Operation
  pub fd : ℕ
  pub events : Events

pub record Poller : Type 0 where
  pub channels : ℕ → Option ℕ
  pub calls : List Ctl

abbrev pub update_map : (ℕ → Option ℕ) → ℕ → Option ℕ → ℕ → Option ℕ
update_map m fd v = λ k. if k == fd then v else m k

abbrev pub is_some : Option ℕ → Bool
is_some none = false
is_some (some a) = true

abbrev pub is_channel : Option ℕ → ℕ → Bool
is_channel none id = false
is_channel (some a) id = a == id

pub has_channel : Poller → Channel → Bool
has_channel p c = is_channel (p.channels c.fd) c.id

-- Whether a failed call of this operation ends the process, by `LOG_SYSFATAL`.
abbrev pub is_fatal : Operation → Bool
is_fatal ctl_del = false
is_fatal ctl_add = true
is_fatal ctl_mod = true

-- `epoll_ctl` answers whether it succeeds.
module _ (epoll_ctl : Ctl → Bool) where
  pub update : Operation → Channel → Poller → Outcome Poller
  update op c p = do
    let call : Ctl = record { operation = op; fd = c.fd; events = c.events }
    assert (epoll_ctl call || not (is_fatal op))
    ok (record p { calls = call ∷ p.calls })

  -- A channel that is new, or was taken out: it is added.
  add_channel : Channel → Poller → Outcome (Poller × Channel)
  unfolding update
  add_channel c p = do
    p' ←
        (if eqb_ℤ c.index index_new
          then (do
            assert (not (is_some (p.channels c.fd)))
            ok (record p { channels = update_map p.channels c.fd (some c.id) }))
          else (do
            assert (is_some (p.channels c.fd))
            assert (is_channel (p.channels c.fd) c.id)
            ok p))
    let c' = set_index index_added c
    p'' ← update ctl_add c' p'
    ok (p'', c')

  -- Any other: it is changed, or taken out. The second assertion assigns.
  change_channel : Channel → Poller → Outcome (Poller × Channel)
  unfolding update
  change_channel c p = do
    assert (is_some (p.channels c.fd))
    let p' : Poller = record p { channels = update_map p.channels c.fd (some c.id) }
    assert (eqb_ℤ c.index index_added)
    if is_none_event c
        then (do let c' = set_index index_deleted c; p'' ← update ctl_del c' p'; ok (p'', c'))
        else (do p'' ← update ctl_mod c p'; ok (p'', c))

  pub update_channel : Channel → Poller → Outcome (Poller × Channel)
  unfolding add_channel change_channel
  update_channel c p =
      if eqb_ℤ c.index index_new || eqb_ℤ c.index index_deleted
      then add_channel c p
      else change_channel c p

  pub remove_channel : Channel → Poller → Outcome (Poller × Channel)
  unfolding update
  remove_channel c p = do
    assert (is_some (p.channels c.fd))
    assert (is_none_event c)
    assert (eqb_ℤ c.index index_added || eqb_ℤ c.index index_deleted)
    let p' : Poller = record p { channels = update_map p.channels c.fd none }
    p'' ← (if eqb_ℤ c.index index_added then update ctl_del c p' else ok p')
    ok (p'', set_index index_new c)

  -- `Channel::update`, which the changes of the asked events end in.
  channel_update : Channel → Poller → Outcome (Poller × Channel)
  unfolding update_channel
  channel_update c p = update_channel (record c { add_to_loop = true }) p

  pub enable_reading : Channel → Poller → Outcome (Poller × Channel)
  unfolding channel_update
  enable_reading c p = channel_update (with_reading true c) p

  pub disable_reading : Channel → Poller → Outcome (Poller × Channel)
  unfolding channel_update
  disable_reading c p = channel_update (with_reading false c) p

  pub enable_writing : Channel → Poller → Outcome (Poller × Channel)
  unfolding channel_update
  enable_writing c p = channel_update (with_writing true c) p

  pub disable_writing : Channel → Poller → Outcome (Poller × Channel)
  unfolding channel_update
  disable_writing c p = channel_update (with_writing false c) p

  pub disable_all : Channel → Poller → Outcome (Poller × Channel)
  unfolding channel_update
  disable_all c p = channel_update (with_none c) p

  -- `Channel::remove`.
  pub remove : Channel → Poller → Outcome (Poller × Channel)
  unfolding remove_channel
  remove c p = do assert (is_none_event c); remove_channel (record c { add_to_loop = false }) p

-- `fillActiveList`: the channels that the kernel names, with what came in.
unfoldable pub fill_active_list : Poller → List (Channel × Events) → Outcome (List Channel)
fill_active_list p [] = ok []
fill_active_list p ((c, revents) ∷ rest) = do
  assert (is_channel (p.channels c.fd) c.id)
  active ← fill_active_list p rest
  ok (set_revents revents c ∷ active)

-- What `epoll_wait` gives: the events, or an error number.
pub data Waited : Type 0 where
  happened : List (Channel × Events) → Waited
  wait_failed : ℕ → Waited

-- `poll`, from the size of the event list: the active channels and the new size. An error is
-- logged alone. The kernel gives at most as many events as the list has places.
unfoldable pub poll : Poller → ℕ → Waited → Outcome (List Channel × ℕ)
poll p size (wait_failed e) = ok ([], size)
poll p size (happened []) = ok ([], size)
poll p size (happened (x ∷ xs)) = do
  let n = length (x ∷ xs)
  assert (leb n size)
  active ← fill_active_list p (x ∷ xs)
  ok (active, (if n == size then n * 2 else size))
