-- ===== src/Acceptor.antt =====
-- net/acceptor.h and net/acceptor.cpp, with `accept` and the calls that end the program of net/socketops.cpp and
-- net/sockets.cpp: the socket that listens, with its channel in the
-- poller of its loop. A descriptor is a number, and `none` what a failed call gives in its place; what the kernel
-- answers is an argument, what `epoll_ctl` answers a parameter. `calls` has what was opened, closed and given away,
-- newest first. A message of the levels FATAL and SYSFATAL ends the program, and no message changes errno.
pub mod Descriptors
mod Tests
use my_chat_respons.Common.{
  ℕ, Bool, true, false, Option, none, some, List, [], ◌∷◌, if◌then◌else◌, Outcome, ok, fault,
  assert, ◌>>=◌, ◌>>◌,
}
use my_chat_respons.Channel.{Channel, new_channel}
use my_chat_respons.Poller.{Ctl, Poller, enable_reading, disable_all, remove}

-- The errors that `sockets::accept` names, and the others.
pub data Errno : Type 0 where
  eagain econnaborted eintr eproto eperm emfile : Errno
  ebadf efault einval enfile enobufs enomem enotsock eopnotsupp : Errno
  other : ℕ → Errno

pub data Answer : Type 0 where
  connection : ℕ → Answer
  failed : Errno → Answer

-- The switch of `sockets::accept`: an expected error is returned.
abbrev pub is_expected : Errno → Bool
is_expected eagain = true
is_expected econnaborted = true
is_expected eintr = true
is_expected eproto = true
is_expected eperm = true
is_expected emfile = true
is_expected _ = false

unfoldable pub accept : Answer → Outcome Answer
accept (connection fd) = ok (connection fd)
accept (failed e) = if is_expected e then ok (failed e) else fault

pub data Call : Type 0 where
  opened closed : Option ℕ → Call
  given : ℕ → Call

pub record Acceptor : Type 0 where
  pub accept_socket : ℕ
  pub accept_channel : Channel
  pub has_callback : Bool
  pub listening : Bool
  pub idle_fd : Option ℕ
  pub calls : List Call

-- `createNonblockingOrDie`, `bindOrDie` and `listenOrDie` return only if the call does not fail.
unfoldable pub or_die {ℓ} : {A : Type ℓ} → Option A → Outcome A
or_die none = fault
or_die (some a) = ok a

abbrev pub is_open : Option ℕ → Bool
is_open none = false
is_open (some fd) = true

-- The constructor. The options of the socket are left out. `setNewConnectionCallback` is declared and has no body:
-- whether there is a callback is the argument `has`. The channel is at `id`.
unfoldable pub new_acceptor : Bool → ℕ → Option ℕ → Option ℕ → Bool → Outcome Acceptor
unfolding or_die new_channel
new_acceptor has id socket idle bound = do
  accept_socket ← or_die socket
  assert (is_open idle)
  assert bound
  let channel : Channel = new_channel id accept_socket
  ok (record {
    accept_socket = accept_socket;
    accept_channel = record channel { callbacks = record (channel.callbacks) { on_read = true } };
    has_callback = has;
    listening = false;
    idle_fd = idle;
    calls = opened idle ∷ opened (some accept_socket) ∷ [];
  })

unfoldable pub listen : (Ctl → Bool) → Bool → Acceptor → Poller → Outcome (Poller × Acceptor)
listen epoll_ctl listened a p = do
  assert listened
  (p', channel) ← enable_reading epoll_ctl a.accept_channel p
  ok (p', record a { listening = true; accept_channel = channel })

-- Out of descriptors: the reserve is closed, so that the connection can be taken and closed, and opened again.
unfoldable pub drop_connection : Option ℕ → Option ℕ → Acceptor → Acceptor
drop_connection taken reserve a = record a {
  idle_fd = reserve;
  calls = opened reserve ∷ closed taken ∷ opened taken ∷ closed a.idle_fd ∷ a.calls;
}

abbrev pub is_emfile : Errno → Bool
is_emfile emfile = true
is_emfile _ = false

abbrev pub take_connection : ℕ → Acceptor → Acceptor
take_connection fd a = record a {
  calls = (if a.has_callback then given fd else closed (some fd)) ∷ opened (some fd) ∷ a.calls;
}

-- `taken` and `reserve` are the answers to the second `accept` and to the `open` behind it.
unfoldable pub handle_read : Answer → Option ℕ → Option ℕ → Acceptor → Outcome Acceptor
unfolding accept drop_connection
handle_read answer taken reserve a = do
  connfd ← accept answer
  elim connfd [
    | connection fd ↦ ok (take_connection fd a)
    | failed e ↦ ok (if is_emfile e then drop_connection taken reserve a else a)
  ]

-- The destructor, with that of the socket.
unfoldable pub destroy_acceptor : (Ctl → Bool) → Acceptor → Poller → Outcome (Poller × Acceptor)
destroy_acceptor epoll_ctl a p = do
  (p', channel) ← disable_all epoll_ctl a.accept_channel p
  (p'', channel') ← remove epoll_ctl channel p'
  ok (
    p'',
    record a {
      accept_channel = channel';
      calls = closed (some a.accept_socket) ∷ closed a.idle_fd ∷ a.calls;
    },
  )
