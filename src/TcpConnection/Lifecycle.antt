-- ===== src/TcpConnection/Lifecycle.antt =====
-- The states of a connection (net/tcp_connection.cpp) over any sequence of its events, and what a
-- connection that reads can send.
use my_chat_respons.Common.{
  ℕ, ◌≡◌, refl, ap, ◌∙◌, inl, inr, Bool, true, false, ◌&&◌, List, [], ◌∷◌, arith, ltb, leb,
  Bool-cases, length, Outcome, ok, ◌>>=◌, Ensures, Ensures-bind, Ensures-any, Ensures-mono,
  add_size,
}
use my_chat_respons.Channel.{is_writing}
use my_chat_respons.Poller.{Ctl}
use my_chat_respons.Buffer.{append, readable_bytes}
use my_chat_respons.Buffer.ReadFd.{ReadResult}
use my_chat_respons.TcpConnection.{
  connected, is_connected, is_disconnected, queues_high_water_mark, TcpConnection, emit_if, Written,
  keep_remaining, send_in_loop, send, shutdown, force_close, force_close_with_delay,
  force_close_in_loop, start_read_in_loop, stop_read_in_loop, connect_destory, handle_read,
  handle_write,
}
use my_chat_respons.TcpConnection.Stream.{sent}
use my_chat_respons.TcpConnection.Steps.{
  Later, writing, Later-same, shutdown-Later, force_close-Later, force_close_with_delay-Later,
  send-state, force_close_in_loop-Later, reading-state, connect_destory-Later, handle_read-Later,
  handle_write-Later,
}

-- What can happen to a connection once it is established.
pub data Event : Type 0 where
  sends : Written → List ℕ → Event
  shuts : Event
  force_closes : Event
  runs_force_close : Event
  delays_force_close : ℕ → Event
  starts_read : Event
  stops_read : Event
  is_readable : (ℕ → ReadResult) → Event
  is_writeable : Written → Event
  is_destroyed : Event

pub step : (Ctl → Bool) → Event → TcpConnection → Outcome TcpConnection
step epoll_ctl (sends answer message) c = send epoll_ctl answer message c
step epoll_ctl shuts c = ok (shutdown c)
step epoll_ctl force_closes c = ok (force_close c)
step epoll_ctl runs_force_close c = force_close_in_loop epoll_ctl c
step epoll_ctl (delays_force_close delay) c = ok (force_close_with_delay delay c)
step epoll_ctl starts_read c = start_read_in_loop epoll_ctl c
step epoll_ctl stops_read c = stop_read_in_loop epoll_ctl c
step epoll_ctl (is_readable readv) c = handle_read epoll_ctl readv c
step epoll_ctl (is_writeable answer) c = handle_write epoll_ctl answer c
step epoll_ctl is_destroyed c = connect_destory epoll_ctl c

pub run : (Ctl → Bool) → List Event → TcpConnection → Outcome TcpConnection
unfolding step
run epoll_ctl [] c = ok c
run epoll_ctl (e ∷ es) c = step epoll_ctl e c >>= run epoll_ctl es

-- The bytes taken, the channel and the poller are as they were.
abbrev pub Stalls : TcpConnection → TcpConnection → Type 0
Stalls c c' = (sent c'.effects ≡ sent c.effects) × (c'.channel ≡ c.channel) × (c'.poller ≡ c.poller)

mark-Stalls :
    (b : Bool) (n : ℕ) (c : TcpConnection) → Stalls c (emit_if b (queues_high_water_mark n) c)
unfolding sent
mark-Stalls true n c = (refl, refl, refl)
mark-Stalls false n c = (refl, refl, refl)

module _ (epoll_ctl : Ctl → Bool) where
  kept-Stalls :
      (xs : List ℕ) (c : TcpConnection)
      → is_writing c.channel ≡ true
      → Ensures (Stalls c) (keep_remaining epoll_ctl xs c)
  unfolding keep_remaining
  kept-Stalls xs c w =
      let old = readable_bytes c.output in
      let above = leb c.high_water_mark (add_size old (length xs)) && ltb old c.high_water_mark in
      let n = add_size old (length xs) in
      let c1 = emit_if (above && c.has_high_water_mark) (queues_high_water_mark n) c in
      let (a, b, d) = mark-Stalls (above && c.has_high_water_mark) n c in
      Ensures-bind (λ _. Unit {0}) (Stalls c) (append xs c1.output) _
        (Ensures-any (append xs c1.output)) (λ output _. rw (ap is_writing b ∙ w) (a, b, d))

  -- A connection that asks for input cannot send: what `isWriting` tests is the interest in input.
  -- On a connected one whose channel asks for input, `send`, if it returns, gives the socket
  -- nothing and does not ask for write events, whatever the socket would answer.
  pub send-Stalls :
      (answer : Written) (message : List ℕ) (c : TcpConnection)
      → c.state ≡ connected
      → c.channel.events.pollin ≡ true
      → Ensures (Stalls c) (send epoll_ctl answer message c)
  unfolding send send_in_loop
  send-Stalls answer message c up reads =
      let w = writing c.channel reads in
      let yes_up : is_connected c.state ≡ true = ap is_connected up in
      let not_down : is_disconnected c.state ≡ false = ap is_disconnected up in
      rw (yes_up, not_down, w)
        (elim (Bool-cases (ltb 0 (length message))) [
          | inl t ↦ rw t (kept-Stalls message c w)
          | inr f ↦ rw f (refl, refl, refl)
        ])

  -- On a connection that is not connected, `send` and `shutdown` change nothing.
  not_connected-unchanged :
      (answer : Written) (message : List ℕ) (c : TcpConnection)
      → is_connected c.state ≡ false
      → (send epoll_ctl answer message c ≡ ok c) × (shutdown c ≡ c)
  unfolding send shutdown
  not_connected-unchanged answer message c down = (rw down, rw down)

  step-Later : (e : Event) (c : TcpConnection) → Ensures (Later c) (step epoll_ctl e c)
  unfolding step
  step-Later (sends answer message) c =
      Ensures-mono (λ c'. c'.state ≡ c.state) (Later c) (send epoll_ctl answer message c)
        (λ c' e. Later-same c c' e) (send-state epoll_ctl answer message c)
  step-Later shuts c = shutdown-Later c
  step-Later force_closes c = force_close-Later c
  step-Later runs_force_close c = force_close_in_loop-Later epoll_ctl c
  step-Later (delays_force_close delay) c = force_close_with_delay-Later delay c
  step-Later starts_read c =
      Ensures-mono (λ c'. c'.state ≡ c.state) (Later c) (start_read_in_loop epoll_ctl c)
        (λ c' e. Later-same c c' e) (reading-state epoll_ctl c).0
  step-Later stops_read c =
      Ensures-mono (λ c'. c'.state ≡ c.state) (Later c) (stop_read_in_loop epoll_ctl c)
        (λ c' e. Later-same c c' e) (reading-state epoll_ctl c).1
  step-Later (is_readable readv) c = handle_read-Later epoll_ctl readv c
  step-Later (is_writeable answer) c = handle_write-Later epoll_ctl answer c
  step-Later is_destroyed c = connect_destory-Later epoll_ctl c

  -- Whatever happens to a connection once it is established, and whatever the kernel answers, its
  -- state only goes on from connecting over connected and disconnecting to disconnected; so one
  -- that is disconnected stays so.
  pub run-Later : (es : List Event) (c : TcpConnection) → Ensures (Later c) (run epoll_ctl es c)
  unfolding run
  run-Later [] c = omega arith
  run-Later (e ∷ es) c =
      Ensures-bind (Later c) (Later c) (step epoll_ctl e c) (run epoll_ctl es) (step-Later e c)
        λ c1 le.
          Ensures-mono (Later c1) (Later c) (run epoll_ctl es c1) (λ c' le'. omega arith)
            (run-Later es c1)
