-- ===== src/TcpConnection/Steps.antt =====
-- What one event of a connection (net/tcp_connection.cpp) does to its state.
use my_chat_respons.Common.{
  ℕ, zero, suc, ◌≤◌, ◌≡◌, refl, ◌∙◌, inl, inr, Bool, true, false, not, ◌&&◌, ◌||◌, List, arith, ltb,
  leb, ◌==◌, if◌then◌else◌, Bool-cases, length, take, drop, Outcome, ok, Ensures, Ensures-bind,
  Ensures-any, Ensures-mono, add_size,
}
use my_chat_respons.Channel.{Channel, is_writing, is_reading}
use my_chat_respons.Poller.{
  Ctl, Poller, enable_reading, disable_reading, enable_writing, disable_writing, disable_all,
  remove,
}
use my_chat_respons.Buffer.{Buffer, append, retrive, readable_bytes, peek}
use my_chat_respons.Buffer.ReadFd.{ReadResult, IoCount, count, error, read_fd}
use my_chat_respons.TcpConnection.{
  StateE, disconnected, connecting, connected, disconnecting, is_connected, is_disconnected,
  is_disconnecting, Effect, wrote, calls_connection, queues_write_complete, queues_high_water_mark,
  TcpConnection, emit, emit_if, set_state, Written, took, would_block, broken_pipe, other_error,
  on_channel, direct_write, keep_remaining, send_in_loop, send, shutdown_in_loop, shutdown,
  force_close, force_close_with_delay, handle_close, force_close_in_loop, start_read_in_loop,
  stop_read_in_loop, connect_destory, handle_error, after_read, handle_read, flushed, handle_write,
}

-- How far a connection is in its life.
pub rank : StateE → ℕ
rank connecting = 0
rank connected = 1
rank disconnecting = 2
rank disconnected = 3

-- The connection is no earlier in its life.
abbrev pub Later : TcpConnection → TcpConnection → Type 0
Later c c' = rank c.state ≤ rank c'.state

on_channel-state :
    (change : Channel → Poller → Outcome (Poller × Channel)) (c : TcpConnection)
    → Ensures (λ c'. c'.state ≡ c.state) (on_channel change c)
on_channel-state change c =
    Ensures-bind (λ _. Unit {0}) (λ c'. c'.state ≡ c.state) (change c.channel c.poller) _
      (Ensures-any (change c.channel c.poller)) (λ r _. refl)

same_state : (b : Bool) (e : Effect) (c : TcpConnection) → (emit_if b e c).state ≡ c.state
same_state true e c = refl
same_state false e c = refl

pub writing : (c : Channel) → c.events.pollin ≡ true → is_writing c ≡ true
unfolding is_writing
writing c h = rw h

attempt-state :
    (b : Bool) (answer : Written) (message : List ℕ) (c : TcpConnection)
    → (if b then direct_write answer message c else (message, false, c)).2.state ≡ c.state
unfolding direct_write
attempt-state false answer message c = refl
attempt-state true (took n) message c =
    same_state (length (drop n message) == 0 && c.has_write_complete) queues_write_complete
      (emit (wrote (take n message)) c)
attempt-state true would_block message c = refl
attempt-state true broken_pipe message c = refl
attempt-state true other_error message c = refl

rank-le : (s : StateE) → rank s ≤ 3
unfolding rank
rank-le disconnected = omega arith
rank-le connecting = omega arith
rank-le connected = omega arith
rank-le disconnecting = omega arith

closing-state :
    (c : TcpConnection)
    → let c2 = emit_if c.has_write_complete queues_write_complete c in
      (if is_disconnecting c2.state then shutdown_in_loop c2 else c2).state ≡ c.state
unfolding shutdown_in_loop
closing-state c = ground arith

-- Nothing is later than the end.
Later-end : (c c' : TcpConnection) → c'.state ≡ disconnected → Later c c'
unfolding rank
Later-end c c' e = rw e (rank-le c.state)

pub Later-same : (c c' : TcpConnection) → c'.state ≡ c.state → Later c c'
Later-same c c' e = rw e (omega arith)

pub shutdown-Later : (c : TcpConnection) → Later c (shutdown c)
unfolding shutdown shutdown_in_loop rank
shutdown-Later c = ground arith

pub force_close-Later : (c : TcpConnection) → Later c (force_close c)
unfolding force_close rank
force_close-Later c = ground arith

pub force_close_with_delay-Later :
    (delay : ℕ) (c : TcpConnection) → Later c (force_close_with_delay delay c)
unfolding force_close_with_delay rank
force_close_with_delay-Later delay c = ground arith

module _ (epoll_ctl : Ctl → Bool) where
  asked :
      {s : StateE} (c : TcpConnection)
      → c.state ≡ s
      → Ensures
          (λ c'. c'.state ≡ s)
          (if is_writing c.channel then ok c else on_channel (enable_writing epoll_ctl) c)
  asked {s} c e = elim (Bool-cases (is_writing c.channel)) [
    | inl t ↦ rw t e
    | inr f ↦ rw f (
        Ensures-mono (λ c'. c'.state ≡ c.state) (λ c'. c'.state ≡ s)
          (on_channel (enable_writing epoll_ctl) c) (λ c' q. q ∙ e)
          (on_channel-state (enable_writing epoll_ctl) c))
  ]

  keep_remaining-state :
      (xs : List ℕ) (c : TcpConnection)
      → Ensures (λ c'. c'.state ≡ c.state) (keep_remaining epoll_ctl xs c)
  unfolding keep_remaining
  keep_remaining-state xs c =
      let old = readable_bytes c.output in
      let above = leb c.high_water_mark (add_size old (length xs)) && ltb old c.high_water_mark in
      let c1 =
        emit_if (above && c.has_high_water_mark) (queues_high_water_mark (add_size old (length xs)))
          c in
      let e : c1.state ≡ c.state =
        same_state (above && c.has_high_water_mark)
          (queues_high_water_mark (add_size old (length xs))) c in
      Ensures-bind (λ _. Unit {0}) (λ c'. c'.state ≡ c.state) (append xs c1.output) _
        (Ensures-any (append xs c1.output)) (λ output _. asked (record c1 { output = output }) e)

  handle_close-state :
      (c : TcpConnection) → Ensures (λ c'. c'.state ≡ disconnected) (handle_close epoll_ctl c)
  unfolding handle_close
  handle_close-state c =
      Ensures-bind (λ c'. c'.state ≡ disconnected) (λ c'. c'.state ≡ disconnected)
        (on_channel (disable_all epoll_ctl) (set_state disconnected c)) _
        (on_channel-state (disable_all epoll_ctl) (set_state disconnected c)) (λ c' e. e)

  pub send-state :
      (answer : Written) (message : List ℕ) (c : TcpConnection)
      → Ensures (λ c'. c'.state ≡ c.state) (send epoll_ctl answer message c)
  unfolding send send_in_loop
  send-state answer message c = elim (Bool-cases (is_connected c.state)) [
    | inl t ↦ rw t (elim (Bool-cases (is_disconnected c.state)) [
      | inl d ↦ rw d refl
      | inr u ↦
          let test = not (is_writing c.channel) && readable_bytes c.output == 0 in
          let r : List ℕ × Bool × TcpConnection =
            if test then direct_write answer message c else (message, false, c) in
          let e = attempt-state test answer message c in
          rw u (elim (Bool-cases (not r.1 && ltb 0 (length r.0))) [
            | inl k ↦ rw k (
                Ensures-mono (λ c'. c'.state ≡ r.2.state) (λ c'. c'.state ≡ c.state)
                  (keep_remaining epoll_ctl r.0 r.2) (λ c' q. q ∙ e) (keep_remaining-state r.0 r.2))
            | inr k ↦ rw k e
          ])
    ])
    | inr f ↦ rw f refl
  ]

  pub force_close_in_loop-Later :
      (c : TcpConnection) → Ensures (Later c) (force_close_in_loop epoll_ctl c)
  unfolding force_close_in_loop
  force_close_in_loop-Later c =
      elim (Bool-cases (is_connected c.state || is_disconnecting c.state)) [
        | inl t ↦ rw t (
            Ensures-mono (λ c'. c'.state ≡ disconnected) (Later c) (handle_close epoll_ctl c)
              (λ c' e. Later-end c c' e) (handle_close-state c))
        | inr f ↦ rw f (omega arith)
      ]

  pub reading-state :
      (c : TcpConnection)
      → Ensures (λ c'. c'.state ≡ c.state) (start_read_in_loop epoll_ctl c)
        × Ensures (λ c'. c'.state ≡ c.state) (stop_read_in_loop epoll_ctl c)
  unfolding start_read_in_loop stop_read_in_loop
  reading-state c = (
    elim (Bool-cases (not c.reading || not (is_reading c.channel))) [
      | inl t ↦ rw t (
          Ensures-bind (λ c'. c'.state ≡ c.state) (λ c'. c'.state ≡ c.state)
            (on_channel (enable_reading epoll_ctl) c) _
            (on_channel-state (enable_reading epoll_ctl) c) (λ c' e. e))
      | inr f ↦ rw f refl
    ],
    elim (Bool-cases (c.reading || is_reading c.channel)) [
      | inl t ↦ rw t (on_channel-state (disable_reading epoll_ctl) c)
      | inr f ↦ rw f refl
    ],
  )

  pub connect_destory-Later : (c : TcpConnection) → Ensures (Later c) (connect_destory epoll_ctl c)
  unfolding connect_destory
  connect_destory-Later c =
      Ensures-bind (Later c) (Later c) _ (on_channel (remove epoll_ctl))
        (elim (Bool-cases (is_connected c.state)) [
          | inl t ↦ rw t (
              Ensures-bind (λ c'. c'.state ≡ disconnected) (Later c)
                (on_channel (disable_all epoll_ctl) (set_state disconnected c)) _
                (on_channel-state (disable_all epoll_ctl) (set_state disconnected c))
                (λ c' e. Later-end c (emit (calls_connection disconnected) c') e))
          | inr f ↦ rw f (omega arith)
        ])
        λ c1 le.
          Ensures-mono (λ c'. c'.state ≡ c1.state) (Later c) (on_channel (remove epoll_ctl) c1)
            (λ c' e. rw e le) (on_channel-state (remove epoll_ctl) c1)

  after_read-Later :
      (n : IoCount) (c : TcpConnection) → Ensures (Later c) (after_read epoll_ctl n c)
  unfolding after_read handle_error
  after_read-Later (count zero) c =
      Ensures-mono (λ c'. c'.state ≡ disconnected) (Later c) (handle_close epoll_ctl c)
        (λ c' e. Later-end c c' e) (handle_close-state c)
  after_read-Later (count (suc n)) c = omega arith
  after_read-Later (error e) c = omega arith

  flushed-state :
      (n : ℕ) (c : TcpConnection) → Ensures (λ c'. c'.state ≡ c.state) (flushed epoll_ctl n c)
  unfolding flushed
  flushed-state n c =
      Ensures-bind (λ _. Unit {0}) (λ c'. c'.state ≡ c.state) (retrive n c.output) _
        (Ensures-any (retrive n c.output))
        λ output _. elim (Bool-cases (readable_bytes output == 0)) [
          | inl t ↦ rw t (
              Ensures-bind (λ c'. c'.state ≡ c.state) (λ c'. c'.state ≡ c.state)
                (on_channel (disable_writing epoll_ctl) (c1 output)) _
                (on_channel-state (disable_writing epoll_ctl) (c1 output))
                (λ c' e. closing-state c' ∙ e))
          | inr f ↦ rw f refl
        ]
    where
      c1 : Buffer → TcpConnection
      c1 output =
          emit (wrote (take n (drop (peek c.output) c.output.bytes))) (record c { output = output })

  pub handle_read-Later :
      (readv : ℕ → ReadResult) (c : TcpConnection)
      → Ensures (Later c) (handle_read epoll_ctl readv c)
  unfolding handle_read
  handle_read-Later readv c =
      Ensures-bind (λ _. Unit {0}) (Later c) (read_fd readv c.input) _
        (Ensures-any (read_fd readv c.input))
        (λ r _. after_read-Later r.0 (record c { input = r.1 }))

  pub handle_write-Later :
      (answer : Written) (c : TcpConnection) → Ensures (Later c) (handle_write epoll_ctl answer c)
  unfolding handle_write
  handle_write-Later (took zero) c = omega arith
  handle_write-Later (took (suc n)) c = elim (Bool-cases (is_writing c.channel)) [
    | inl t ↦ rw t (
        Ensures-mono (λ c'. c'.state ≡ c.state) (Later c) (flushed epoll_ctl (suc n) c)
          (λ c' e. Later-same c c' e) (flushed-state (suc n) c))
    | inr f ↦ rw f (omega arith)
  ]
  handle_write-Later would_block c = omega arith
  handle_write-Later broken_pipe c = omega arith
  handle_write-Later other_error c = omega arith
