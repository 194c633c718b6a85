-- ===== src/TcpConnection.antt =====
-- net/tcp_connection.h and net/tcp_connection.cpp. The operations run in the loop's thread, so
-- `runInLoop` calls at once; what `queueInLoop` is given, what the user's callbacks are called for
-- and what goes to the socket are kept as lists of events, newest first. The kernel's answer to
-- `write` is an argument.
pub mod Stream
pub mod Steps
pub mod SendBuffer
pub mod Lifecycle
mod Tests
use my_chat_respons.Common.{
  ℕ, zero, suc, Bool, true, false, not, ◌&&◌, ◌||◌, List, ◌∷◌, ltb, leb, ◌==◌, if◌then◌else◌,
  length, take, drop, Outcome, ok, add_size, ◌>>=◌, ◌>>◌,
}
use my_chat_respons.Channel.{Channel, is_writing, is_reading, tie}
use my_chat_respons.Poller.{
  Ctl, Poller, enable_reading, disable_reading, enable_writing, disable_writing, disable_all,
  remove,
}
use my_chat_respons.Buffer.{Buffer, append, retrive, retrive_all, readable_bytes, peek}
use my_chat_respons.Buffer.ReadFd.{ReadResult, IoCount, count, error, read_fd}

pub data StateE : Type 0 where
  disconnected connecting connected disconnecting : StateE

abbrev pub is_connected : StateE → Bool
is_connected connected = true
is_connected _ = false

abbrev pub is_disconnecting : StateE → Bool
is_disconnecting disconnecting = true
is_disconnecting _ = false

abbrev pub is_disconnected : StateE → Bool
is_disconnected disconnected = true
is_disconnected _ = false

-- What an operation does outside the connection: bytes accepted by the socket, the end of output,
-- calls of the user's callbacks and of the owner's, and tasks given to `queueInLoop`.
pub data Effect : Type 0 where
  wrote : List ℕ → Effect
  shut_write : Effect
  calls_connection : StateE → Effect
  calls_message : ℕ → Effect
  calls_close : Effect
  queues_write_complete : Effect
  queues_high_water_mark : ℕ → Effect
  queues_force_close : Effect
  runs_force_close_after : ℕ → Effect
  reports_error : Effect

pub record TcpConnection : Type 0 where
  pub state : StateE
  pub reading : Bool
  pub channel : Channel
  pub poller : Poller
  pub input : Buffer
  pub output : Buffer
  pub high_water_mark : ℕ
  pub has_write_complete : Bool
  pub has_high_water_mark : Bool
  pub effects : List Effect

abbrev pub emit : Effect → TcpConnection → TcpConnection
emit e c = record c { effects = e ∷ c.effects }

abbrev pub emit_if : Bool → Effect → TcpConnection → TcpConnection
emit_if b e c = if b then emit e c else c

abbrev pub set_state : StateE → TcpConnection → TcpConnection
set_state s c = record c { state = s }

-- What `write` answers: how many bytes it took, or an error, whether it is EWOULDBLOCK, and
-- whether it is EPIPE or ECONNRESET.
pub data Written : Type 0 where
  took : ℕ → Written
  would_block : Written
  broken_pipe : Written
  other_error : Written

-- A change of the channel's events goes to the poller.
abbrev pub on_channel :
    (Channel → Poller → Outcome (Poller × Channel)) → TcpConnection → Outcome TcpConnection
on_channel change c = do
  r ← change c.channel c.poller
  ok (record c { poller = r.0; channel = r.1 })

-- The first part of `sendInLoop`: what a direct write leaves, and whether the peer is gone.
direct_write : Written → List ℕ → TcpConnection → List ℕ × Bool × TcpConnection
direct_write (took n) message c = (
  drop n message,
  false,
  emit_if (length (drop n message) == 0 && c.has_write_complete) queues_write_complete
      (emit (wrote (take n message)) c),
)
direct_write would_block message c = (message, false, c)
direct_write broken_pipe message c = (message, true, c)
direct_write other_error message c = (message, false, c)

pub shutdown_in_loop : TcpConnection → TcpConnection
shutdown_in_loop c = if is_writing c.channel then c else emit shut_write c

pub shutdown : TcpConnection → TcpConnection
unfolding shutdown_in_loop
shutdown c = if is_connected c.state then shutdown_in_loop (set_state disconnecting c) else c

pub force_close : TcpConnection → TcpConnection
force_close c =
    if is_connected c.state || is_disconnecting c.state
    then emit queues_force_close (set_state disconnecting c)
    else c

-- `forceCloseWithDealy`, in microseconds; the timer holds the connection weakly.
pub force_close_with_delay : ℕ → TcpConnection → TcpConnection
force_close_with_delay delay c =
    if is_connected c.state || is_disconnecting c.state
    then emit (runs_force_close_after delay) (set_state disconnecting c)
    else c

-- The assertion assigns KConnecting, which is not zero. Nothing is read yet, and no callback
-- called.
pub connect_established : TcpConnection → TcpConnection
connect_established c =
    let c' = set_state connected (set_state connecting c) in record c' { channel = tie c'.channel }

handle_error : TcpConnection → TcpConnection
handle_error c = emit reports_error c

-- The second part: what remains waits in the output buffer.
module _ (epoll_ctl : Ctl → Bool) where
  keep_remaining : List ℕ → TcpConnection → Outcome TcpConnection
  keep_remaining remaining c = do
    let old = readable_bytes c.output
    let above = leb c.high_water_mark (add_size old (length remaining)) && ltb old c.high_water_mark
    let c' =
        emit_if (above && c.has_high_water_mark)
          (queues_high_water_mark (add_size old (length remaining))) c
    output ← append remaining c'.output
    let c'' : TcpConnection = record c' { output = output }
    if is_writing c''.channel then ok c'' else on_channel (enable_writing epoll_ctl) c''

  pub send_in_loop : Written → List ℕ → TcpConnection → Outcome TcpConnection
  unfolding direct_write keep_remaining
  send_in_loop answer message c =
      if is_disconnected c.state
      then ok c
      else (let (remaining, fault_error, c') =
            (if not (is_writing c.channel) && readable_bytes c.output == 0
              then direct_write answer message c
              else (message, false, c)) in
          if not fault_error && ltb 0 (length remaining)
          then keep_remaining remaining c'
          else ok c')

  -- `send(const StringPiece &)`, called in the loop's thread.
  pub send : Written → List ℕ → TcpConnection → Outcome TcpConnection
  unfolding send_in_loop
  send answer message c = if is_connected c.state then send_in_loop answer message c else ok c

  -- `send(Buffer *)`, called in the loop's thread: the buffer is emptied if its bytes were sent.
  pub send_buffer : Written → Buffer → TcpConnection → Outcome (TcpConnection × Buffer)
  unfolding send_in_loop
  send_buffer answer buf c =
      if is_connected c.state
      then (do
        c' ← send_in_loop answer (take (readable_bytes buf) (drop (peek buf) buf.bytes)) c
        ok (c', retrive_all buf))
      else ok (c, buf)

  -- The assertion of `handleClose` is always true.
  pub handle_close : TcpConnection → Outcome TcpConnection
  handle_close c = do
    c' ← on_channel (disable_all epoll_ctl) (set_state disconnected c)
    ok (emit calls_close (emit (calls_connection disconnected) c'))

  pub force_close_in_loop : TcpConnection → Outcome TcpConnection
  unfolding handle_close
  force_close_in_loop c =
      if is_connected c.state || is_disconnecting c.state then handle_close c else ok c

  pub start_read_in_loop : TcpConnection → Outcome TcpConnection
  start_read_in_loop c =
      if not c.reading || not (is_reading c.channel)
      then (do c' ← on_channel (enable_reading epoll_ctl) c; ok (record c' { reading = true }))
      else ok c

  -- The last statement of the source, `reading_ - true`, changes nothing.
  pub stop_read_in_loop : TcpConnection → Outcome TcpConnection
  stop_read_in_loop c =
      if c.reading || is_reading c.channel then on_channel (disable_reading epoll_ctl) c else ok c

  pub connect_destory : TcpConnection → Outcome TcpConnection
  connect_destory c = do
    c' ←
        (if is_connected c.state
          then (do
            c1 ← on_channel (disable_all epoll_ctl) (set_state disconnected c)
            ok (emit (calls_connection disconnected) c1))
          else ok c)
    on_channel (remove epoll_ctl) c'

  -- After `readFd`: data, the end of the stream, or an error.
  after_read : IoCount → TcpConnection → Outcome TcpConnection
  unfolding handle_close handle_error
  after_read (count zero) c = handle_close c
  after_read (count (suc n)) c = ok (emit (calls_message (suc n)) c)
  after_read (error e) c = ok (handle_error c)

  pub handle_read : (ℕ → ReadResult) → TcpConnection → Outcome TcpConnection
  unfolding after_read
  handle_read readv c = do r ← read_fd readv c.input; after_read r.0 (record c { input = r.1 })

  -- After a `write` that took `n` bytes, more than none. The task that the code queues here binds a pointer to the member
  -- that has the callback, and so does not call it; that the task is queued is what is kept.
  flushed : ℕ → TcpConnection → Outcome TcpConnection
  unfolding shutdown_in_loop
  flushed n c = do
    let sent = take n (drop (peek c.output) c.output.bytes)
    output ← retrive n c.output
    let c' = emit (wrote sent) (record c { output = output })
    if readable_bytes output == 0
        then (do
          c1 ← on_channel (disable_writing epoll_ctl) c'
          let c2 = emit_if c1.has_write_complete queues_write_complete c1
          ok (if is_disconnecting c2.state then shutdown_in_loop c2 else c2))
        else ok c'

  pub handle_write : Written → TcpConnection → Outcome TcpConnection
  unfolding flushed
  handle_write (took zero) c = ok c
  handle_write (took (suc n)) c = if is_writing c.channel then flushed (suc n) c else ok c
  handle_write would_block c = ok c
  handle_write broken_pipe c = ok c
  handle_write other_error c = ok c
