-- ===== src/TcpConnection/Tests.antt =====
-- Runs of a connection (net/tcp_connection.cpp) on small inputs.
use my_chat_respons.Common.{
  ℕ, ◌≡◌, refl, Bool, true, false, none, some, [], ◌∷◌, arith, ◌==◌, if◌then◌else◌, Ensures,
}
use my_chat_respons.Common.Int.{pos}
use my_chat_respons.Channel.{Channel, none_event}
use my_chat_respons.Poller.{Ctl, Poller}
use my_chat_respons.Buffer.{Buffer, readable_bytes}
use my_chat_respons.Buffer.ReadFd.{got}
use my_chat_respons.TcpConnection.{
  StateE, connected, wrote, TcpConnection, took, would_block, send, send_in_loop, handle_write,
}
use my_chat_respons.TcpConnection.Stream.{sent, stream, send_in_loop-stream, handle_write-stream}
use my_chat_respons.TcpConnection.Steps.{Later}
use my_chat_respons.TcpConnection.Lifecycle.{
  sends, shuts, is_readable, run, Stalls, send-Stalls, run-Later,
}

abbrev accepts : Ctl → Bool
accepts call = true

abbrev peer_poller : Poller
peer_poller = record { channels = λ k. if k == 5 then some 1 else none; calls = [] }

-- A channel that asks for input, or for output.
abbrev peer_channel : Bool → Bool → Channel
peer_channel input output = record {
  id = 1;
  fd = 5;
  events = record none_event { pollin = input; pollout = output };
  revents = record none_event { pollout = true };
  index = pos 1;
  tied = true;
  event_handling = false;
  add_to_loop = true;
  callbacks = record { on_read = true; on_write = true; on_close = true; on_error = true };
}

-- Sixteen bytes, of which those from the offset 8 to the given one are unread.
abbrev queue : ℕ → Buffer
queue last = record {
  bytes = 0 ∷ 0 ∷ 0 ∷ 0 ∷ 0 ∷ 0 ∷ 0 ∷ 0 ∷ 97 ∷ 98 ∷ 99 ∷ 100 ∷ 0 ∷ 0 ∷ 0 ∷ 0 ∷ [];
  capacity = 16;
  read_index = 8;
  write_index = last;
}

abbrev peer : StateE → Bool → ℕ → TcpConnection
peer state input last = record {
  state = state;
  reading = true;
  channel = peer_channel input false;
  poller = peer_poller;
  input = queue 8;
  output = queue last;
  high_water_mark = 65536;
  has_write_complete = true;
  has_high_water_mark = false;
  effects = wrote (1 ∷ []) ∷ [];
}

send_in_loop-stream_example :
    Ensures
      (λ c'. stream c' ≡ 1 ∷ 2 ∷ 3 ∷ [])
      (send_in_loop accepts (took 1) (2 ∷ 3 ∷ []) (peer connected false 8))
unfolding sent
send_in_loop-stream_example =
    send_in_loop-stream accepts (took 1) (2 ∷ 3 ∷ []) (peer connected false 8)
      (record { start = omega arith; order = omega arith; fits = omega arith; small = omega arith })
      (unfold readable_bytes in refl) refl (λ e. cc) (omega arith)

handle_write-stream_example :
    Ensures
      (λ c'. stream c' ≡ 1 ∷ 97 ∷ 98 ∷ [])
      (handle_write accepts (took 1) (peer connected true 10))
unfolding sent
handle_write-stream_example =
    handle_write-stream accepts (took 1) (peer connected true 10)
      (record { start = omega arith; order = omega arith; fits = omega arith; small = omega arith })

send-Stalls_example :
    Ensures
      (Stalls (peer connected true 8))
      (send accepts (took 2) (2 ∷ 3 ∷ []) (peer connected true 8))
send-Stalls_example = send-Stalls accepts (took 2) (2 ∷ 3 ∷ []) (peer connected true 8) refl refl

run-Later_example : Ensures (Later (peer connected true 8)) (
    run accepts
      (sends would_block (2 ∷ []) ∷ is_readable (λ room. got []) ∷ shuts ∷ [])
      (peer connected true 8))
run-Later_example =
    run-Later accepts (sends would_block (2 ∷ []) ∷ is_readable (λ room. got []) ∷ shuts ∷ [])
      (peer connected true 8)
