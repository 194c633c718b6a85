-- ===== src/TcpConnection/SendBuffer.antt =====
-- `send(Buffer *)` (net/tcp_connection.cpp): what it gives to the peer.
use my_chat_respons.Common.{
  ℕ, ◌^◌, ◌<◌, ◌≡◌, refl, ap, ◌∙◌, ◌≢◌, Bool, true, false, List, ◌++◌, arith, length, take, drop,
  take_all, Ensures, Ensures-bind,
}
use my_chat_respons.Poller.{Ctl}
use my_chat_respons.Buffer.{Buffer, retrive_all, readable_bytes, peek}
use my_chat_respons.Buffer.Valid.{IsValid, contents, length-contents, readable_bytes-eq}
use my_chat_respons.Buffer.Retrieve.{take-contents}
use my_chat_respons.TcpConnection.{
  is_disconnected, TcpConnection, Written, broken_pipe, send_in_loop, send_buffer, connected,
  is_connected,
}
use my_chat_respons.TcpConnection.Stream.{stream, send_in_loop-stream}

module _ (epoll_ctl : Ctl → Bool) where
  unread :
      (buf : Buffer)
      → IsValid buf
      → take (readable_bytes buf) (drop (peek buf) buf.bytes) ≡ contents buf
  unfolding peek
  unread buf v =
      let size = length-contents v in
      take-contents (readable_bytes buf) v (omega (arith, size))
      ∙ take_all (readable_bytes buf) (contents buf) (omega (arith, size))

  -- The same of `send(Buffer *)` with a valid buffer on a connection that is connected: if it returns, the peer's
  -- part and what waits are followed by the bytes of the buffer, and the buffer is as `retriveAll` leaves it.
  send_buffer-stream :
      (answer : Written) (buf : Buffer) (c : TcpConnection)
      → IsValid buf
      → IsValid c.output
      → readable_bytes c.output ≡ 0
      → c.state ≡ connected
      → answer ≢ broken_pipe
      → Ensures
          (λ r. (stream r.0 ≡ stream c ++ contents buf) × (r.1 ≡ retrive_all buf))
          (send_buffer epoll_ctl answer buf c)
  unfolding send_buffer
  send_buffer-stream answer buf c w v empty is whole =
      let message = take (readable_bytes buf) (drop (peek buf) buf.bytes) in
      let same = unread buf w in
      let on : is_connected c.state ≡ true = ap is_connected is in
      let up : is_disconnected c.state ≡ false = ap is_disconnected is in
      let small : length message < 2 ^ 63 =
        omega (arith, ap length same, length-contents w, readable_bytes-eq w, w.fits, w.small) in
      rw on (
        Ensures-bind (λ c'. stream c' ≡ stream c ++ message) _
          (send_in_loop epoll_ctl answer message c) _
          (send_in_loop-stream epoll_ctl answer message c v empty up whole small)
          (λ c' e. (e ∙ ap (λ (xs : List ℕ). stream c ++ xs) same, refl)))
