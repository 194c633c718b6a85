-- ===== src/TcpConnection/Stream.antt =====
-- The bytes that a connection (net/tcp_connection.cpp) sends: none is lost, doubled or moved between the
-- socket and the output buffer.
use my_chat_respons.Common.{
  ℕ, zero, suc, ◌^◌, ◌≤◌, ◌<◌, ◌≡◌, refl, sym, ap, ◌∙◌, ◌≢◌, inl, inr, Bool, true, false, not, ◌&&◌,
  List, [], ◌∷◌, ◌++◌, arith, ltb, leb, ◌==◌, if◌then◌else◌, lt→ltb, Bool-cases, length, take, drop,
  take-append-drop, length-drop, Outcome, ok, ◌>>=◌, Ensures, Ensures-bind, Ensures-of_Returns,
  Ensures-any, Ensures-mono, add_size,
}
use my_chat_respons.Channel.{Channel, is_writing}
use my_chat_respons.Poller.{Ctl, Poller, enable_writing, disable_writing}
use my_chat_respons.Buffer.{Buffer, append, retrive, readable_bytes, peek}
use my_chat_respons.Buffer.Valid.{IsValid, contents, readable_bytes-eq}
use my_chat_respons.Buffer.Append.{append-drained_partial}
use my_chat_respons.Buffer.Retrieve.{retrive-drop, take-contents}
use my_chat_respons.TcpConnection.{
  is_disconnected, is_disconnecting, Effect, wrote, shut_write, calls_connection, calls_message,
  calls_close, queues_write_complete, queues_high_water_mark, queues_force_close,
  runs_force_close_after, reports_error, TcpConnection, emit, emit_if, Written, took, would_block,
  broken_pipe, other_error, on_channel, direct_write, keep_remaining, send_in_loop,
  shutdown_in_loop, flushed, handle_write,
}
use my_chat_respons.Buffer.Room.{range_empty}
use mathlib.Core.Path.{ap₂}
use mathlib.Core.List.{append-nil, append_assoc}

-- All that the socket took, oldest first.
unfoldable pub sent : List Effect → List ℕ
sent [] = []
sent (wrote xs ∷ es) = sent es ++ xs
sent (shut_write ∷ es) = sent es
sent (calls_connection s ∷ es) = sent es
sent (calls_message n ∷ es) = sent es
sent (calls_close ∷ es) = sent es
sent (queues_write_complete ∷ es) = sent es
sent (queues_high_water_mark n ∷ es) = sent es
sent (queues_force_close ∷ es) = sent es
sent (runs_force_close_after delay ∷ es) = sent es
sent (reports_error ∷ es) = sent es

-- What the peer has received and what still waits for it.
abbrev pub stream : TcpConnection → List ℕ
stream c = sent c.effects ++ contents c.output

sent-wrote : (xs : List ℕ) (es : List Effect) → sent (wrote xs ∷ es) ≡ sent es ++ xs
unfolding sent
sent-wrote xs es = refl

-- A change of events leaves the stream alone.
on_channel-stream :
    (change : Channel → Poller → Outcome (Poller × Channel)) (c : TcpConnection)
    → Ensures (λ c'. (c'.effects ≡ c.effects) × (c'.output ≡ c.output)) (on_channel change c)
on_channel-stream change c =
    Ensures-bind (λ r. Unit {0}) (λ c'. (c'.effects ≡ c.effects) × (c'.output ≡ c.output))
      (change c.channel c.poller) _ (Ensures-any (change c.channel c.poller)) (λ r _. (refl, refl))

mark_silent :
    (b : Bool) (n : ℕ) (c : TcpConnection)
    → let c' = emit_if b (queues_high_water_mark n) c in
      (sent c'.effects ≡ sent c.effects) × (c'.output ≡ c.output)
unfolding sent
mark_silent true n c = (refl, refl)
mark_silent false n c = (refl, refl)

nothing_waits : {b : Buffer} → IsValid b → readable_bytes b ≡ 0 → contents b ≡ []
nothing_waits {b} v empty =
    range_empty b.bytes b.read_index b.write_index (omega (arith, readable_bytes-eq v))

-- What a write attempt leaves: no fault, the same buffer, and every byte with the socket or in hand.
abbrev Attempted : List ℕ → TcpConnection → List ℕ × Bool × TcpConnection → Type 0
Attempted message c r =
    (r.1 ≡ false)
    × (r.2.output ≡ c.output)
    × (sent r.2.effects ++ r.0 ≡ sent c.effects ++ message)
    × (length r.0 ≤ length message)

mark_written :
    (b : Bool) (c : TcpConnection)
    → (sent (emit_if b queues_write_complete c).effects ≡ sent c.effects)
      × ((emit_if b queues_write_complete c).output ≡ c.output)
unfolding sent
mark_written true c = (refl, refl)
mark_written false c = (refl, refl)

direct_write-Attempted :
    (answer : Written) (message : List ℕ) (c : TcpConnection)
    → answer ≢ broken_pipe
    → Attempted message c (direct_write answer message c)
unfolding direct_write
direct_write-Attempted (took n) message c h =
    let done = length (drop n message) == 0 && c.has_write_complete in
    let (silent, same) = mark_written done (emit (wrote (take n message)) c) in
    (
      refl,
      same,
      ap (λ l. l ++ drop n message) (silent ∙ sent-wrote (take n message) c.effects)
          ∙ append_assoc (sent c.effects) (take n message) (drop n message)
          ∙ ap (◌++◌ (sent c.effects)) (take-append-drop n message),
      omega (arith, length-drop n message),
    )
direct_write-Attempted would_block message c h = (refl, refl, refl, omega arith)
direct_write-Attempted broken_pipe message c h = absurd (h refl)
direct_write-Attempted other_error message c h = (refl, refl, refl, omega arith)

attempt-Attempted :
    (b : Bool) (answer : Written) (message : List ℕ) (c : TcpConnection)
    → answer ≢ broken_pipe
    → Attempted message c (if b then direct_write answer message c else (message, false, c))
attempt-Attempted true answer message c h = direct_write-Attempted answer message c h
attempt-Attempted false answer message c h = (refl, refl, refl, omega arith)

retrived :
    (n : ℕ) (b : Buffer)
    → IsValid b
    → Ensures (λ b'. (contents b' ≡ drop n (contents b)) × (n ≤ length (contents b))) (retrive n b)
retrived n b v = elim (retrive-drop n b v) [
  | inl (stops, _) ↦ rw stops tt
  | inr (enough, r) ↦
      Ensures-mono (λ b'. IsValid b' × (contents b' ≡ drop n (contents b)))
        (λ b'. (contents b' ≡ drop n (contents b)) × (n ≤ length (contents b))) (retrive n b)
        (λ b' (_, e). (e, enough))
        (Ensures-of_Returns (λ b'. IsValid b' × (contents b' ≡ drop n (contents b))) (retrive n b)
          r)
]

-- The end of a flush: the callback that is queued and the shutdown send no bytes.
closing_silent :
    (c : TcpConnection)
    → let c2 = emit_if c.has_write_complete queues_write_complete c in
      stream (if is_disconnecting c2.state then shutdown_in_loop c2 else c2) ≡ stream c
unfolding shutdown_in_loop sent
closing_silent c = ground arith

module _ (epoll_ctl : Ctl → Bool) where
  -- Asking for write events, if they are not, changes no bytes.
  writing_on :
      {xs : List ℕ} (c : TcpConnection)
      → stream c ≡ xs
      → Ensures
          (λ c'. stream c' ≡ xs)
          (if is_writing c.channel then ok c else on_channel (enable_writing epoll_ctl) c)
  writing_on {xs} c e = elim (Bool-cases (is_writing c.channel)) [
    | inl t ↦ rw t e
    | inr f ↦ rw f (
        Ensures-mono (λ c'. (c'.effects ≡ c.effects) × (c'.output ≡ c.output))
          (λ c'. stream c' ≡ xs) (on_channel (enable_writing epoll_ctl) c)
          (λ c' (p, q). ap₂ (λ es b. sent es ++ contents b) p q ∙ e)
          (on_channel-stream (enable_writing epoll_ctl) c))
  ]

  keep_remaining-stream :
      (xs : List ℕ) (c : TcpConnection)
      → IsValid c.output
      → readable_bytes c.output ≡ 0
      → length xs < 2 ^ 63
      → Ensures (λ c'. stream c' ≡ sent c.effects ++ xs) (keep_remaining epoll_ctl xs c)
  unfolding keep_remaining
  keep_remaining-stream xs c v empty small =
      let old = readable_bytes c.output in
      let above = leb c.high_water_mark (add_size old (length xs)) && ltb old c.high_water_mark in
      let c1 =
        emit_if (above && c.has_high_water_mark) (queues_high_water_mark (add_size old (length xs)))
          c in
      let (silent, same) =
        mark_silent (above && c.has_high_water_mark) (add_size old (length xs)) c in
      rw same (
        Ensures-bind (λ b'. IsValid b' × (contents b' ≡ xs))
          (λ c'. stream c' ≡ sent c.effects ++ xs) (append xs c.output) _
          (append-drained_partial xs c.output v empty small)
          (λ output (_, e). writing_on (record c1 { output = output }) (ap₂ ◌++◌ silent e)))

  sending :
      (rest : List ℕ) (c : TcpConnection)
      → IsValid c.output
      → readable_bytes c.output ≡ 0
      → length rest < 2 ^ 63
      → Ensures
          (λ c'. stream c' ≡ sent c.effects ++ rest)
          (if not false && ltb 0 (length rest) then keep_remaining epoll_ctl rest c else ok c)
  sending [] c v empty small = ap (◌++◌ (sent c.effects)) (nothing_waits v empty)
  sending (x ∷ xs) c v empty small =
      rw (lt→ltb 0 (length (x ∷ xs)) (omega arith)) (keep_remaining-stream (x ∷ xs) c v empty small)

  -- On a connection that is not disconnected, with a valid and empty output buffer and a message
  -- below 2 ^ 63 bytes, whatever the socket answers but for a broken pipe: if `sendInLoop` returns,
  -- what the peer has, followed by what waits, is what it was followed by the message.
  pub send_in_loop-stream :
      (answer : Written) (message : List ℕ) (c : TcpConnection)
      → IsValid c.output
      → readable_bytes c.output ≡ 0
      → is_disconnected c.state ≡ false
      → answer ≢ broken_pipe
      → length message < 2 ^ 63
      → Ensures (λ c'. stream c' ≡ stream c ++ message) (send_in_loop epoll_ctl answer message c)
  unfolding send_in_loop
  send_in_loop-stream answer message c v empty up whole small =
      let test = not (is_writing c.channel) && readable_bytes c.output == 0 in
      let r : List ℕ × Bool × TcpConnection =
        if test then direct_write answer message c else (message, false, c) in
      let (calm, same, all, less) = attempt-Attempted test answer message c whole in
      let settled : sent r.2.effects ++ r.0 ≡ stream c ++ message =
        all
        ∙ ap (λ l. l ++ message)
            (sym (append-nil (sent c.effects))
              ∙ ap (◌++◌ (sent c.effects)) (sym (nothing_waits v empty))) in
      rw (up, calm)
        (Ensures-mono (λ c'. stream c' ≡ sent r.2.effects ++ r.0)
          (λ c'. stream c' ≡ stream c ++ message) _ (λ c' e. e ∙ settled)
          (sending r.0 r.2 (rw same v) (rw same empty) (omega arith)))

  flushed-stream :
      (n : ℕ) (c : TcpConnection)
      → IsValid c.output
      → Ensures (λ c'. stream c' ≡ stream c) (flushed epoll_ctl n c)
  unfolding flushed peek
  flushed-stream n c v =
      Ensures-bind (λ b. contents b ≡ drop n (contents c.output) × (n ≤ length (contents c.output)))
        (λ c'. stream c' ≡ stream c) (retrive n c.output) _ (retrived n c.output v)
        λ output (e, enough). finish output (
          ap₂ ◌++◌
            (sent-wrote (take n (drop c.output.read_index c.output.bytes)) c.effects
              ∙ ap (◌++◌ (sent c.effects)) (take-contents n v enough))
            e
          ∙ append_assoc (sent c.effects) (take n (contents c.output)) (drop n (contents c.output))
          ∙ ap (◌++◌ (sent c.effects)) (take-append-drop n (contents c.output)))
    where
      flushed_to : Buffer → TcpConnection
      flushed_to output =
          emit (wrote (take n (drop c.output.read_index c.output.bytes)))
            (record c { output = output })

      finish :
          (output : Buffer)
          → stream (flushed_to output) ≡ stream c
          → Ensures
              (λ c'. stream c' ≡ stream c)
              (if readable_bytes output == 0
                then (do
                  c1 ← on_channel (disable_writing epoll_ctl) (flushed_to output)
                  let c2 = emit_if c1.has_write_complete queues_write_complete c1
                  ok (if is_disconnecting c2.state then shutdown_in_loop c2 else c2))
                else ok (flushed_to output))
      finish output e = elim (Bool-cases (readable_bytes output == 0)) [
        | inl t ↦ rw t (
            Ensures-bind (λ c'. (c'.effects ≡ (flushed_to output).effects) × (c'.output ≡ output))
              (λ c'. stream c' ≡ stream c)
              (on_channel (disable_writing epoll_ctl) (flushed_to output)) _
              (on_channel-stream (disable_writing epoll_ctl) (flushed_to output))
              (λ c1 (p, q). closing_silent c1 ∙ ap₂ (λ es b. sent es ++ contents b) p q ∙ e))
        | inr f ↦ rw f e
      ]

  -- On a connection whose output buffer is valid, whatever the socket answers: if `handleWrite`
  -- returns, the bytes that the peer has, followed by those that wait, are what they were.
  pub handle_write-stream :
      (answer : Written) (c : TcpConnection)
      → IsValid c.output
      → Ensures (λ c'. stream c' ≡ stream c) (handle_write epoll_ctl answer c)
  unfolding handle_write
  handle_write-stream (took zero) c v = refl
  handle_write-stream (took (suc n)) c v = elim (Bool-cases (is_writing c.channel)) [
    | inl t ↦ rw t (flushed-stream (suc n) c v)
    | inr f ↦ rw f refl
  ]
  handle_write-stream would_block c v = refl
  handle_write-stream broken_pipe c v = refl
  handle_write-stream other_error c v = refl
