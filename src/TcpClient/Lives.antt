-- ===== src/TcpClient/Lives.antt =====
-- The connections of a client over a row of calls (net/tcp_client.cpp).
use my_chat_respons.Common.{
  ℕ, suc, ◌⊎◌, ◌↔◌, true, false, ◌&&◌, Option, none, some, List, [], ◌∷◌, ◌≡◌, refl, sym, ap, ◌∙◌,
  inl, inr, ltb, Bool-cases, Outcome, Ensures-at, bind-ok-fault, ◌^◌, ok, fault, Ensures, ◌>>=◌,
  ◌==◌,
}
use my_chat_respons.Connector.{
  Connector, Answer, in_progress, try_again, refused, no_socket, disconnected, init_retry_delay,
}
use my_chat_respons.Connector
use my_chat_respons.TcpClient.{
  Conn, Task, established, destroyed, shuts_down, force_closes, closes_by_destroying,
  stops_connector, forgets_connector, TcpClient, new_client, connect, disconnect, stop,
  enable_retry, new_connection, is_held, remove_connection, ask,
}

-- Read from the newest task: `held` is the connection that was established last, unless it was destroyed since; and
-- only the one that was held, by its pointer, was destroyed. One that was established while another was held
-- took its place.
abbrev pub Follows : List Task → Option Conn → Type 0
Follows [] held = held ≡ none
Follows (established conn ∷ ts) held =
    (held ≡ some conn) × ((earlier : Option Conn) × Follows ts earlier)
Follows (destroyed conn ∷ ts) held =
    (held ≡ none) × ((old : Conn) × Follows ts (some old) × (old.pointer == conn.pointer ≡ true))
Follows (shuts_down conn ∷ ts) held = Follows ts held
Follows (force_closes conn ∷ ts) held = Follows ts held
Follows (closes_by_destroying conn ∷ ts) held = Follows ts held
Follows (stops_connector ∷ ts) held = Follows ts held
Follows (forgets_connector ∷ ts) held = Follows ts held

-- How many connections were established.
abbrev pub established_count : List Task → ℕ
established_count [] = 0
established_count (established conn ∷ ts) = suc (established_count ts)
established_count (destroyed conn ∷ ts) = established_count ts
established_count (shuts_down conn ∷ ts) = established_count ts
established_count (force_closes conn ∷ ts) = established_count ts
established_count (closes_by_destroying conn ∷ ts) = established_count ts
established_count (stops_connector ∷ ts) = established_count ts
established_count (forgets_connector ∷ ts) = established_count ts

-- The calls of a client that return, in any state: from the user, from the connector, which gives a socket, and from any
-- connection that closes.
pub data Step (text : ℕ → List ℕ) : TcpClient → TcpClient → Type 0 where
  connects :
      (answer : Answer) (sockfd : ℕ) (c d : TcpClient)
      → connect answer sockfd c ≡ ok d
      → Step text c d
  disconnects : (c : TcpClient) → Step text c (disconnect c)
  stops : (c : TcpClient) → Step text c (stop c)
  enables : (c : TcpClient) → Step text c (enable_retry c)
  makes :
      (pointer sockfd : ℕ) (ip_port : List ℕ) (c d : TcpClient)
      → new_connection text pointer ip_port sockfd c ≡ ok d
      → Step text c d
  loses :
      (answer : Answer) (sockfd : ℕ) (conn : Conn) (c d : TcpClient)
      → remove_connection answer sockfd conn c ≡ ok d
      → Step text c d

pub data Reach (text : ℕ → List ℕ) (c : TcpClient) : TcpClient → Type 0 where
  here : Reach text c c
  next : {d e : TcpClient} → Reach text c d → Step text d e → Reach text c e

pub record IsOrderly (c : TcpClient) : Type 0 where
  pub lives : Follows c.tasks c.connection
  pub ids : c.next_conn_id ≡ suc (established_count c.tasks)

held_one :
    (conn : Conn) (held : Option Conn)
    → is_held conn held ≡ true
    → (old : Conn) × (held ≡ some old) × (old.pointer == conn.pointer ≡ true)
held_one conn none e = cc
held_one conn (some old) e = (old, refl, e)

ask-Follows :
    (held : Option Conn) (ts : List Task) → Follows ts held → Follows (ask shuts_down held ts) held
ask-Follows none ts h = h
ask-Follows (some conn) ts h = h

ask-count :
    (held : Option Conn) (ts : List Task)
    → established_count (ask shuts_down held ts) ≡ established_count ts
ask-count none ts = refl
ask-count (some conn) ts = refl

reconnected :
    (c : TcpClient) (m : Outcome Connector)
    → IsOrderly c
    → Ensures IsOrderly (m >>= λ k. ok (record c { connector = k }))
reconnected c fault v = tt
reconnected c (ok k) v = record { lives = v.lives; ids = v.ids }

connected :
    (answer : Answer) (sockfd : ℕ) (c : TcpClient)
    → IsOrderly c
    → Ensures IsOrderly (connect answer sockfd c)
unfolding connect
connected answer sockfd c v =
    reconnected (record c { connects = true }) (Connector.start answer sockfd c.connector)
      (record { lives = v.lives; ids = v.ids })

made :
    (text : ℕ → List ℕ) (pointer : ℕ) (ip_port : List ℕ) (sockfd : ℕ) (c : TcpClient)
    → IsOrderly c
    → Ensures IsOrderly (new_connection text pointer ip_port sockfd c)
unfolding new_connection
made text pointer ip_port sockfd c v = elim (Bool-cases (ltb (suc c.next_conn_id) (2 ^ 31))) [
  | inl t ↦ rw t (record { lives = (refl, (c.connection, v.lives)); ids = ap suc v.ids })
  | inr f ↦ rw f tt
]

-- With the connection taken from the client and given to the loop.
taken :
    (conn : Conn) (c : TcpClient)
    → is_held conn c.connection ≡ true
    → IsOrderly c
    → IsOrderly (record c { connection = none; tasks = destroyed conn ∷ c.tasks })
taken conn c t v =
    let (old, held, same) = held_one conn c.connection t in
    let lives : Follows c.tasks (some old) = rw held at v.lives in
    record { lives = (refl, (old, lives, same)); ids = v.ids }

lost :
    (answer : Answer) (sockfd : ℕ) (conn : Conn) (c : TcpClient)
    → IsOrderly c
    → Ensures IsOrderly (remove_connection answer sockfd conn c)
unfolding remove_connection
lost answer sockfd conn c v = elim (Bool-cases (c.client_loop == conn.owner_loop)) [
  | inr other ↦ simp other tt
  | inl own ↦ elim (Bool-cases (is_held conn c.connection)) [
    | inr free ↦ simp (own, free) tt
    | inl held ↦ elim (Bool-cases (c.retry && c.connects)) [
      | inr f ↦ simp (own, held, f) (taken conn c held v)
      | inl t ↦
          simp (own, held, t)
            (reconnected (record c { connection = none; tasks = destroyed conn ∷ c.tasks })
              (Connector.restart answer sockfd c.connector) (taken conn c held v))
    ]
  ]
]

Step-IsOrderly : (text : ℕ → List ℕ) {c d : TcpClient} → Step text c d → IsOrderly c → IsOrderly d
unfolding disconnect stop enable_retry
Step-IsOrderly text (connects answer sockfd c d e) v =
    Ensures-at IsOrderly (connected answer sockfd c v) e
Step-IsOrderly text (disconnects c) v = record {
  lives = ask-Follows c.connection c.tasks v.lives;
  ids = v.ids ∙ ap suc (sym (ask-count c.connection c.tasks));
}
Step-IsOrderly text (stops c) v = record { lives = v.lives; ids = v.ids }
Step-IsOrderly text (enables c) v = record { lives = v.lives; ids = v.ids }
Step-IsOrderly text (makes pointer sockfd ip_port c d e) v =
    Ensures-at IsOrderly (made text pointer ip_port sockfd c v) e
Step-IsOrderly text (loses answer sockfd conn c d e) v =
    Ensures-at IsOrderly (lost answer sockfd conn c v) e

-- Whatever calls a new client gets that return, in any order: the client holds the connection that was established last,
-- until that is taken from it to be destroyed; only a connection that it holds, by its pointer, is destroyed, so one over
-- which another was established is not, except by that pointer; and the next number is one more than the connections
-- that there were.
pub Reach-new_client :
    (text : ℕ → List ℕ) (client_loop : ℕ) (name : List ℕ) (c : TcpClient)
    → Reach text (new_client client_loop name) c
    → IsOrderly c
unfolding new_client
Reach-new_client text client_loop name c here = record { lives = refl; ids = refl }
Reach-new_client text client_loop name c (next {d} r st) =
    Step-IsOrderly text st (Reach-new_client text client_loop name d r)

-- The connector's second start stops only without a socket, or when the kernel begins to connect.
restart-fault :
    (answer : Answer) (sockfd : ℕ) (k : Connector)
    → (Connector.restart answer sockfd k ≡ fault) ↔ ((answer ≡ in_progress) ⊎ (answer ≡ no_socket))
unfolding Connector.restart Connector.start_in_loop Connector.connect_socket Connector.connecting_to
restart-fault in_progress sockfd k = ((λ e. inl refl), (λ e. refl))
restart-fault no_socket sockfd k = ((λ e. inr refl), (λ e. refl))
restart-fault try_again sockfd k = ((λ e. cc), (λ e. elim e [ inl x ↦ cc | inr x ↦ cc ]))
restart-fault refused sockfd k = ((λ e. cc), (λ e. elim e [ inl x ↦ cc | inr x ↦ cc ]))

-- When `removeConnection` stops, its line of the log apart: the connection is of another loop; the client has another
-- connection or none; or it connects again and there is no socket for that, or the kernel has begun to connect,
-- since `Connector::connecting` cannot go on. In all other cases it returns.
pub remove_connection-fault :
    (answer : Answer) (sockfd : ℕ) (conn : Conn) (c : TcpClient)
    → (remove_connection answer sockfd conn c ≡ fault) ↔ (
        (c.client_loop == conn.owner_loop ≡ false)
        ⊎ (is_held conn c.connection ≡ false)
        ⊎ ((c.retry && c.connects ≡ true) × ((answer ≡ in_progress) ⊎ (answer ≡ no_socket))))
unfolding remove_connection
remove_connection-fault answer sockfd conn c =
    elim (Bool-cases (c.client_loop == conn.owner_loop)) [
      | inr other ↦ simp other ((λ e. inl refl), (λ e. refl))
      | inl own ↦ elim (Bool-cases (is_held conn c.connection)) [
        | inr free ↦ simp (own, free) ((λ e. inr (inl refl)), (λ e. refl))
        | inl held ↦ elim (Bool-cases (c.retry && c.connects)) [
          | inl t ↦
              let answers = restart-fault answer sockfd c.connector in
              let stops =
                bind-ok-fault (Connector.restart answer sockfd c.connector) (λ (k : Connector).
                  record c {
                    connection = none;
                    tasks = destroyed conn ∷ c.tasks;
                    connector = k;
                  }) in
              simp (own, held, t)
                (
                  (λ e. inr (inr (refl, answers.0 (stops.0 e)))),
                  (λ e. elim e [
                    | inl other ↦ cc
                    | inr e' ↦ elim e' [
                      | inl other ↦ cc
                      | inr (_, begun) ↦ stops.1 (answers.1 begun)
                    ]
                  ]),
                )
          | inr f ↦
              simp (own, held, f)
                (
                  (λ e. cc),
                  (λ e. elim e [
                    | inl other ↦ cc
                    | inr e' ↦ elim e' [ inl other ↦ cc | inr (other, _) ↦ cc ]
                  ]),
                )
        ]
      ]
    ]
