-- ===== src/TcpServer/Serving.antt =====
-- A server over a row of new and closed connections: what it establishes, keeps and destroys.
use my_chat_respons.Common.{
  ℕ, suc, ◌+◌, ◌^◌, ◌≤◌, ◌<◌, true, false, List, [], ◌∷◌, length, Outcome, ok, ◌>>=◌, ◌≡◌, refl, ap,
  ◌∙◌, arith, Returns, Returns-bind, Bool-cases, inl, inr, same_bytes, same_bytes→eq, ltb→lt, ltb,
  fault, Ensures-of_Returns, ◌⊎◌, ◌↔◌, Ensures, Ensures-bind,
}
use my_chat_respons.ThreadPool.{ThreadPool, get_next_loop, is_empty}
use my_chat_respons.TcpServer.{
  Conn, Task, established, destroyed, listens, TcpServer, new_server, start, name_of, put,
  new_connection, remove_connection_in_loop,
}
use my_chat_respons.ThreadPool
use my_chat_respons.TcpServer.Names.{Prints, name_of-distinct}
use my_chat_respons.TcpServer.Table.{
  times, open_names, Numbered, differ, Numbered-put, times-put, erase-cases,
}

-- The names of the connections that were established, and of those that were destroyed.
abbrev pub established_names : List Task → List (List ℕ)
established_names [] = []
established_names (established c ∷ ts) = c.conn_name ∷ established_names ts
established_names (destroyed c ∷ ts) = established_names ts
established_names (listens ∷ ts) = established_names ts

abbrev pub destroyed_names : List Task → List (List ℕ)
destroyed_names [] = []
destroyed_names (established c ∷ ts) = destroyed_names ts
destroyed_names (destroyed c ∷ ts) = c.conn_name ∷ destroyed_names ts
destroyed_names (listens ∷ ts) = destroyed_names ts

-- A new connection on a descriptor, or a connection whose close callback runs, any one and any number of times.
pub data Event : Type 0 where
  accepted : ℕ → Event
  closed : Conn → Event

abbrev pub serve : (ℕ → List ℕ) → Event → TcpServer → Outcome TcpServer
serve text (accepted fd) s = new_connection text fd s
serve text (closed c) s = remove_connection_in_loop c s

bind_stops :
    {A B : Type 0} (m : Outcome A) (f : A → Outcome B) → ((a : A) → f a ≡ fault) → (m >>= f) ≡ fault
bind_stops (ok a) f h = h a
bind_stops fault f h = refl

not_stopped : {A : Type 0} (P : A → Type 0) (m : Outcome A) → Returns P m → ¬ (m ≡ fault)
not_stopped P m h e = rw e at h

unfoldable pub serve_all : (ℕ → List ℕ) → List Event → TcpServer → Outcome TcpServer
serve_all text [] s = ok s
serve_all text (e ∷ es) s = do s' ← serve text e s; serve_all text es s'

module _ (text : ℕ → List ℕ) where
  -- No name is given to two connections; a connection that was established is in the table, or was
  -- destroyed once, and no other was.
  pub record Orderly (s : TcpServer) : Type 0 where
    pub running : s.pool.started ≡ true
    pub room : length s.ip_port ≤ 51
    pub bound : s.next_conn_id < 2 ^ 31
    pub numbered : Numbered (name_of text s.name s.ip_port) 0 s.next_conn_id s.connections
    pub unused :
        (i : ℕ)
        → s.next_conn_id ≤ i
        → i < 2 ^ 31
        → times (name_of text s.name s.ip_port i) (established_names s.tasks) ≡ 0
    pub once : (q : List ℕ) → times q (established_names s.tasks) ≤ 1
    pub balanced :
        (q : List ℕ)
        → times q (established_names s.tasks)
          ≡ times q (destroyed_names s.tasks) + times q (open_names s.connections)

  -- `removeConnectionInLoop` stops exactly for a connection whose name no connection of the table has, and
  -- `newConnection` only where the int of the numbers would overflow.
  abbrev pub StopsRightly : TcpServer → Type 0
  StopsRightly s =
      ((c : Conn)
        → (remove_connection_in_loop c s ≡ fault)
          ↔ (times c.conn_name (open_names s.connections) ≡ 0))
      × ((fd : ℕ)
          → (new_connection text fd s ≡ fault) ↔ (ltb (suc s.next_conn_id) (2 ^ 31) ≡ false))

  next-started :
      (p : ThreadPool) → p.started ≡ true → Returns (λ r. r.1.started ≡ true) (get_next_loop p)
  unfolding get_next_loop
  next-started p on = elim (Bool-cases (is_empty p.loops)) [
    | inl t ↦ simp (on, t) refl
    | inr f ↦ simp (on, f) refl
  ]

  module _ (prints : Prints text) where
    distinct_names :
        (s : TcpServer)
        → Orderly s
        → (i j : ℕ) → i < 2 ^ 31
        → j < 2 ^ 31
        → name_of text s.name s.ip_port i ≡ name_of text s.name s.ip_port j
        → i ≡ j
    distinct_names s v i j li lj e =
        name_of-distinct text prints s.name s.ip_port i j li lj v.room e

    -- What the end of a connection comes to, whichever it is.
    remove_cases :
        (c : Conn) (s : TcpServer)
        → Orderly s
        → ((times c.conn_name (open_names s.connections) ≡ 0)
            × (remove_connection_in_loop c s ≡ fault))
          ⊎ ((1 ≤ times c.conn_name (open_names s.connections))
              × Returns Orderly (remove_connection_in_loop c s))
    unfolding remove_connection_in_loop
    remove_cases c s v =
        let nm = name_of text s.name s.ip_port in
        elim (erase-cases nm 0 s.next_conn_id c.conn_name s.connections v.numbered) [
          | inl (missing, kept) ↦ inl (missing, rw kept refl)
          | inr (there, (rest, gone, numbered, balance)) ↦ inr (
            there,
            rw gone (record {
              running = v.running;
              room = v.room;
              bound = v.bound;
              numbered = numbered;
              unused = v.unused;
              once = v.once;
              balanced = λ q. let b = balance q in let b' = v.balanced q in omega (arith, b, b');
            }),
          )
        ]

    -- The name of a new connection, put before names that are all older.
    once_more :
        (q : List ℕ) (s : TcpServer)
        → Orderly s
        → times q (name_of text s.name s.ip_port s.next_conn_id ∷ established_names s.tasks) ≤ 1
    once_more q s v =
        let name = name_of text s.name s.ip_port s.next_conn_id in
        elim (Bool-cases (same_bytes q name)) [
          | inl t ↦
              let same : q ≡ name = same_bytes→eq q name t in
              let none_yet : times q (established_names s.tasks) ≡ 0 =
                ap (λ (k : List ℕ). times k (established_names s.tasks)) same
                ∙ v.unused s.next_conn_id (omega arith) v.bound in
              rw t (omega (arith, none_yet))
          | inr f ↦ let before = v.once q in rw f (omega (arith, before))
        ]

    opened :
        (r : ℕ × ThreadPool)
        → r.1.started ≡ true
        → (fd : ℕ) (s : TcpServer) → Orderly s
        → suc s.next_conn_id < 2 ^ 31
        → let conname = name_of text s.name s.ip_port s.next_conn_id in
          let conn : Conn = record { conn_name = conname; io_loop = r.0; fd = fd } in
          Orderly (record s {
            pool = r.1;
            next_conn_id = suc s.next_conn_id;
            connections = put conname conn s.connections;
            tasks = established conn ∷ s.tasks;
          })
    opened r on fd s v more =
        let nm = name_of text s.name s.ip_port in
        let conn : Conn = record { conn_name = nm s.next_conn_id; io_loop = r.0; fd = fd } in
        record {
          running = on;
          room = v.room;
          bound = more;
          numbered =
              Numbered-put nm (distinct_names s v) 0 s.next_conn_id conn s.connections refl
                (omega arith) v.bound v.numbered;
          unused = λ i le lt.
              let other = differ nm (distinct_names s v) s.next_conn_id i le lt in
              let before = v.unused i (omega arith) lt in rw other (omega (arith, before));
          once = λ q. once_more q s v;
          balanced = λ q.
              let added =
                times-put nm (distinct_names s v) q 0 s.next_conn_id conn s.connections v.bound
                  v.numbered in
              let before = v.balanced q in omega (arith, added, before);
        }

    -- What a new connection comes to.
    new_cases :
        (fd : ℕ) (s : TcpServer)
        → Orderly s
        → ((ltb (suc s.next_conn_id) (2 ^ 31) ≡ false) × (new_connection text fd s ≡ fault))
          ⊎ ((ltb (suc s.next_conn_id) (2 ^ 31) ≡ true)
              × Returns Orderly (new_connection text fd s))
    unfolding new_connection
    new_cases fd s v = elim (Bool-cases (ltb (suc s.next_conn_id) (2 ^ 31))) [
      | inl t ↦ inr (
        t,
        Returns-bind (λ r. r.1.started ≡ true) Orderly (get_next_loop s.pool) _
            (next-started s.pool v.running)
            (λ r on. rw t (opened r on fd s v (omega (arith, ltb→lt _ _ t)))),
      )
      | inr f ↦ inl (f, bind_stops (get_next_loop s.pool) _ (λ r. rw f refl))
    ]

    serve-Orderly : (e : Event) (s : TcpServer) → Orderly s → Ensures Orderly (serve text e s)
    serve-Orderly (accepted fd) s v = elim (new_cases fd s v) [
      | inl (_, stop) ↦ rw stop tt
      | inr (_, h) ↦ Ensures-of_Returns Orderly (new_connection text fd s) h
    ]
    serve-Orderly (closed c) s v = elim (remove_cases c s v) [
      | inl (_, stop) ↦ rw stop tt
      | inr (_, h) ↦ Ensures-of_Returns Orderly (remove_connection_in_loop c s) h
    ]

    Orderly-StopsRightly : (s : TcpServer) → Orderly s → StopsRightly s
    Orderly-StopsRightly s v = (
      (λ c. elim (remove_cases c s v) [
        | inl (missing, stop) ↦ ((λ e. missing), (λ e. stop))
        | inr (there, h) ↦ (
          (λ e. absurd (not_stopped Orderly (remove_connection_in_loop c s) h e)),
          (λ e. absurd (omega (arith, there, e))),
        )
      ]),
      (λ fd. elim (new_cases fd s v) [
        | inl (full, stop) ↦ ((λ e. full), (λ e. stop))
        | inr (more, h) ↦
            ((λ e. absurd (not_stopped Orderly (new_connection text fd s) h e)), (λ e. cc))
      ]),
    )

    serve_all-Orderly :
        (es : List Event) (s : TcpServer)
        → Orderly s
        → Ensures (λ s'. Orderly s' × StopsRightly s') (serve_all text es s)
    unfolding serve_all
    serve_all-Orderly [] s v = (v, Orderly-StopsRightly s v)
    serve_all-Orderly (e ∷ es) s v =
        Ensures-bind Orderly (λ s'. Orderly s' × StopsRightly s') (serve text e s)
          (λ s'. serve_all text es s') (serve-Orderly e s v) (λ s' v'. serve_all-Orderly es s' v')

    -- Where the numbers that %d writes differ and are short, the address is of at most 51 characters and the
    -- pool is not started, `start` of a new server returns, its task for the acceptor apart. After every row of new and
    -- closed connections that went through, no name was given twice; each connection that was established is in the
    -- table or was destroyed, once, and no other was; and the next call stops in two cases only: a connection is
    -- closed whose name is not in the table, as one that is closed a second time, or the int of the numbers would
    -- overflow.
    pub start-serve_all :
        (ip_port name : List ℕ) (pool : ThreadPool) (new_loops : List ℕ)
        → length ip_port ≤ 51
        → pool.started ≡ false
        → Returns
            (λ s.
              (es : List Event)
              → Ensures (λ s'. Orderly s' × StopsRightly s') (serve_all text es s))
            (start new_loops (new_server ip_port name pool))
    unfolding start new_server ThreadPool.start
    start-serve_all ip_port name pool new_loops room off = rw off (λ es.
        serve_all-Orderly es _ (record {
          running = refl;
          room = room;
          bound = omega arith;
          numbered = tt;
          unused = λ i le lt. refl;
          once = λ q. omega arith;
          balanced = λ q. refl;
        }))
