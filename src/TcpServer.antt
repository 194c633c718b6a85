-- ===== src/TcpServer.antt =====
-- net/tcp_server.h and net/tcp_server.cpp: the connections of a server. All calls are in the thread
-- of the server's loop. A descriptor, and a pointer to a loop, is a number; `tasks` has what the server
-- has given to the loops of its pool, the newest first. The callbacks that are passed on to a connection are left out.
pub mod Names
pub mod Table
pub mod Serving
mod Tests
use my_chat_respons.Common.{
  not, same_bytes, ℕ, suc, ◌^◌, Bool, true, false, List, [], ◌∷◌, ◌++◌, ltb, ◌==◌, if◌then◌else◌,
  take, Outcome, ok, assert, ◌>>=◌, ◌>>◌,
}
use my_chat_respons.ThreadPool.{ThreadPool, get_next_loop}
use my_chat_respons.ThreadPool

-- What a connection is to the server.
pub record Conn : Type 0 where
  pub conn_name : List ℕ
  pub io_loop : ℕ
  pub fd : ℕ

-- `connectEstablished` and `connectDestory` of a connection, in its loop, and `listen` of the acceptor.
pub data Task : Type 0 where
  established : Conn → Task
  destroyed : Conn → Task
  listens : Task

pub record TcpServer : Type 0 where
  pub ip_port : List ℕ
  pub name : List ℕ
  pub pool : ThreadPool
  pub started : Bool
  pub next_conn_id : ℕ
  pub connections : List (List ℕ × Conn)
  pub tasks : List Task

unfoldable pub new_server : List ℕ → List ℕ → ThreadPool → TcpServer
new_server ip_port name pool = record {
  ip_port = ip_port;
  name = name;
  pool = pool;
  started = false;
  next_conn_id = 1;
  connections = [];
  tasks = [];
}

abbrev pub is_listening : List Task → Bool
is_listening [] = false
is_listening (established c ∷ ts) = is_listening ts
is_listening (destroyed c ∷ ts) = is_listening ts
is_listening (listens ∷ ts) = true

-- `start`; the loops that the threads of the pool give are an argument.
unfoldable pub start : List ℕ → TcpServer → Outcome TcpServer
start new_loops s = if s.started then ok s else (do
  pool ← ThreadPool.start new_loops s.pool
  assert (not (is_listening s.tasks))
  ok (record s { started = true; pool = pool; tasks = listens ∷ s.tasks }))

-- The name of a connection: snprintf writes at most 63 characters. `text` is what %d writes.
unfoldable pub name_of : (ℕ → List ℕ) → List ℕ → List ℕ → ℕ → List ℕ
name_of text name ip_port id = name ++ take 63 (45 ∷ ip_port ++ (35 ∷ text id))

-- `connections_[conname] = conn`, and `erase` with the number of entries that it takes out.
unfoldable pub put : List ℕ → Conn → List (List ℕ × Conn) → List (List ℕ × Conn)
put k c [] = (k, c) ∷ []
put k c ((j, d) ∷ es) =
    let rest = put k c es in if same_bytes k j then (j, c) ∷ es else (j, d) ∷ rest

unfoldable pub erase : List ℕ → List (List ℕ × Conn) → ℕ × List (List ℕ × Conn)
erase k [] = (0, [])
erase k ((j, d) ∷ es) =
    let (n, rest) = erase k es in if same_bytes k j then (1, es) else (n, (j, d) ∷ rest)

-- `newConnection`; a fault where `nextConnId_`, an int, would overflow.
unfoldable pub new_connection : (ℕ → List ℕ) → ℕ → TcpServer → Outcome TcpServer
unfolding name_of put
new_connection text sockfd s = do
  r ← get_next_loop s.pool
  assert (ltb (suc s.next_conn_id) (2 ^ 31))
  let conname = name_of text s.name s.ip_port s.next_conn_id
  let conn : Conn = record { conn_name = conname; io_loop = r.0; fd = sockfd }
  ok (record s {
    pool = r.1;
    next_conn_id = suc s.next_conn_id;
    connections = put conname conn s.connections;
    tasks = established conn ∷ s.tasks;
  })

unfoldable pub remove_connection_in_loop : Conn → TcpServer → Outcome TcpServer
unfolding erase
remove_connection_in_loop conn s = do
  let (n, rest) = erase conn.conn_name s.connections
  assert (n == 1)
  ok (record s { connections = rest; tasks = destroyed conn ∷ s.tasks })

-- The destructor: every connection that is left is destroyed in its loop.
unfoldable pub destroy_all : List (List ℕ × Conn) → List Task → List Task
destroy_all [] tasks = tasks
destroy_all ((k, c) ∷ es) tasks = destroy_all es (destroyed c ∷ tasks)

unfoldable pub destroy_server : TcpServer → TcpServer
unfolding destroy_all
destroy_server s = record s { tasks = destroy_all s.connections s.tasks }
