-- ===== src/TcpClient.antt =====
-- net/tcp_client.h and net/tcp_client.cpp: a client's connection, which the connector makes and makes again.
-- All calls are in the loop's thread. A pointer to a connection, and a socket, is a number; `tasks` has
-- what the client gives to its loop and asks of its connection, newest first; what the connection does then is that of
-- TcpConnection. What the kernel answers to the connector, and the addresses that it tells, are arguments. The user's
-- callbacks are left out, and lines of the log are taken to return. A loop is a number as well.
pub mod Names
pub mod Lives
mod Tests
use my_chat_respons.Common.{
  ℕ, suc, ◌^◌, Bool, true, false, ◌&&◌, Option, none, some, List, [], ◌∷◌, ◌++◌, take, ltb, ◌==◌,
  if◌then◌else◌, Outcome, ok, assert, ◌>>=◌, ◌>>◌,
}
use my_chat_respons.Connector.{Connector, Answer, disconnected, init_retry_delay}
use my_chat_respons.Connector

pub record Conn : Type 0 where
  pub pointer : ℕ
  pub conn_name : List ℕ
  pub fd : ℕ
  pub owner_loop : ℕ

-- `connectEstablished`, `connectDestory`, `shutdown` and `forceClose` of a connection, a new close callback,
-- and what the connector is asked in the loop: to stop, and after a second to be forgotten.
pub data Task : Type 0 where
  established destroyed shuts_down force_closes closes_by_destroying : Conn → Task
  stops_connector forgets_connector : Task

pub record TcpClient : Type 0 where
  pub connector : Connector
  pub name : List ℕ
  pub retry : Bool
  pub connects : Bool
  pub next_conn_id : ℕ
  pub connection : Option Conn
  pub tasks : List Task
  pub client_loop : ℕ

unfoldable pub new_client : ℕ → List ℕ → TcpClient
new_client client_loop name = record {
  connector = Connector.new_connector;
  name = name;
  retry = false;
  connects = true;
  next_conn_id = 1;
  connection = none;
  tasks = [];
  client_loop = client_loop;
}

unfoldable pub connect : Answer → ℕ → TcpClient → Outcome TcpClient
connect answer sockfd c = do
  connector ← Connector.start answer sockfd c.connector
  ok (record c { connects = true; connector = connector })

abbrev pub ask : (Conn → Task) → Option Conn → List Task → List Task
ask request none tasks = tasks
ask request (some conn) tasks = request conn ∷ tasks

unfoldable pub disconnect : TcpClient → TcpClient
disconnect c = record c { connects = false; tasks = ask shuts_down c.connection c.tasks }

unfoldable pub stop : TcpClient → TcpClient
stop c = record c {
  connects = false;
  connector = Connector.stop c.connector;
  tasks = stops_connector ∷ c.tasks;
}

unfoldable pub enable_retry : TcpClient → TcpClient
enable_retry c = record c { retry = true }

-- The name of a connection: snprintf writes at most 31 characters. `text` is what %d writes.
unfoldable pub name_of : (ℕ → List ℕ) → List ℕ → List ℕ → ℕ → List ℕ
name_of text name ip_port id = name ++ take 31 (58 ∷ ip_port ++ (35 ∷ text id))

-- `newConnection`; a fault where `nextConnId_`, an int, would overflow. `pointer` is where the new
-- connection is, `ip_port` the text of the peer's address.
unfoldable pub new_connection : (ℕ → List ℕ) → ℕ → List ℕ → ℕ → TcpClient → Outcome TcpClient
unfolding name_of
new_connection text pointer ip_port sockfd c = do
  assert (ltb (suc c.next_conn_id) (2 ^ 31))
  let conn : Conn = record {
    pointer = pointer;
    conn_name = name_of text c.name ip_port c.next_conn_id;
    fd = sockfd;
    owner_loop = c.client_loop;
  }
  ok (record c {
    next_conn_id = suc c.next_conn_id;
    connection = some conn;
    tasks = established conn ∷ c.tasks;
  })

-- `connection_ == conn` compares the pointers.
abbrev pub is_held : Conn → Option Conn → Bool
is_held conn none = false
is_held conn (some held) = held.pointer == conn.pointer

unfoldable pub remove_connection : Answer → ℕ → Conn → TcpClient → Outcome TcpClient
remove_connection answer sockfd conn c = do
  assert (c.client_loop == conn.owner_loop)
  assert (is_held conn c.connection)
  let c' : TcpClient = record c { connection = none; tasks = destroyed conn ∷ c.tasks }
  if c'.retry && c'.connects
      then (do
        connector ← Connector.restart answer sockfd c'.connector
        ok (record c' { connector = connector }))
      else ok c'

-- The destructor; `unique` says whether nobody else has the connection.
unfoldable pub destroy_client : Bool → TcpClient → TcpClient
destroy_client unique c = elim c.connection [
  | none ↦ record c {
    connector = Connector.stop c.connector;
    tasks = forgets_connector ∷ stops_connector ∷ c.tasks;
  }
  | some conn ↦ record c {
    tasks =
        if unique
        then force_closes conn ∷ closes_by_destroying conn ∷ c.tasks
        else closes_by_destroying conn ∷ c.tasks;
  }
]
