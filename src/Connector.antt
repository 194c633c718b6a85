-- ===== src/Connector.antt =====
-- net/connector.h and net/connector.cpp: how a client's connection is made and tried again. All
-- calls are in the loop's thread; the sockets are numbers, what the kernel answers is an argument,
-- and what is asked of the loop and of the socket is a list, newest first.
pub mod Backoff
mod Tests
use my_chat_respons.Common.{
  ℕ, ◌*◌, min, Bool, true, false, List, [], ◌∷◌, if◌then◌else◌, Outcome, ok, fault, assert, ◌>>=◌,
  ◌>>◌,
}

abbrev pub init_retry_delay : ℕ
init_retry_delay = 500

abbrev pub max_retry_delay : ℕ
max_retry_delay = 30000

pub data States : Type 0 where
  disconnected connecting connected : States

abbrev pub is_disconnected : States → Bool
is_disconnected disconnected = true
is_disconnected _ = false

pub data Request : Type 0 where
  closes : ℕ → Request
  starts_after : ℕ → Request

pub record Connector : Type 0 where
  pub connect : Bool
  pub state : States
  pub retry_delay : ℕ
  pub requests : List Request

unfoldable pub new_connector : Connector
new_connector = record {
  connect = false;
  state = disconnected;
  retry_delay = init_retry_delay;
  requests = [];
}

-- `stop`: what waits in the loop then finds `connect` false.
unfoldable pub stop : Connector → Connector
stop c = record c { connect = false }

-- What `connect` answers, sorted as the switch does; `no_socket` where there was no socket to connect.
pub data Answer : Type 0 where
  in_progress try_again refused no_socket : Answer

unfoldable pub retry : ℕ → Connector → Connector
retry sockfd c =
    let c' : Connector = record c { state = disconnected; requests = closes sockfd ∷ c.requests } in
    if c'.connect
    then record c' {
      requests = starts_after c'.retry_delay ∷ c'.requests;
      retry_delay = min (c'.retry_delay * 2) max_retry_delay;
    }
    else c'

-- `connecting` calls a member of `channel_`, which its assertion has found to be null: it cannot
-- go on.
unfoldable pub connecting_to : ℕ → Connector → Outcome Connector
connecting_to sockfd c = fault

-- Without a socket `createNonblockingOrDie` ends the program.
unfoldable pub connect_socket : Answer → ℕ → Connector → Outcome Connector
unfolding connecting_to retry
connect_socket in_progress sockfd c = connecting_to sockfd c
connect_socket try_again sockfd c = ok (retry sockfd c)
connect_socket refused sockfd c = ok (record c { requests = closes sockfd ∷ c.requests })
connect_socket no_socket sockfd c = fault

unfoldable pub start_in_loop : Answer → ℕ → Connector → Outcome Connector
unfolding connect_socket
start_in_loop answer sockfd c = do
  assert (is_disconnected c.state)
  if c.connect then connect_socket answer sockfd c else ok c

unfoldable pub start : Answer → ℕ → Connector → Outcome Connector
unfolding start_in_loop
start answer sockfd c = start_in_loop answer sockfd (record c { connect = true })

unfoldable pub restart : Answer → ℕ → Connector → Outcome Connector
unfolding start_in_loop
restart answer sockfd c =
    start_in_loop answer sockfd
      (record c { state = disconnected; retry_delay = init_retry_delay; connect = true })
