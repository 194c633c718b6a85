-- ===== src/TcpClient/Tests.antt =====
-- A client (net/tcp_client.cpp) with its first connection, and the properties at that run.
use my_chat_respons.Common.{
  ℕ, true, false, ◌&&◌, some, List, [], ◌∷◌, refl, ◌≡◌, ◌⊎◌, ◌↔◌, fault, ◌==◌,
}
use my_chat_respons.Connector.{in_progress, no_socket}
use my_chat_respons.TcpClient.{
  Conn, established, TcpClient, new_client, enable_retry, new_connection, is_held,
  remove_connection,
}
use my_chat_respons.TcpClient.Lives.{
  Reach, here, next, enables, makes, IsOrderly, Reach-new_client, remove_connection-fault,
}

abbrev one_digit : ℕ → List ℕ
one_digit n = n ∷ []

abbrev first_conn : Conn
first_conn = record { pointer = 100; conn_name = 1 ∷ 58 ∷ 2 ∷ 35 ∷ 1 ∷ []; fd = 7; owner_loop = 3 }

abbrev with_first : TcpClient
with_first = record (enable_retry (new_client 3 (1 ∷ []))) {
  next_conn_id = 2;
  connection = some first_conn;
  tasks = established first_conn ∷ [];
}

with_first_reached : Reach one_digit (new_client 3 (1 ∷ [])) with_first
unfolding new_client enable_retry new_connection
with_first_reached = next (next here (enables _)) (makes 100 7 (2 ∷ []) _ _ refl)

Reach-new_client_example : IsOrderly with_first
Reach-new_client_example = Reach-new_client one_digit 3 (1 ∷ []) with_first with_first_reached

remove_connection-fault_example :
    (remove_connection in_progress 8 first_conn with_first ≡ fault) ↔ (
      (with_first.client_loop == first_conn.owner_loop ≡ false)
      ⊎ (is_held first_conn with_first.connection ≡ false)
      ⊎ ((with_first.retry && with_first.connects ≡ true)
          × ((in_progress ≡ in_progress) ⊎ (in_progress ≡ no_socket))))
remove_connection-fault_example = remove_connection-fault in_progress 8 first_conn with_first
