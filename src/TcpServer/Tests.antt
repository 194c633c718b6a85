-- ===== src/TcpServer/Tests.antt =====
-- A run of a server, and the property applied to it.
use my_chat_respons.Common.{ℕ, false, List, [], ◌∷◌, refl, arith, Returns, Ensures}
use my_chat_respons.ThreadPool.{ThreadPool}
use my_chat_respons.TcpServer.{new_server, start}
use my_chat_respons.TcpServer.Names.{Prints}
use my_chat_respons.TcpServer.Serving.{Event, serve_all, Orderly, StopsRightly, start-serve_all}

-- One digit in base 2 ^ 31.
abbrev one_digit : ℕ → List ℕ
one_digit n = n ∷ []

one_digit-Prints : Prints one_digit
one_digit-Prints = record { distinct = λ m n h. cc; short = λ n lt. omega arith }

abbrev idle_pool : ThreadPool
idle_pool = record { base_loop = 0; started = false; loops = []; next = 0 }

start-serve_all_example :
    Returns
      (λ s.
        (es : List Event)
        → Ensures
            (λ s'. Orderly one_digit s' × StopsRightly one_digit s')
            (serve_all one_digit es s))
      (start (1 ∷ 2 ∷ []) (new_server (1 ∷ []) (2 ∷ []) idle_pool))
start-serve_all_example =
    start-serve_all one_digit one_digit-Prints (1 ∷ []) (2 ∷ []) idle_pool (1 ∷ 2 ∷ [])
      (omega arith) refl
