-- ===== src/MThread/Tests.antt =====
-- A thread (base/m_thread.cpp) without a name of its own.
use my_chat_respons.Common.{ℕ, true, List, [], ◌∷◌, ◌≡◌, ◌≢◌, Returns}
use my_chat_respons.CountDownLatch.{passed}
use my_chat_respons.MThread.{MThread, Reach, new_thread, start}
use my_chat_respons.MThread.Starting.{start-stuck}

abbrev one_digit : ℕ → List ℕ
one_digit n = n ∷ []

start-stuck_example :
    Returns
      (λ t. (u : MThread) → Reach t u → (u.latch.place 0 ≢ passed) × (u.tid ≡ 0))
      (start true (new_thread one_digit 7 []))
start-stuck_example = start-stuck one_digit 7 []
