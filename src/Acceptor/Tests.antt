-- ===== src/Acceptor/Tests.antt =====
-- An acceptor just made (net/acceptor.cpp) at a poller that watches nothing.
use my_chat_respons.Common.{Bool, true, none, some, [], ◌≡◌, refl, fault, Returns}
use my_chat_respons.Poller.{Ctl, Poller}
use my_chat_respons.Acceptor.{new_acceptor, listen, destroy_acceptor}
use my_chat_respons.Acceptor.Descriptors.{Balanced, new_acceptor-stops}

abbrev always : Ctl → Bool
always call = true

abbrev idle : Poller
idle = record { channels = λ k. none; calls = [] }

new_acceptor-stops_example :
    Returns
      (λ a.
        (listen always true a idle ≡ fault) × (destroy_acceptor always a idle ≡ fault) × Balanced a)
      (new_acceptor true 1 (some 3) (some 4) true)
new_acceptor-stops_example = new_acceptor-stops always true true 1 3 4 idle refl
