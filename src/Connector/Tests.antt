-- ===== src/Connector/Tests.antt =====
-- The fourth try of a connector (net/connector.cpp).
use my_chat_respons.Common.{◌≡◌, refl, true, [], ◌∷◌, arith, Returns}
use my_chat_respons.Connector.{
  disconnected, closes, starts_after, Connector, try_again, start_in_loop, init_retry_delay,
}
use my_chat_respons.Connector.Backoff.{tries, tries-starts_after}

abbrev started_connector : Connector
started_connector = record {
  connect = true;
  state = disconnected;
  retry_delay = init_retry_delay;
  requests = [];
}

tries-starts_after_example :
    Returns
      (λ c'.
        Returns
          (λ c''. c''.requests ≡ starts_after 4000 ∷ closes 7 ∷ c'.requests)
          (start_in_loop try_again 7 c'))
      (tries 3 7 started_connector)
tries-starts_after_example = tries-starts_after 3 7 started_connector (refl, refl) (omega arith)
