-- ===== src/Logging/Tests.antt =====
-- The head of a line of the level INFO (base/logging.cpp).
use my_chat_respons.Common.{true, [], ◌∷◌, ◌≡◌, fault}
use my_chat_respons.Common.Int.{pos}
use my_chat_respons.Logging.{HeadTexts, info, new_impl}
use my_chat_respons.Logging.Head.{new_impl-fault}

abbrev noon : HeadTexts
noon = record {
  fresh = true;
  zone_valid = true;
  time = 50 ∷ 48 ∷ 50 ∷ 51 ∷ 48 ∷ 49 ∷ 48 ∷ 50 ∷ 32 ∷ 49 ∷ 50 ∷ 58 ∷ 48 ∷ 48 ∷ 58 ∷ 48 ∷ 48 ∷ [];
  us = 46 ∷ 48 ∷ 48 ∷ 48 ∷ 48 ∷ 48 ∷ 49 ∷ 32 ∷ [];
  tid = 32 ∷ 52 ∷ 50 ∷ 49 ∷ 55 ∷ 32 ∷ [];
  error_text = [];
}

new_impl-fault_example : new_impl noon info (pos 0) ≡ fault
new_impl-fault_example = new_impl-fault noon info (pos 0)
