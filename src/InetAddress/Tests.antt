-- ===== src/InetAddress/Tests.antt =====
-- Addresses (net/inetaddress.cpp) in a simple notation: the value of an IPv4 address as one character, and the bytes of an
-- IPv6 address behind a colon.
use my_chat_respons.Common.{
  ℕ, ◌+◌, ◌-◌, ◌<◌, ◌^◌, ◌≡◌, refl, true, false, ◌==◌, if◌then◌else◌, Option, none, some, List, [],
  ◌∷◌, arith, ok,
}
use my_chat_respons.Buffer.Tests.{big_machine}
use my_chat_respons.InetAddress.{Inet, has_byte, address_of, to_ip_port}
use my_chat_respons.InetAddress.Texts.{v4, notation, with_port, address_of-to_ip_port}

abbrev read_simple : List ℕ → Option ℕ
read_simple [] = none
read_simple (c ∷ cs) = some (c - 100)

abbrev behind_colon : List ℕ → Option (List ℕ)
behind_colon [] = none
behind_colon (c ∷ cs) = if c == 58 then some cs else none

no_colon : (a : ℕ) → a < 2 ^ 32 → has_byte 58 ((a + 100) ∷ []) ≡ false
no_colon a small = ground arith

no_six : (a : ℕ) → a < 2 ^ 32 → behind_colon ((a + 100) ∷ []) ≡ none
no_six a small = ground arith

abbrev simple : Inet
simple = record {
  host = big_machine;
  text = λ n. n ∷ [];
  any = 0;
  loopback = 2130706433;
  any6 = 0 ∷ 0 ∷ 0 ∷ 0 ∷ 0 ∷ 0 ∷ 0 ∷ 0 ∷ 0 ∷ 0 ∷ 0 ∷ 0 ∷ 0 ∷ 0 ∷ 0 ∷ 0 ∷ [];
  loopback6 = 0 ∷ 0 ∷ 0 ∷ 0 ∷ 0 ∷ 0 ∷ 0 ∷ 0 ∷ 0 ∷ 0 ∷ 0 ∷ 0 ∷ 0 ∷ 0 ∷ 0 ∷ 1 ∷ [];
  pton = read_simple;
  ntop = λ a. (a + 100) ∷ [];
  pton6 = behind_colon;
  ntop6 = λ bytes. 58 ∷ bytes;
  short = λ n small. omega arith;
  pton-ntop = λ a small. let same : a + 100 - 100 ≡ a = omega arith in rw same refl;
  ntop-short = λ a small. omega arith;
  ntop-colon = no_colon;
  pton6-ntop = no_six;
  pton6-ntop6 = λ a size all. refl;
  ntop6-short = λ a size all. omega arith;
  ntop6-colon = λ a size all. refl;
}

address_of-to_ip_port_example :
    to_ip_port simple (address_of simple (notation simple (v4 20)) 9000 true)
    ≡ ok (with_port simple (v4 20) true 9000)
address_of-to_ip_port_example =
    address_of-to_ip_port simple (v4 20) true 9000 (omega arith) (omega arith)
