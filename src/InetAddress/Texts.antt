-- ===== src/InetAddress/Texts.antt =====
-- The texts of addresses (net/inetaddress.cpp, net/socketops.cpp).
use my_chat_respons.Common.{
  ℕ, ◌-◌, ◌^◌, ◌<◌, ◌≤◌, ◌≡◌, refl, ap, ◌∙◌, Bool, true, false, List, [], ◌∷◌, ◌++◌, ltb, length,
  take_all, length-append, arith, ok, if◌then◌else◌,
}
use my_chat_respons.Buffer.Integers.{host_to_network16, network_to_host16}
use my_chat_respons.Buffer.Integers.Laws.{network_to_host16-host_to_network16}
use my_chat_respons.InetAddress.{
  AllBytes, Inet, InetAddress, zeroed, inet, inet6, address_of, from_ip_port, from_ip_port6,
  print_port, to_ip_port,
}

-- What an address is, in either family.
pub data Address : Type 0 where
  v4 : ℕ → Address
  v6 : List ℕ → Address

abbrev pub IsAddress : Address → Type 0
IsAddress (v4 a) = a < 2 ^ 32
IsAddress (v6 bytes) = (length bytes ≡ 16) × AllBytes bytes

module _ (net : Inet) where
  -- The text of an address, and that with a port.
  abbrev pub notation : Address → List ℕ
  notation (v4 a) = net.ntop a
  notation (v6 bytes) = net.ntop6 bytes

  abbrev pub v6_with_port : List ℕ → ℕ → List ℕ
  v6_with_port bytes port = (91 ∷ net.ntop6 bytes) ++ (93 ∷ 58 ∷ net.text port)

  -- What is shown of an address for which IPv6 is asked or not.
  abbrev pub with_port : Address → Bool → ℕ → List ℕ
  with_port (v4 a) asked port =
      if asked then v6_with_port zeroed.address6 port else net.ntop a ++ (58 ∷ net.text port)
  with_port (v6 bytes) asked port = v6_with_port bytes port

  print_port-room :
      (before sign : List ℕ) (a : InetAddress) (port : ℕ)
      → network_to_host16 net.host a.port ≡ port
      → port < 2 ^ 16
      → length before ≤ 46
      → length sign ≤ 2
      → print_port net 64 before sign a ≡ ok (before ++ (sign ++ net.text port))
  unfolding print_port
  print_port-room before sign a port same small few two =
      let short = net.short port small in
      let size = length-append sign (net.text port) in
      let room : ltb (length before) 64 ≡ true = ground arith in
      rw
        (
          same,
          room,
          take_all (64 - length before - 1) (sign ++ net.text port) (omega (arith, short, size)),
        )
        refl

  abbrev inet4_of : ℕ → ℕ → InetAddress
  inet4_of a port = record zeroed {
    family = inet;
    port = host_to_network16 net.host port;
    word = a;
  }

  abbrev inet6_of : List ℕ → ℕ → InetAddress
  inet6_of bytes port = record zeroed {
    family = inet6;
    port = host_to_network16 net.host port;
    address6 = bytes;
  }

  parsed4 : (a port : ℕ) → a < 2 ^ 32 → from_ip_port net (net.ntop a) port zeroed ≡ inet4_of a port
  unfolding from_ip_port
  parsed4 a port is = rw (from_ip_port, net.pton-ntop a is) refl

  parsed6 :
      (bytes : List ℕ) (port : ℕ)
      → IsAddress (v6 bytes)
      → from_ip_port6 net (net.ntop6 bytes) port zeroed ≡ inet6_of bytes port
  unfolding from_ip_port6
  parsed6 bytes port is = rw (from_ip_port6, net.pton6-ntop6 bytes is.0 is.1) refl

  -- The text of an IPv4 address is none of IPv6: the address stays zero.
  refused6 :
      (a port : ℕ)
      → a < 2 ^ 32
      → from_ip_port6 net (net.ntop a) port zeroed ≡ inet6_of zeroed.address6 port
  unfolding from_ip_port6
  refused6 a port is = rw (from_ip_port6, net.pton6-ntop a is) refl

  made4 : (a port : ℕ) → a < 2 ^ 32 → address_of net (net.ntop a) port false ≡ inet4_of a port
  unfolding address_of
  made4 a port is = simp (net.ntop-colon a is) (parsed4 a port is)

  made4_asked :
      (a port : ℕ)
      → a < 2 ^ 32
      → address_of net (net.ntop a) port true ≡ inet6_of zeroed.address6 port
  unfolding address_of
  made4_asked a port is = refused6 a port is

  made6 :
      (bytes : List ℕ) (asked : Bool) (port : ℕ)
      → IsAddress (v6 bytes)
      → address_of net (net.ntop6 bytes) port asked ≡ inet6_of bytes port
  unfolding address_of
  made6 bytes true port is = parsed6 bytes port is
  made6 bytes false port is = simp (net.ntop6-colon bytes is.0 is.1) (parsed6 bytes port is)

  shown4 :
      (a port : ℕ)
      → a < 2 ^ 32
      → port < 2 ^ 16
      → to_ip_port net (inet4_of a port) ≡ ok (net.ntop a ++ (58 ∷ net.text port))
  unfolding to_ip_port
  shown4 a port is small =
      let few = net.ntop-short a is in
      let port' = network_to_host16-host_to_network16 net.host port (omega arith) in
      print_port-room (net.ntop a) (58 ∷ []) (inet4_of a port) port port' small (omega (arith, few))
        (omega arith)

  shown6 :
      (bytes : List ℕ) (port : ℕ)
      → IsAddress (v6 bytes)
      → port < 2 ^ 16
      → to_ip_port net (inet6_of bytes port) ≡ ok (v6_with_port bytes port)
  unfolding to_ip_port
  shown6 bytes port (size, is) small =
      let few = net.ntop6-short bytes size is in
      let port' = network_to_host16-host_to_network16 net.host port (omega arith) in
      print_port-room (91 ∷ net.ntop6 bytes) (93 ∷ 58 ∷ []) (inet6_of bytes port) port port' small
        (omega (arith, few)) (omega arith)

  -- An `InetAddress` that is made of the text of an address, of a port below 2 ^ 16 and of whether IPv6 is asked for,
  -- shown by `toIpPort`: of an IPv6 text that text in brackets, asked for or not; of an IPv4 text that text if IPv6
  -- is not asked for, and the zero address of IPv6 in brackets if it is; then a colon and the port. The 64
  -- bytes of the buffer are enough for all.
  pub address_of-to_ip_port :
      (d : Address) (asked : Bool) (port : ℕ)
      → IsAddress d
      → port < 2 ^ 16
      → to_ip_port net (address_of net (notation d) port asked) ≡ ok (with_port d asked port)
  address_of-to_ip_port (v4 a) true port is small =
      ap (to_ip_port net) (made4_asked a port is)
      ∙ shown6 zeroed.address6 port (refl, ground arith) small
  address_of-to_ip_port (v4 a) false port is small =
      ap (to_ip_port net) (made4 a port is) ∙ shown4 a port is small
  address_of-to_ip_port (v6 bytes) asked port is small =
      ap (to_ip_port net) (made6 bytes asked port is) ∙ shown6 bytes port is small
