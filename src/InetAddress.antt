-- ===== src/InetAddress.antt =====
-- net/inetaddress.h, net/inetaddress.cpp, and the addresses of net/socketops.cpp. A text is the list of its bytes. An address
-- is the memory of the union `sockaddr_in` and `sockaddr_in6`: `sin_addr` lies where `sin6_flowinfo` does. Ports and
-- IPv4 addresses are the values of the fields, in network order. What a constructor leaves without a value is zero.
pub mod Texts
mod Tests
use my_chat_respons.Common.{
  ℕ, ◌-◌, ◌^◌, ◌<◌, ◌≤◌, ◌≡◌, Bool, true, false, ◌&&◌, ◌||◌, Option, none, some, List, [], ◌∷◌,
  ◌++◌, ltb, leb, ◌==◌, if◌then◌else◌, length, take, same_bytes, Outcome, ok, assert, ◌>>=◌, ◌>>◌,
}
use my_chat_respons.Buffer.Integers.{Host, host_to_network16, host_to_network32, network_to_host16}

abbrev pub has_byte : ℕ → List ℕ → Bool
has_byte c [] = false
has_byte c (x ∷ xs) = (x == c) || has_byte c xs

-- Each is a byte.
abbrev pub AllBytes : List ℕ → Type 0
AllBytes [] = Unit
AllBytes (x ∷ xs) = (x < 256) × AllBytes xs

-- The C library: what %u writes, the addresses that <netinet/in.h> names, and `inet_pton` and `inet_ntop` at each
-- family, with what they document: the text of an address reads back in its family, has the length that its buffer
-- is made for, has a colon for IPv6 alone, and that of an IPv4 address is none of IPv6. `inet_pton` gives `none` for what is no address.
pub record Inet : Type 0 where
  pub host : Host
  pub text : ℕ → List ℕ
  pub any : ℕ
  pub loopback : ℕ
  pub any6 : List ℕ
  pub loopback6 : List ℕ
  pub pton : List ℕ → Option ℕ
  pub ntop : ℕ → List ℕ
  pub pton6 : List ℕ → Option (List ℕ)
  pub ntop6 : List ℕ → List ℕ
  pub short : (n : ℕ) → n < 2 ^ 16 → length (text n) ≤ 5
  pub pton-ntop : (a : ℕ) → a < 2 ^ 32 → pton (ntop a) ≡ some a
  pub ntop-short : (a : ℕ) → a < 2 ^ 32 → length (ntop a) ≤ 15
  pub ntop-colon : (a : ℕ) → a < 2 ^ 32 → has_byte 58 (ntop a) ≡ false
  pub pton6-ntop : (a : ℕ) → a < 2 ^ 32 → pton6 (ntop a) ≡ none
  pub pton6-ntop6 : (a : List ℕ) → length a ≡ 16 → AllBytes a → pton6 (ntop6 a) ≡ some a
  pub ntop6-short : (a : List ℕ) → length a ≡ 16 → AllBytes a → length (ntop6 a) ≤ 45
  pub ntop6-colon : (a : List ℕ) → length a ≡ 16 → AllBytes a → has_byte 58 (ntop6 a) ≡ true

pub data Family : Type 0 where
  unspec inet inet6 : Family

-- `word` is `sin_addr.s_addr` or `sin6_flowinfo`.
pub record InetAddress : Type 0 where
  pub family : Family
  pub port : ℕ
  pub word : ℕ
  pub address6 : List ℕ
  pub scope_id : ℕ

-- `mem_zero`.
abbrev pub zeroed : InetAddress
zeroed = record {
  family = unspec;
  port = 0;
  word = 0;
  address6 = 0 ∷ 0 ∷ 0 ∷ 0 ∷ 0 ∷ 0 ∷ 0 ∷ 0 ∷ 0 ∷ 0 ∷ 0 ∷ 0 ∷ 0 ∷ 0 ∷ 0 ∷ 0 ∷ [];
  scope_id = 0;
}

-- `getLocalAddr` and `getPeerAddr`: of a call that fails, only zeros.
unfoldable pub get_addr : Option InetAddress → InetAddress
get_addr none = zeroed
get_addr (some a) = a

abbrev pub is_inet : Family → Bool
is_inet inet = true
is_inet _ = false

-- `isSelfConnect`.
unfoldable pub is_self_connect : Option InetAddress → Option InetAddress → Bool
unfolding get_addr
is_self_connect local peer =
    let localaddr = get_addr local in
    let peeraddr = get_addr peer in
    elim localaddr.family [
      | inet ↦ (localaddr.port == peeraddr.port) && (localaddr.word == peeraddr.word)
      | inet6 ↦ (localaddr.port == peeraddr.port) && same_bytes localaddr.address6 peeraddr.address6
      | unspec ↦ false
    ]

unfoldable pub ipv4_net_endian : InetAddress → Outcome ℕ
ipv4_net_endian a = do assert (is_inet a.family); ok a.word

unfoldable pub set_scope_id : ℕ → InetAddress → InetAddress
set_scope_id scope_id a = elim a.family [
  | inet6 ↦ record a { scope_id = scope_id }
  | inet ↦ a
  | unspec ↦ a
]

-- What `gethostbyname_r` answers: an error or nobody, or a host with its family, the length of its address, and that.
pub data HostAnswer : Type 0 where
  unknown : HostAnswer
  found : Family → ℕ → ℕ → HostAnswer

-- `resolve` writes the address and leaves the family as it was.
unfoldable pub resolve : HostAnswer → InetAddress → Outcome (Bool × InetAddress)
resolve unknown out = ok (false, out)
resolve (found family size address) out = do
  assert (is_inet family && (size == 4))
  ok (true, record out { word = address })

module _ (net : Inet) where
  -- The constructor from a port.
  unfoldable pub address_of_port : ℕ → Bool → Bool → InetAddress
  address_of_port port_arg loopback_only ipv6 =
      if ipv6
      then record zeroed {
        family = inet6;
        address6 = if loopback_only then net.loopback6 else net.any6;
        port = host_to_network16 net.host port_arg;
      }
      else record zeroed {
        family = inet;
        port = host_to_network16 net.host port_arg;
        word = host_to_network32 net.host (if loopback_only then net.loopback else net.any);
      }

  -- `fromIpPort` at each family: without an address in the text, what was there is left.
  unfoldable pub from_ip_port : List ℕ → ℕ → InetAddress → InetAddress
  from_ip_port ip port_arg a =
      let a' : InetAddress = record a {
        family = inet;
        port = host_to_network16 net.host port_arg;
      } in
      elim (net.pton ip) [ none ↦ a' | some word ↦ record a' { word = word } ]

  unfoldable pub from_ip_port6 : List ℕ → ℕ → InetAddress → InetAddress
  from_ip_port6 ip port_arg a =
      let a' : InetAddress = record a {
        family = inet6;
        port = host_to_network16 net.host port_arg;
      } in
      elim (net.pton6 ip) [ none ↦ a' | some address6 ↦ record a' { address6 = address6 } ]

  -- The constructor from a text and a port.
  unfoldable pub address_of : List ℕ → ℕ → Bool → InetAddress
  unfolding from_ip_port from_ip_port6
  address_of ip port_arg ipv6 =
      if ipv6 || has_byte 58 ip
      then from_ip_port6 ip port_arg zeroed
      else from_ip_port ip port_arg zeroed

  -- `toIp`, the text in a buffer of `size` bytes that holds the empty text.
  unfoldable pub to_ip : ℕ → InetAddress → Outcome (List ℕ)
  to_ip size a = elim a.family [
    | inet ↦ (do assert (leb 16 size); ok (net.ntop a.word))
    | inet6 ↦ (do assert (leb 46 size); ok (net.ntop6 a.address6))
    | unspec ↦ ok []
  ]

  -- What `snprintf` writes behind the text that is there.
  unfoldable pub print_port : ℕ → List ℕ → List ℕ → InetAddress → Outcome (List ℕ)
  print_port size before sign a = do
    assert (ltb (length before) size)
    ok (
        before
        ++ take (size - length before - 1) (sign ++ net.text (network_to_host16 net.host a.port)))

  unfoldable pub to_ip_port_in : ℕ → InetAddress → Outcome (List ℕ)
  unfolding to_ip print_port
  to_ip_port_in size a = elim a.family [
    | inet6 ↦ (do ip ← to_ip (size - 1) a; print_port size (91 ∷ ip) (93 ∷ 58 ∷ []) a)
    | inet ↦ (do ip ← to_ip size a; print_port size ip (58 ∷ []) a)
    | unspec ↦ (do ip ← to_ip size a; print_port size ip (58 ∷ []) a)
  ]

  unfoldable pub to_ip_port : InetAddress → Outcome (List ℕ)
  unfolding to_ip_port_in
  to_ip_port a = to_ip_port_in 64 a
