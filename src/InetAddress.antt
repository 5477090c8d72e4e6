-- ===== src/InetAddress.antt =====
-- LuxPolaris/src/InetAddress.cc and include/InetAddress.h, with the conversions of Sockets.cc that
-- they call. A text is the list of its characters, without the NUL. The union of sockaddr_in and
-- sockaddr_in6 is one record: `word` is `sin_addr` of the one and `sin6_flowinfo` of the other.
pub mod Cutting
pub mod Text
pub mod Parsing
use lux_polaris.Prelude.{
  ℕ, ◌+◌, ◌-◌, ◌*◌, ◌^◌, ◌<◌, ◌≤◌, ◌≡◌, Bool, true, false, List, [], ◌∷◌, ◌++◌, Option, none, some,
  Outcome, ok, ◌>>=◌, ◌>>◌, assert, if◌then◌else◌, ltb, leb, ◌==◌, ◌||◌, length, take, drop,
  replicate, All,
}
use lux_polaris.Buffer.Ints.{Host}

-- `sa_family_t`: AF_UNSPEC, AF_INET, AF_INET6.
pub data Family : Type 0 where
  unspecified inet inet6 : Family

abbrev pub is_inet : Family → Bool
is_inet inet = true
is_inet _ = false

abbrev pub is_inet6 : Family → Bool
is_inet6 inet6 = true
is_inet6 _ = false

-- `port` and `word` are in network order.
pub record InetAddress : Type 0 where
  pub family : Family
  pub port : ℕ
  pub word : ℕ
  pub addr6 : List ℕ
  pub scope_id : ℕ

-- The character ':'.
abbrev pub colon : ℕ
colon = 58

-- The character '#'.
abbrev pub number_sign : ℕ
number_sign = 35

-- INET_ADDRSTRLEN, INET6_ADDRSTRLEN and the size of the local buffers.
abbrev pub inet_addrstrlen : ℕ
inet_addrstrlen = 16

abbrev pub inet6_addrstrlen : ℕ
inet6_addrstrlen = 46

abbrev pub text_size : ℕ
text_size = 64

-- What <arpa/inet.h> and <stdio.h> do: inet_ntop(3) and inet_pton(3) of both families, and what `%u`
-- and `%d` print of a number that is not negative. The laws: a text fits the size that the headers
-- name, without its NUL; a printed address is read back; a number of 16 bits has at most five
-- characters and an int at most ten, none of them ':' or '#', and they say which number it is.
pub record Net : Type 0 where
  pub ntop4 : ℕ → List ℕ
  pub ntop6 : List ℕ → List ℕ
  pub pton4 : List ℕ → Option ℕ
  pub pton6 : List ℕ → Option (List ℕ)
  pub print : ℕ → List ℕ
  pub length-ntop4 : (a : ℕ) → a < 2 ^ 32 → length (ntop4 a) < inet_addrstrlen
  pub length-ntop6 : (a : List ℕ) → length a ≡ 16 → length (ntop6 a) < inet6_addrstrlen
  pub pton4-ntop4 : (a : ℕ) → a < 2 ^ 32 → pton4 (ntop4 a) ≡ some a
  pub pton6-ntop6 : (a : List ℕ) → length a ≡ 16 → pton6 (ntop6 a) ≡ some a
  pub length-print : (p : ℕ) → p < 2 ^ 16 → length (print p) ≤ 5
  pub length-print_int : (n : ℕ) → n < 2 ^ 31 → length (print n) ≤ 10
  pub print_plain :
      (n : ℕ) → n < 2 ^ 31 → All (λ c. ((c == colon) || (c == number_sign)) ≡ false) (print n)
  pub print_injective : (m n : ℕ) → m < 2 ^ 31 → n < 2 ^ 31 → print m ≡ print n → m ≡ n

-- in6addr_any and in6addr_loopback
abbrev pub in6addr_any : List ℕ
in6addr_any = replicate 16 0

abbrev pub in6addr_loopback : List ℕ
in6addr_loopback = replicate 15 0 ++ 1 ∷ []

abbrev pub in_addr_any : ℕ
in_addr_any = 0

abbrev pub in_addr_loopback : ℕ
in_addr_loopback = 127 * 2 ^ 24 + 1

module _ (host : Host) where
  -- hostToNetwork16, hostToNetwork32 and networkToHost16 of include/Sockets.h.
  abbrev pub host_to_network16 : ℕ → ℕ
  host_to_network16 x = host.htobe 2 x

  abbrev pub host_to_network32 : ℕ → ℕ
  host_to_network32 x = host.htobe 4 x

  abbrev pub network_to_host16 : ℕ → ℕ
  network_to_host16 x = host.betoh 2 x

  -- The union after `memZero` of all of it, and of the first 16 of its 28 bytes.
  abbrev pub zeroed : InetAddress
  zeroed = record {
    family = unspecified;
    port = host.load 2 (replicate 2 0);
    word = host.load 4 (replicate 4 0);
    addr6 = replicate 16 0;
    scope_id = host.load 4 (replicate 4 0);
  }

  abbrev pub zeroed4 : InetAddress → InetAddress
  zeroed4 old = record zeroed { addr6 = replicate 8 0 ++ drop 8 old.addr6; scope_id = old.scope_id }

  -- The constructor of a port; `old` is what the storage held before.
  unfoldable pub of_port : ℕ → Bool → Bool → InetAddress → InetAddress
  of_port port loopback_only true old = record zeroed {
    family = inet6;
    addr6 = if loopback_only then in6addr_loopback else in6addr_any;
    port = host_to_network16 port;
  }
  of_port port loopback_only false old = record (zeroed4 old) {
    family = inet;
    word = host_to_network32 (if loopback_only then in_addr_loopback else in_addr_any);
    port = host_to_network16 port;
  }

  abbrev pub to_port : InetAddress → ℕ
  to_port a = network_to_host16 a.port

abbrev pub with_word : Option ℕ → InetAddress → InetAddress
with_word none a = a
with_word (some w) a = record a { word = w }

abbrev pub with_addr6 : Option (List ℕ) → InetAddress → InetAddress
with_addr6 none a = a
with_addr6 (some bytes) a = record a { addr6 = bytes }

-- The caller must have an IPv4 address.
unfoldable pub ip_net_endian : InetAddress → Outcome ℕ
ip_net_endian a = do assert (is_inet a.family); ok a.word

abbrev pub set_scope_id : ℕ → InetAddress → InetAddress
set_scope_id scope_id a = if is_inet6 a.family then record a { scope_id = scope_id } else a

-- What gethostbyname_r(3) finds: nothing, or an address of IPv4 (it asks for no other) in network
-- order.
unfoldable pub resolve : Option ℕ → InetAddress → Bool × InetAddress
resolve none out = (false, out)
resolve (some address) out = (true, record out { word = address })

module _ (host : Host) (net : Net) where
  -- `fromIpPort` of both families; a text that is no address is only logged.
  abbrev pub from_ip_port4 : List ℕ → ℕ → InetAddress → InetAddress
  from_ip_port4 ip port a =
      with_word (net.pton4 ip) (record a { family = inet; port = host_to_network16 host port })

  abbrev pub from_ip_port6 : List ℕ → ℕ → InetAddress → InetAddress
  from_ip_port6 ip port a =
      with_addr6 (net.pton6 ip) (record a { family = inet6; port = host_to_network16 host port })

  -- The constructor of an address and a port.
  unfoldable pub of_ip : List ℕ → ℕ → Bool → InetAddress
  of_ip ip port ipv6 =
      if ipv6 then from_ip_port6 ip port (zeroed host) else from_ip_port4 ip port (zeroed host)

module _ (net : Net) where
  -- `sockets::toIp`, into a buffer of `size` bytes that holds a text.
  unfoldable pub write_ip : ℕ → List ℕ → InetAddress → Outcome (List ℕ)
  write_ip size text a = elim a.family [
    | unspecified ↦ ok text
    | inet ↦ (do assert (leb inet_addrstrlen size); ok (net.ntop4 a.word))
    | inet6 ↦ (do assert (leb inet6_addrstrlen size); ok (net.ntop6 a.addr6))
  ]

  unfoldable pub to_ip : InetAddress → Outcome (List ℕ)
  to_ip a = write_ip text_size [] a

module _ (host : Host) (net : Net) where
  -- `sockets::toIpPort`; snprintf(3) cuts what does not fit.
  unfoldable pub write_ip_port : ℕ → List ℕ → InetAddress → Outcome (List ℕ)
  unfolding write_ip
  write_ip_port size text a = do
    ip ← write_ip net size text a
    let end = length ip
    assert (ltb end size)
    ok (ip ++ take (size - end - 1) (colon ∷ net.print (to_port host a)))

  unfoldable pub to_ip_port : InetAddress → Outcome (List ℕ)
  unfolding write_ip_port
  to_ip_port a = write_ip_port text_size [] a
