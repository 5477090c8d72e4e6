-- ===== src/Tests/Addresses.antt =====
-- Runs of LuxPolaris/src/InetAddress.cc and Sockets.cc on an address of each family, with texts that
-- spell the bytes of an address one by one.
use lux_polaris.Prelude.{
  ℕ, ◌+◌, ◌/◌, ◌%◌, ◌≡◌, ◌↔◌, refl, ap, true, List, [], ◌∷◌, ◌++◌, some, none, arith, length,
  replicate, if◌then◌else◌, ◌==◌,
}
use lux_polaris.Buffer.Ints.{big_endian}
use lux_polaris.Buffer.LittleEndian.{
  little_endian, length-big_endian, big_value, big_value-big_endian,
}
use lux_polaris.InetAddress.{
  InetAddress, Net, inet, is_inet6, colon, of_port, of_ip, zeroed, to_port, to_ip_port, resolve,
}
use lux_polaris.InetAddress.Text.{IsValid, ip_text, to_ip_port_lem}
use lux_polaris.InetAddress.Parsing.{of_ip-to_ip_port, resolve_inet6}
use lux_polaris.Connection.Names.{
  server_connection_name, client_connection_name, server_connection_names_differ,
  client_connection_names_clash,
}
use lux_polaris.Sockets.{is_self_connect}
use lux_polaris.Sockets.SelfConnect.{is_self_connect_lem}

abbrev four_characters : ℕ → List ℕ
four_characters n =
    (59 + n / 16777216) ∷ (59 + n / 65536 % 256) ∷ (59 + n / 256 % 256) ∷ (59 + n % 256) ∷ []

same_four :
    {x y z w x' y' z' w' : ℕ}
    → x ∷ y ∷ z ∷ w ∷ [] ≡ x' ∷ y' ∷ z' ∷ w' ∷ []
    → (x ≡ x') × (y ≡ y') × (z ≡ z') × (w ≡ w')
same_four e = (ground arith, ground arith, ground arith, ground arith)

four-injective : (m n : ℕ) → four_characters m ≡ four_characters n → m ≡ n
four-injective m n e = let (a, b, c, d) = same_four e in omega (arith, a, b, c, d)

abbrev spelled : Net
spelled = record {
  ntop4 = big_endian 4;
  ntop6 = λ a. a;
  pton4 = λ t. if length t == 4 then some (big_value 0 t) else none;
  pton6 = λ t. some t;
  print = four_characters;
  length-ntop4 = λ a h. omega (arith, length-big_endian 4 a);
  length-ntop6 = λ a h. omega arith;
  pton4-ntop4 = λ a h. ap some (big_value-big_endian 4 a h);
  pton6-ntop6 = λ a h. refl;
  length-print = λ p h. omega arith;
  length-print_int = λ n h. omega arith;
  print_plain = λ n h. (ground arith, (ground arith, (ground arith, (ground arith, tt))));
  print_injective = λ m n h k e. four-injective m n e;
}

abbrev loopback : InetAddress
loopback = record (zeroed little_endian) {
  family = inet;
  port = little_endian.htobe 2 2022;
  word = 16777343;
}

loopback-IsValid : IsValid little_endian loopback
loopback-IsValid = record {
  known = refl;
  word_lt = λ e. omega arith;
  length-addr6 = λ e. refl;
  port_number = 2022;
  port_lt = omega arith;
  port_is = refl;
}

of_ip-to_ip_port_example :
    to_ip_port little_endian spelled (
      of_ip little_endian spelled
        (ip_text spelled loopback)
        (to_port little_endian loopback)
        (is_inet6 loopback.family))
    ≡ to_ip_port little_endian spelled loopback
of_ip-to_ip_port_example = of_ip-to_ip_port little_endian spelled loopback loopback-IsValid

abbrev loopback6 : InetAddress
loopback6 = of_port little_endian 2022 true true (zeroed little_endian)

resolve_inet6_example :
    ((resolve (some 16777343) loopback6).0 ≡ true)
    × (to_ip_port little_endian spelled (resolve (some 16777343) loopback6).1
        ≡ to_ip_port little_endian spelled loopback6)
unfolding of_port
resolve_inet6_example = resolve_inet6 little_endian spelled loopback6 16777343 refl

is_self_connect_example :
    (is_self_connect little_endian (some loopback) (some loopback) ≡ true)
    ↔ (to_ip_port little_endian spelled loopback ≡ to_ip_port little_endian spelled loopback)
is_self_connect_example =
    is_self_connect_lem little_endian spelled loopback-IsValid loopback-IsValid refl

server_connection_names_differ_example : ¬ (
    server_connection_name spelled
      (83 ∷ [])
      (ip_text spelled loopback ++ colon ∷ spelled.print (to_port little_endian loopback))
      7
    ≡ server_connection_name spelled
        (83 ∷ [])
        (ip_text spelled loopback ++ colon ∷ spelled.print (to_port little_endian loopback))
        8)
server_connection_names_differ_example =
    server_connection_names_differ little_endian spelled loopback-IsValid (83 ∷ [])
      (ip_text spelled loopback ++ colon ∷ spelled.print (to_port little_endian loopback))
      (to_ip_port_lem little_endian spelled loopback-IsValid) 7 8 (omega arith) (omega arith)
      (λ e. omega arith)

client_connection_names_clash_example :
    client_connection_name spelled (67 ∷ []) (replicate 30 58) 1
    ≡ client_connection_name spelled (67 ∷ []) (replicate 30 58) 2
client_connection_names_clash_example =
    client_connection_names_clash spelled (67 ∷ []) (replicate 30 58) (omega arith) 1 2
