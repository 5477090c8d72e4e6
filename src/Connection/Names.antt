-- ===== src/Connection/Names.antt =====
-- The names of connections in `newConnection` of LuxPolaris/src/TCPServer.cc and TCPClient.cc. The
-- listening address of the server and the client's peer come as the text that toIpPort makes.
use lux_polaris.Prelude.{
  ℕ, ◌^◌, ◌<◌, ◌≤◌, ◌≡◌, refl, sym, ap, ◌∙◌, List, ◌∷◌, ◌++◌, arith, ok, ok_injective, length,
  length-append, take, take-all, take_within, drop, drop-append,
}
use lux_polaris.Buffer.Ints.{Host}
use lux_polaris.InetAddress.{InetAddress, Net, colon, number_sign, to_ip_port, to_port}
use lux_polaris.InetAddress.Cutting.{same_behind, no_number_sign}
use lux_polaris.InetAddress.Text.{IsValid, ip_text, to_ip_port_lem, port-to_port, length-ip_text}

-- The character '-'.
abbrev hyphen : ℕ
hyphen = 45

module _ (net : Net) where
  -- snprintf(3) with "-%s#%d" into 64 bytes, one of them for the NUL, behind the server's name.
  abbrev pub server_connection_name : List ℕ → List ℕ → ℕ → List ℕ
  server_connection_name name ip_port id =
      name ++ take 63 (hyphen ∷ ip_port ++ number_sign ∷ net.print id)

  -- Likewise with ":%s#%d" into 32 bytes.
  abbrev pub client_connection_name : List ℕ → List ℕ → ℕ → List ℕ
  client_connection_name name ip_port id =
      name ++ take 31 (colon ∷ ip_port ++ number_sign ∷ net.print id)

same_rest : (name xs ys : List ℕ) → name ++ xs ≡ name ++ ys → xs ≡ ys
same_rest name xs ys e = sym (drop-append name xs) ∙ ap (drop (length name)) e ∙ drop-append name ys

module _ (net : Net) (name ip_port : List ℕ) (short : length ip_port ≤ 51) where
  -- The buffer of 64 bytes cuts nothing.
  whole :
      (id : ℕ)
      → id < 2 ^ 31
      → take 63 (hyphen ∷ ip_port ++ number_sign ∷ net.print id)
        ≡ hyphen ∷ ip_port ++ number_sign ∷ net.print id
  whole id h =
      take-all 63 (hyphen ∷ ip_port ++ number_sign ∷ net.print id) (
        omega
          (arith, length-append ip_port (number_sign ∷ net.print id), net.length-print_int id h))

  distinct :
      (i j : ℕ)
      → i < 2 ^ 31
      → j < 2 ^ 31
      → server_connection_name net name ip_port i ≡ server_connection_name net name ip_port j
      → i ≡ j
  distinct i j h k e = net.print_injective i j h k (
      same_behind number_sign (hyphen ∷ ip_port) (hyphen ∷ ip_port) (net.print i) (net.print j)
        (no_number_sign (net.print i) (net.print_plain i h))
        (no_number_sign (net.print j) (net.print_plain j k))
        (sym (whole i h) ∙ same_rest name _ _ e ∙ whole j k))

module _ (host : Host) (net : Net) {a : InetAddress} (v : IsValid host a) (name : List ℕ) where
  short_text : length (ip_text net a ++ colon ∷ net.print (to_port host a)) ≤ 51
  short_text = omega (
    arith,
    length-append (ip_text net a) (colon ∷ net.print (to_port host a)),
    length-ip_text host net v a.family refl,
    net.length-print (to_port host a) (rw (port-to_port host net v) v.port_lt),
  )

  -- A server gives connections of different numbers different names, whatever its address is: the
  -- buffer of 64 bytes always has the room for the address and the number.
  pub server_connection_names_differ :
      (ip_port : List ℕ)
      → to_ip_port host net a ≡ ok ip_port
      → (i j : ℕ) → i < 2 ^ 31
      → j < 2 ^ 31
      → ¬ (i ≡ j)
      → ¬ (server_connection_name net name ip_port i ≡ server_connection_name net name ip_port j)
  server_connection_names_differ ip_port e i j h k other same = other (
      distinct net name ip_port
        (omega (arith, short_text, ap length (ok_injective (sym e ∙ to_ip_port_lem host net v)))) i
        j h k same)

-- A client gives all connections to a peer whose text has thirty characters or more, as many
-- addresses of IPv6 have, one name: the buffer of 32 bytes has no room for the number.
pub client_connection_names_clash :
    (net : Net) (name ip_port : List ℕ)
    → 30 ≤ length ip_port
    → (i j : ℕ)
    → client_connection_name net name ip_port i ≡ client_connection_name net name ip_port j
client_connection_names_clash net name ip_port long i j =
    ap (λ t. name ++ colon ∷ t) (cut i ∙ sym (cut j))
  where
    cut : (id : ℕ) → take 30 (ip_port ++ number_sign ∷ net.print id) ≡ take 30 ip_port
    cut id = take_within 30 ip_port (number_sign ∷ net.print id) long
