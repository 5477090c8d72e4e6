-- ===== src/InetAddress/Text.antt =====
-- LuxPolaris/src/InetAddress.cc: the text of an address.
use lux_polaris.Prelude.{
  ℕ, ◌-◌, ◌^◌, ◌<◌, ◌≤◌, ◌≡◌, refl, ap, ◌∙◌, true, ◌||◌, List, [], ◌∷◌, ◌++◌, Outcome, ok, ◌>>=◌,
  ◌>>◌, assert, arith, ltb, length, take, take-all,
}
use lux_polaris.Buffer.Ints.{Host}
use lux_polaris.InetAddress.{
  Family, unspecified, inet, inet6, is_inet, is_inet6, InetAddress, Net, colon, text_size, to_port,
  write_ip, write_ip_port, to_ip_port,
}

-- An address of one of the two families, as the constructors and the system make it.
pub record IsValid (host : Host) (a : InetAddress) : Type 0 where
  pub known : (is_inet a.family || is_inet6 a.family) ≡ true
  pub word_lt : is_inet a.family ≡ true → a.word < 2 ^ 32
  pub length-addr6 : is_inet6 a.family ≡ true → length a.addr6 ≡ 16
  pub port_number : ℕ
  pub port_lt : port_number < 2 ^ 16
  pub port_is : a.port ≡ host.htobe 2 port_number

-- The text of the IP address alone.
abbrev pub ip_text : Net → InetAddress → List ℕ
ip_text net a = elim a.family [
  | unspecified ↦ []
  | inet ↦ net.ntop4 a.word
  | inet6 ↦ net.ntop6 a.addr6
]

module _ (host : Host) (net : Net) {a : InetAddress} (v : IsValid host a) where
  pub port-to_port : to_port host a ≡ v.port_number
  port-to_port = ap (host.betoh 2) v.port_is ∙ host.betoh-htobe 2 v.port_number v.port_lt

  written : (f : Family) → a.family ≡ f → write_ip net text_size [] a ≡ ok (ip_text net a)
  unfolding write_ip
  written unspecified e = rw e refl
  written inet e = rw e refl
  written inet6 e = rw e refl

  pub length-ip_text : (f : Family) → a.family ≡ f → length (ip_text net a) < 46
  length-ip_text unspecified e = rw e (omega arith)
  length-ip_text inet e = rw e (omega (arith, net.length-ntop4 a.word (v.word_lt (ap is_inet e))))
  length-ip_text inet6 e = rw e (net.length-ntop6 a.addr6 (v.length-addr6 (ap is_inet6 e)))

  length-tail : length (colon ∷ net.print (to_port host a)) ≤ 6
  length-tail = omega (arith, net.length-print (to_port host a) (rw port-to_port v.port_lt))

  -- `toIpPort` of an address returns its IP address, a colon and its port, in full: the buffer of 64
  -- bytes cuts nothing of either family, and no assertion fails.
  pub to_ip_port_lem :
      to_ip_port host net a ≡ ok (ip_text net a ++ colon ∷ net.print (to_port host a))
  unfolding to_ip_port write_ip_port
  to_ip_port_lem =
      ap (λ o. o >>= finish) (written a.family refl)
      ∙ rw fits (
          ap (λ t. ok (ip_text net a ++ t))
            (take-all (text_size - length (ip_text net a) - 1) (colon ∷ net.print (to_port host a))
              (omega (arith, length-tail, length-ip_text a.family refl))))
    where
      finish : List ℕ → Outcome (List ℕ)
      finish ip =
          assert (ltb (length ip) text_size)
          >> ok (ip ++ take (text_size - length ip - 1) (colon ∷ net.print (to_port host a)))

      fits : ltb (length (ip_text net a)) text_size ≡ true
      fits = ground (arith, length-ip_text a.family refl)
