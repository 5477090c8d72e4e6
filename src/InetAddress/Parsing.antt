-- ===== src/InetAddress/Parsing.antt =====
-- LuxPolaris/src/InetAddress.cc: an address from its text, and from a host's name.
use lux_polaris.Prelude.{
  ℕ, ◌^◌, ◌<◌, ◌≡◌, refl, sym, ap, ap₂, ◌∙◌, Bool, true, false, List, ◌∷◌, ◌++◌, Option, none, some,
  ok, arith, if◌then◌else◌, length, replicate, is_some,
}
use lux_polaris.Buffer.Ints.{Host}
use lux_polaris.InetAddress.{
  Family, unspecified, inet, inet6, is_inet, is_inet6, InetAddress, Net, of_ip, of_port, zeroed,
  to_port, to_ip_port, resolve, write_ip, write_ip_port, colon, with_word, with_addr6,
}
use lux_polaris.InetAddress.Text.{IsValid, ip_text, to_ip_port_lem, port-to_port}

module _ (host : Host) (net : Net) where
  abbrev made4 : ℕ → ℕ → InetAddress
  made4 p w = record (zeroed host) { family = inet; port = host.htobe 2 p; word = w }

  abbrev made6 : ℕ → List ℕ → InetAddress
  made6 p bytes = record (zeroed host) { family = inet6; port = host.htobe 2 p; addr6 = bytes }

  of_ip4 : (w p : ℕ) → w < 2 ^ 32 → of_ip host net (net.ntop4 w) p false ≡ made4 p w
  unfolding of_ip
  of_ip4 w p h = ap (λ o. with_word o (made4 p (zeroed host).word)) (net.pton4-ntop4 w h)

  of_ip6 :
      (bytes : List ℕ) (p : ℕ)
      → length bytes ≡ 16
      → of_ip host net (net.ntop6 bytes) p true ≡ made6 p bytes
  unfolding of_ip
  of_ip6 bytes p h = ap (λ o. with_addr6 o (made6 p (zeroed host).addr6)) (net.pton6-ntop6 bytes h)

  made4-IsValid : (p w : ℕ) → p < 2 ^ 16 → w < 2 ^ 32 → IsValid host (made4 p w)
  made4-IsValid p w h k = record {
    known = refl;
    word_lt = λ e. k;
    length-addr6 = λ e. absurd (ground (arith, e));
    port_number = p;
    port_lt = h;
    port_is = refl;
  }

  made6-IsValid :
      (p : ℕ) (bytes : List ℕ) → p < 2 ^ 16 → length bytes ≡ 16 → IsValid host (made6 p bytes)
  made6-IsValid p bytes h k = record {
    known = refl;
    word_lt = λ e. absurd (ground (arith, e));
    length-addr6 = λ e. k;
    port_number = p;
    port_lt = h;
    port_is = refl;
  }

  -- Addresses with the same text of the IP address and the same port have the same text.
  pub same_text :
      (a b : InetAddress)
      → IsValid host a
      → IsValid host b
      → ip_text net b ≡ ip_text net a
      → to_port host b ≡ to_port host a
      → to_ip_port host net b ≡ to_ip_port host net a
  same_text a b v w e f =
      to_ip_port_lem host net w
      ∙ ap₂ (λ t p. ok (t ++ colon ∷ net.print p)) e f
      ∙ sym (to_ip_port_lem host net v)

  module _ (a : InetAddress) (v : IsValid host a) where
    abbrev reread : InetAddress
    reread = of_ip host net (ip_text net a) (to_port host a) (is_inet6 a.family)

    port_back : to_port host a < 2 ^ 16
    port_back = rw (port-to_port host net v) v.port_lt

    port_again : host.betoh 2 (host.htobe 2 (to_port host a)) ≡ to_port host a
    port_again = host.betoh-htobe 2 (to_port host a) port_back

    reread_by : (f : Family) → a.family ≡ f → to_ip_port host net reread ≡ to_ip_port host net a
    reread_by unspecified e = absurd (ground (arith, v.known, e))
    reread_by inet e =
        ap (to_ip_port host net) (rw e (of_ip4 a.word (to_port host a) (v.word_lt (ap is_inet e))))
        ∙ same_text a (made4 (to_port host a) a.word) v
            (made4-IsValid (to_port host a) a.word port_back (v.word_lt (ap is_inet e))) (rw e refl)
            port_again
    reread_by inet6 e =
        ap (to_ip_port host net)
          (rw e (of_ip6 a.addr6 (to_port host a) (v.length-addr6 (ap is_inet6 e))))
        ∙ same_text a (made6 (to_port host a) a.addr6) v
            (made6-IsValid (to_port host a) a.addr6 port_back (v.length-addr6 (ap is_inet6 e)))
            (rw e refl) port_again

    -- An address made from the text and the port of another has the same text as that one, of either
    -- family.
    pub of_ip-to_ip_port : to_ip_port host net reread ≡ to_ip_port host net a
    of_ip-to_ip_port = reread_by a.family refl

-- Whether inet_pton(3) takes the text.
abbrev pub is_readable : Net → List ℕ → Bool → Bool
is_readable net ip ipv6 = if ipv6 then is_some (net.pton6 ip) else is_some (net.pton4 ip)

none_of {ℓ} : {A : Type ℓ} (o : Option A) → is_some o ≡ false → o ≡ none
none_of none h = refl
none_of (some a) h = absurd (ground (arith, h))

htobe_zero : (host : Host) → host.htobe 4 0 ≡ host.load 4 (replicate 4 0)
htobe_zero host =
    sym (host.load-store 4 (host.htobe 4 0) (host.htobe-lt 4 0 (omega arith)))
    ∙ ap (host.load 4) (host.store-htobe 4 0 (omega arith))

-- A text that is no address gives the address of all interfaces, with the port: the failure is only
-- logged, and what the constructor made is that of a server that listens everywhere.
pub of_ip_unreadable :
    (host : Host) (net : Net) (ip : List ℕ) (port : ℕ) (ipv6 : Bool)
    → is_readable net ip ipv6 ≡ false
    → of_ip host net ip port ipv6 ≡ of_port host port false ipv6 (zeroed host)
unfolding of_ip of_port
of_ip_unreadable host net ip port true h =
    ap (λ o. with_addr6 o (made6 host net port (zeroed host).addr6)) (none_of (net.pton6 ip) h)
of_ip_unreadable host net ip port false h =
    ap (λ o. with_word o (made4 host net port (zeroed host).word)) (none_of (net.pton4 ip) h)
    ∙ ap (made4 host net port) (sym (htobe_zero host))

-- `resolve` into an address of IPv6 says that it found the name, but the address keeps its text: the
-- four bytes go to the flow label.
pub resolve_inet6 :
    (host : Host) (net : Net) (a : InetAddress) (found : ℕ)
    → a.family ≡ inet6
    → ((resolve (some found) a).0 ≡ true)
      × (to_ip_port host net (resolve (some found) a).1 ≡ to_ip_port host net a)
unfolding resolve to_ip_port write_ip_port write_ip
resolve_inet6 host net a found e = (refl, rw e refl)
