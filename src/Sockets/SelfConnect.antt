-- ===== src/Sockets/SelfConnect.antt =====
-- `isSelfConnect` of LuxPolaris/src/Sockets.cc and the texts of the two addresses.
use lux_polaris.Prelude.{
  ℕ, ◌^◌, ◌<◌, ◌≡◌, ◌↔◌, refl, sym, ap, ap₂, ◌∙◌, Bool, true, false, ◌&&◌, List, [], ◌∷◌, ◌++◌,
  some, ok_injective, arith, if◌then◌else◌, ◌==◌, ==_self, All,
}
use lux_polaris.Buffer.Ints.{Host}
use lux_polaris.InetAddress.{
  Family, unspecified, inet, inet6, is_inet, is_inet6, InetAddress, Net, to_port, to_ip_port, colon,
}
use lux_polaris.InetAddress.Text.{IsValid, ip_text, to_ip_port_lem, port-to_port}
use lux_polaris.InetAddress.Cutting.{same_front, same_behind, some_injective, no_colon}
use lux_polaris.InetAddress.Parsing.{same_text}
use lux_polaris.Sockets.{same_bytes, is_self_connect}

same_bytes_self : (xs : List ℕ) → same_bytes xs xs ≡ true
same_bytes_self [] = refl
same_bytes_self (x ∷ xs) = rw (==_self x) (same_bytes_self xs)

same_bytes_lem : (xs ys : List ℕ) → same_bytes xs ys ≡ true → xs ≡ ys
same_bytes_lem [] [] h = refl
same_bytes_lem (x ∷ xs) (y ∷ ys) h =
    ap₂ ◌∷◌ (ground (arith, h)) (same_bytes_lem xs ys (ground (arith, h)))
same_bytes_lem [] (y ∷ ys) h = absurd (ground (arith, h))
same_bytes_lem (x ∷ xs) [] h = absurd (ground (arith, h))

both_true : {x y : Bool} → x ≡ true → y ≡ true → (x && y) ≡ true
both_true h k = ground arith

both_left : (x y : Bool) → (x && y) ≡ true → x ≡ true
both_left x y h = ground arith

both_right : (x y : Bool) → (x && y) ≡ true → y ≡ true
both_right x y h = ground arith

==_true : {x y : ℕ} → (x == y) ≡ true → x ≡ y
==_true h = ground arith

module _ (host : Host) (net : Net) {a b : InetAddress} (v : IsValid host a)
    (w : IsValid host b) where
  port-lt : {c : InetAddress} (u : IsValid host c) → to_port host c < 2 ^ 16
  port-lt u = rw (port-to_port host net u) u.port_lt

  abbrev SameText : Type 0
  SameText = to_ip_port host net a ≡ to_ip_port host net b

  texts :
      SameText
      → ip_text net a ++ colon ∷ net.print (to_port host a)
        ≡ ip_text net b ++ colon ∷ net.print (to_port host b)
  texts e = ok_injective (sym (to_ip_port_lem host net v) ∙ e ∙ to_ip_port_lem host net w)

  plain_a : All (λ c. (c == colon) ≡ false) (net.print (to_port host a))
  plain_a = no_colon _ (net.print_plain (to_port host a) (omega (arith, port-lt v)))

  plain_b : All (λ c. (c == colon) ≡ false) (net.print (to_port host b))
  plain_b = no_colon _ (net.print_plain (to_port host b) (omega (arith, port-lt w)))

  same_ip : SameText → ip_text net a ≡ ip_text net b
  same_ip e = same_front colon _ _ _ _ plain_a plain_b (texts e)

  same_port : SameText → a.port ≡ b.port
  same_port e =
      v.port_is
      ∙ ap (host.htobe 2) (
          sym (port-to_port host net v)
          ∙ net.print_injective (to_port host a) (to_port host b) (omega (arith, port-lt v))
              (omega (arith, port-lt w)) (same_behind colon _ _ _ _ plain_a plain_b (texts e))
          ∙ port-to_port host net w)
      ∙ sym w.port_is

  same_word : a.family ≡ inet → b.family ≡ inet → SameText → a.word ≡ b.word
  same_word fa fb e = some_equal (
      sym (net.pton4-ntop4 a.word (v.word_lt (ap is_inet fa)))
      ∙ ap net.pton4 (shown a fa ∙ same_ip e ∙ sym (shown b fb))
      ∙ net.pton4-ntop4 b.word (w.word_lt (ap is_inet fb)))
    where
      shown : (c : InetAddress) → c.family ≡ inet → net.ntop4 c.word ≡ ip_text net c
      shown c f = rw f refl

      some_equal : {x y : ℕ} → some x ≡ some y → x ≡ y
      some_equal p = ground arith

  same_addr6 : a.family ≡ inet6 → b.family ≡ inet6 → SameText → a.addr6 ≡ b.addr6
  same_addr6 fa fb e = some_injective (
      sym (net.pton6-ntop6 a.addr6 (v.length-addr6 (ap is_inet6 fa)))
      ∙ ap net.pton6 (shown a fa ∙ same_ip e ∙ sym (shown b fb))
      ∙ net.pton6-ntop6 b.addr6 (w.length-addr6 (ap is_inet6 fb)))
    where
      shown : (c : InetAddress) → c.family ≡ inet6 → net.ntop6 c.addr6 ≡ ip_text net c
      shown c f = rw f refl

  connected_to_self :
      (f : Family)
      → a.family ≡ f
      → b.family ≡ f
      → SameText
      → is_self_connect host (some a) (some b) ≡ true
  unfolding is_self_connect
  connected_to_self unspecified fa fb e = absurd (ground (arith, v.known, fa))
  connected_to_self inet fa fb e = rw fa (ground (arith, same_port e, same_word fa fb e))
  connected_to_self inet6 fa fb e = rw fa (
      both_true (ground (arith, same_port e))
        (ap (same_bytes a.addr6) (sym (same_addr6 fa fb e)) ∙ same_bytes_self a.addr6))

  text_of :
      (f : Family)
      → a.family ≡ f
      → b.family ≡ f
      → is_self_connect host (some a) (some b) ≡ true
      → SameText
  unfolding is_self_connect
  text_of unspecified fa fb h = absurd (ground (arith, v.known, fa))
  text_of inet fa fb h =
      same_text host net b a w v
        (rw fa (rw fb (ap net.ntop4 (==_true (both_right _ _ (chosen h))))))
        (ap (host.betoh 2) (==_true (both_left _ _ (chosen h))))
    where
      chosen :
          is_self_connect host (some a) (some b) ≡ true
          → ((a.port == b.port) && (a.word == b.word)) ≡ true
      chosen e =
          ap
            (λ f.
              if is_inet f
              then (a.port == b.port) && (a.word == b.word)
              else if is_inet6 f
              then (a.port == b.port) && same_bytes a.addr6 b.addr6
              else false)
            (sym fa)
          ∙ e
  text_of inet6 fa fb h =
      same_text host net b a w v
        (rw fa (rw fb (ap net.ntop6 (same_bytes_lem a.addr6 b.addr6 (both_right _ _ (chosen h))))))
        (ap (host.betoh 2) (==_true (both_left _ _ (chosen h))))
    where
      chosen :
          is_self_connect host (some a) (some b) ≡ true
          → ((a.port == b.port) && same_bytes a.addr6 b.addr6) ≡ true
      chosen e =
          ap
            (λ f.
              if is_inet f
              then (a.port == b.port) && (a.word == b.word)
              else if is_inet6 f
              then (a.port == b.port) && same_bytes a.addr6 b.addr6
              else false)
            (sym fa)
          ∙ e

  -- Of two addresses of one family, `isSelfConnect` says that they are those of a connection to
  -- itself exactly when their texts, of IP address and port, are the same.
  pub is_self_connect_lem :
      a.family ≡ b.family → (is_self_connect host (some a) (some b) ≡ true) ↔ SameText
  is_self_connect_lem e = (text_of b.family e refl, connected_to_self b.family e refl)
