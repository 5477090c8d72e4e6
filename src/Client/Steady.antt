-- ===== src/Client/Steady.antt =====
-- LuxPolaris/src/Connector.cc, behind a connection: the connector of a client that has connected.
use lux_polaris.Prelude.{
  ℕ, ◌<◌, ◌≡◌, refl, Bool, true, false, Outcome, ok, fault, assertion_failed, Holds, arith,
}
use lux_polaris.Connector as Connector
use lux_polaris.Connector.{Connector, Connected, is_connected, is_connecting, is_disconnected}
use lux_polaris.Client.Session.{handed}

-- A connector that has connected stays so, and its assertions let it do nothing but that.
abbrev pub Steady : Outcome Connector → Type 0
Steady o = Holds (λ k. is_connected k.state ≡ true) o

module _ (k : Connector) (up : is_connected k.state ≡ true) where
  not_disconnected : is_disconnected k.state ≡ false
  not_disconnected = ground (arith, up)

  not_connecting : is_connecting k.state ≡ false
  not_connecting = ground (arith, up)

  pub start_in_loop_aborts :
      (sockfd : ℕ) (result : Connected)
      → Connector.start_in_loop sockfd result k ≡ fault assertion_failed
  unfolding Connector.start_in_loop
  start_in_loop_aborts sockfd result = rw not_disconnected refl

  pub handle_write_aborts :
      (err self_connect : Bool) → Connector.handle_write err self_connect k ≡ fault assertion_failed
  unfolding Connector.handle_write
  handle_write_aborts err self_connect = rw not_connecting (rw not_disconnected refl)

  pub stop_in_loop_steady : Connector.stop_in_loop k ≡ ok k
  unfolding Connector.stop_in_loop
  stop_in_loop_steady = rw not_connecting refl

  pub handle_error_steady : Connector.handle_error k ≡ ok k
  unfolding Connector.handle_error
  handle_error_steady = rw not_connecting refl

start_aborts :
    (k : Connector) (sockfd : ℕ) (result : Connected)
    → is_connected k.state ≡ true
    → Connector.start true sockfd result k ≡ fault assertion_failed
unfolding Connector.start
start_aborts k sockfd result up =
    start_in_loop_aborts (record k { connect = true }) up sockfd result

-- A connector that has handed a socket over has connected.
pub handle_write_hands :
    (err self_connect : Bool) (k l : Connector)
    → Connector.handle_write err self_connect k ≡ ok l
    → handed k.log < handed l.log
    → is_connected l.state ≡ true
unfolding Connector.handle_write Connector.arrived Connector.remove_and_reset_channel
    Connector.retry
handle_write_hands err self_connect k l e h = ground (arith, e, h)

pub start-Steady :
    (in_loop : Bool) (sockfd : ℕ) (result : Connected) (k : Connector)
    → is_connected k.state ≡ true
    → Steady (Connector.start in_loop sockfd result k)
start-Steady true sockfd result k up = rw (start_aborts k sockfd result up) tt
start-Steady false sockfd result k up = unfold Connector.start in up
