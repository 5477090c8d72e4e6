-- ===== src/Client/Reconnecting.antt =====
-- LuxPolaris/src/TCPClient.cc: a client whose connection was closed connects again.
use lux_polaris.Prelude.{
  ℕ, ◌≡◌, refl, sym, ap, ◌∙◌, subst, true, false, none, some, ok, fault, assertion_failed,
  ok_injective, arith, ltb,
}
use lux_polaris.Connector as Connector
use lux_polaris.Connector.{Connector, Connected, is_connected, is_connecting, is_disconnected}
use lux_polaris.Client as Client
use lux_polaris.Client.{Client}
use lux_polaris.Client.Session.{
  Session, begins, restarts, close_connection, connects, runs_start, with_connector, step, Reaches,
}
use lux_polaris.Client.Steady.{start_in_loop_aborts}
use lux_polaris.Client.Connecting.{remove_connection_lem, close_connection_as, Reaches-Linked}

closes_once :
    (s t : Session) (id sockfd : ℕ) (result : Connected)
    → s.client.connection ≡ some id
    → s.client.retries ≡ false
    → close_connection id sockfd result s ≡ ok t
    → t.connector ≡ s.connector
closes_once s t id sockfd result e once returns =
    let (d, removes, (gone, next, same, one_more, quiet)) = remove_connection_lem id s.client e in
    ap (λ r. r.connector) (sym (ok_injective (sym (plain d (quiet once) removes) ∙ returns)))
  where
    quiet_log :
        (d : Client)
        → restarts d.log ≡ restarts s.client.log
        → ltb (restarts s.client.log) (restarts d.log) ≡ false
    quiet_log d same = ground (arith, same)

    plain :
        (d : Client)
        → restarts d.log ≡ restarts s.client.log
        → Client.remove_connection id s.client ≡ ok d
        → close_connection id sockfd result s
          ≡ ok (record { client = d; connector = s.connector; open_one = none })
    plain d same removes =
        rw (close_connection_as id sockfd result s d removes) (rw (quiet_log d same) refl)

-- A client that does not retry cannot connect a second time: when its connection was closed its
-- connector is still in the state of having connected, and the assertion in `startInLoop` fails,
-- whether `connect` is called in the loop's thread or queued by another.
pub connect_again_aborts :
    {s t : Session} {id : ℕ} (sockfd : ℕ) (result : Connected)
    → Reaches begins s
    → s.open_one ≡ some id
    → s.client.retries ≡ false
    → close_connection id sockfd result s ≡ ok t
    → (new_sockfd : ℕ) (new_result : Connected)
    → (step (connects true new_sockfd new_result) t ≡ fault assertion_failed)
      × (u : Session) × (step (connects false new_sockfd new_result) t ≡ ok u)
      × (step (runs_start new_sockfd new_result) u ≡ fault assertion_failed)
unfolding step Connector.start
connect_again_aborts {s} {t} {id} sockfd result reached e once returns fd r =
    (aborts, queued, refl, aborts_later)
  where
    same : t.connector ≡ s.connector
    same = closes_once s t id sockfd result ((Reaches-Linked reached).held ∙ e) once returns

    up : is_connected t.connector.state ≡ true
    up =
        subst (λ k. is_connected k.state ≡ true) (sym same)
          ((Reaches-Linked reached).done (rw e refl))

    wanted : Connector
    wanted = record t.connector { connect = true }

    queued : Session
    queued = record t {
      client = Client.connect t.client;
      connector = Connector.note Connector.queues_start wanted;
    }

    aborts : step (connects true fd r) t ≡ fault assertion_failed
    aborts =
        ap (with_connector (record t { client = Client.connect t.client }))
          (start_in_loop_aborts wanted up fd r)

    aborts_later : step (runs_start fd r) queued ≡ fault assertion_failed
    aborts_later = ap (with_connector queued) (start_in_loop_aborts queued.connector up fd r)
