-- ===== src/Client/Session.antt =====
-- LuxPolaris/src/TCPClient.cc with Connector.cc: a client, its connector and its connection, as the
-- calls of the application and the events of the loop come.
use lux_polaris.Prelude.{
  ℕ, ◌+◌, ◌≡◌, Bool, List, [], ◌∷◌, Option, none, some, Outcome, ok, ◌>>=◌, if◌then◌else◌, ltb,
}
use lux_polaris.Connector as Connector
use lux_polaris.Connector.{Connector, Connected}
use lux_polaris.Client as Client
use lux_polaris.Client.{Client}

-- `open_one` is the connection that was established and whose close callback has not been called.
pub record Session : Type 0 where
  pub client : Client
  pub connector : Connector
  pub open_one : Option ℕ

abbrev pub begins : Session
begins = record { client = Client.new_client; connector = Connector.new_connector; open_one = none }

abbrev pub handed : List Connector.Action → ℕ
handed [] = 0
handed (Connector.hands_over fd ∷ log) = 1 + handed log
handed (_ ∷ log) = handed log

abbrev pub restarts : List Client.Action → ℕ
restarts [] = 0
restarts (Client.restarts_connector ∷ log) = 1 + restarts log
restarts (_ ∷ log) = restarts log

-- A connector that hands a socket over calls `newConnection` of its client.
unfoldable pub tell_client : Connector → Connector → Session → Session
tell_client before after s =
    if ltb (handed before.log) (handed after.log)
    then record {
      client = Client.new_connection s.client;
      connector = after;
      open_one = some s.client.next_conn_id;
    }
    else record s { connector = after }

-- The connection calls its close callback, `removeConnection`; the connector is restarted in it if the
-- client wants it.
unfoldable pub close_connection : ℕ → ℕ → Connected → Session → Outcome Session
close_connection id sockfd result s = do
  client ← Client.remove_connection id s.client
  connector ←
      (if ltb (restarts s.client.log) (restarts client.log)
        then Connector.restart sockfd result s.connector
        else ok s.connector)
  ok (record { client = client; connector = connector; open_one = none })

-- A call of the client, in the loop's thread or not, or what the loop runs of the connector; with what
-- the system answers in it.
pub data Event : Type 0 where
  connects : Bool → ℕ → Connected → Event
  enables_retry disconnects stops runs_stop runs_reset fails : Event
  runs_start : ℕ → Connected → Event
  writable : Bool → Bool → Event

abbrev pub with_connector : Session → Outcome Connector → Outcome Session
with_connector s o = o >>= λ connector. ok (record s { connector = connector })

unfoldable pub step : Event → Session → Outcome Session
unfolding tell_client
step (connects in_loop sockfd result) s =
    with_connector (record s { client = Client.connect s.client })
      (Connector.start in_loop sockfd result s.connector)
step enables_retry s = ok (record s { client = Client.enable_retry s.client })
step disconnects s = ok (record s { client = Client.disconnect s.client })
step stops s =
    ok (record s { client = Client.stop s.client; connector = Connector.stop s.connector })
step runs_stop s = with_connector s (Connector.stop_in_loop s.connector)
step runs_reset s = ok (record s { connector = Connector.reset_channel s.connector })
step fails s = with_connector s (Connector.handle_error s.connector)
step (runs_start sockfd result) s =
    with_connector s (Connector.start_in_loop sockfd result s.connector)
step (writable err self_connect) s =
    Connector.handle_write err self_connect s.connector >>= λ connector.
    ok (tell_client s.connector connector s)

-- Runs in which no assertion fails.
pub data Reaches (s : Session) : Session → Type 0 where
  start : Reaches s s
  happens : {t u : Session} → Reaches s t → (e : Event) → step e t ≡ ok u → Reaches s u
  closes :
      {t u : Session} {id : ℕ}
      → Reaches s t
      → t.open_one ≡ some id
      → (sockfd : ℕ) (result : Connected) → close_connection id sockfd result t ≡ ok u
      → Reaches s u
