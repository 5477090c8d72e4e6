-- ===== src/Client.antt =====
-- LuxPolaris/src/TCPClient.cc: the one connection of a client. What it gives to the connector and to
-- the loop stands in `log`, newest first; a connection is named by its number.
pub mod Session
pub mod Steady
pub mod Connecting
pub mod Reconnecting
use lux_polaris.Prelude.{
  ℕ, suc, Bool, true, false, ◌&&◌, List, [], ◌∷◌, Option, none, some, Outcome, ok, ◌>>◌, assert,
  if◌then◌else◌, holds,
}

pub data Action : Type 0 where
  starts_connector stops_connector restarts_connector runs_remove_connector : Action
  establishes shuts_down destroys force_closes redirects_close : ℕ → Action

pub record Client : Type 0 where
  pub retries : Bool
  pub connects : Bool
  pub next_conn_id : ℕ
  pub connection : Option ℕ
  pub log : List Action

-- The constructor.
abbrev pub new_client : Client
new_client = record {
  retries = false;
  connects = true;
  next_conn_id = 1;
  connection = none;
  log = [];
}

abbrev pub note : Action → Client → Client
note a c = record c { log = a ∷ c.log }

-- `enableRetry`
abbrev pub enable_retry : Client → Client
enable_retry c = record c { retries = true }

abbrev pub connect : Client → Client
connect c = note starts_connector (record c { connects = true })

abbrev pub shut : Option ℕ → Client → Client
shut none c = c
shut (some id) c = note (shuts_down id) c

abbrev pub disconnect : Client → Client
disconnect c = shut c.connection (record c { connects = false })

abbrev pub stop : Client → Client
stop c = note stops_connector (record c { connects = false })

-- `newConnection`, which runs in the loop's thread.
unfoldable pub new_connection : Client → Client
new_connection c =
    note (establishes c.next_conn_id)
      (record c { next_conn_id = suc c.next_conn_id; connection = some c.next_conn_id })

-- `removeConnection`, the close callback of the connection.
unfoldable pub remove_connection : ℕ → Client → Outcome Client
remove_connection id c = do
  assert (holds c.connection id)
  let gone : Client = note (destroys id) (record c { connection = none })
  ok (if gone.retries && gone.connects then note restarts_connector gone else gone)

-- The destructor; `unique` says that the client holds the last pointer to the connection.
abbrev pub give_up : Bool → Option ℕ → Client → Client
give_up unique none c = note runs_remove_connector (note stops_connector c)
give_up unique (some id) c =
    let redirected = note (redirects_close id) c in
    if unique then note (force_closes id) redirected else redirected

abbrev pub destruct : Bool → Client → Client
destruct unique c = give_up unique c.connection c
