-- ===== src/Connector.antt =====
-- LuxPolaris/src/Connector.cc: one non-blocking connect(2), tried again with a growing delay. What it
-- does to the outside stands in `log`, newest first. The descriptor and the error that the system
-- returns are arguments. What the loop was given to run is a later call of a function.
pub mod Sockets
pub mod Delay
use lux_polaris.Prelude.{
  ℕ, ◌*◌, Bool, true, false, not, List, [], ◌∷◌, Option, none, some, is_some, Outcome, ok, fault,
  null_pointer, ◌>>=◌, ◌>>◌, assert, if◌then◌else◌, min,
}

-- `States`
pub data State : Type 0 where
  disconnected connecting connected : State

abbrev pub is_disconnected : State → Bool
is_disconnected disconnected = true
is_disconnected _ = false

abbrev pub is_connecting : State → Bool
is_connecting connecting = true
is_connecting _ = false

abbrev pub is_connected : State → Bool
is_connected connected = true
is_connected _ = false

-- `runs_after` gives `startInLoop` to the loop's timers, with the delay in milliseconds.
pub data Action : Type 0 where
  opens closes hands_over : ℕ → Action
  queues_start queues_stop queues_reset : Action
  runs_after : ℕ → Action

-- `channel` is the descriptor of `channel_`, and `watching` says whether it waits for an event.
pub record Connector : Type 0 where
  pub connect : Bool
  pub state : State
  pub retry_delay_ms : ℕ
  pub channel : Option ℕ
  pub watching : Bool
  pub log : List Action

-- `kMaxRetryDelayMs`
abbrev pub max_retry_delay_ms : ℕ
max_retry_delay_ms = 30 * 1000

-- `kInitRetryDelayMs`
abbrev pub init_retry_delay_ms : ℕ
init_retry_delay_ms = 500

abbrev pub new_connector : Connector
new_connector = record {
  connect = false;
  state = disconnected;
  retry_delay_ms = init_retry_delay_ms;
  channel = none;
  watching = false;
  log = [];
}

-- The destructor.
unfoldable pub destruct : Connector → Outcome (Unit {0})
destruct c = assert (not (is_some c.channel))

-- What connect(2) returns: 0, or the error that `savedErrno` holds.
pub data Connected : Type 0 where
  success in_progress interrupted already_connected : Connected
  again address_in_use address_not_available connection_refused network_unreachable : Connected
  access not_permitted family_not_supported already bad_descriptor bad_address not_a_socket :
      Connected
  unexpected : ℕ → Connected

abbrev pub note : Action → Connector → Connector
note a c = record c { log = a ∷ c.log }

unfoldable pub retry : ℕ → Connector → Connector
retry sockfd c =
    let gone : Connector = record (note (closes sockfd) c) { state = disconnected } in
    if gone.connect
    then record (note (runs_after gone.retry_delay_ms) gone) {
      retry_delay_ms = min (gone.retry_delay_ms * 2) max_retry_delay_ms;
    }
    else gone

-- `connecting`; the assertion is that no channel is left.
unfoldable pub awaits_connection : ℕ → Connector → Outcome Connector
awaits_connection sockfd c = do
  assert (not (is_some c.channel))
  ok (record c { state = connecting; channel = some sockfd; watching = true })

-- The switch of `connect`, behind the two system calls.
unfoldable pub connect_returned : ℕ → Connected → Connector → Outcome Connector
unfolding retry awaits_connection
connect_returned sockfd success c = awaits_connection sockfd c
connect_returned sockfd in_progress c = awaits_connection sockfd c
connect_returned sockfd interrupted c = awaits_connection sockfd c
connect_returned sockfd already_connected c = awaits_connection sockfd c
connect_returned sockfd again c = ok (retry sockfd c)
connect_returned sockfd address_in_use c = ok (retry sockfd c)
connect_returned sockfd address_not_available c = ok (retry sockfd c)
connect_returned sockfd connection_refused c = ok (retry sockfd c)
connect_returned sockfd network_unreachable c = ok (retry sockfd c)
connect_returned sockfd access c = ok (note (closes sockfd) c)
connect_returned sockfd not_permitted c = ok (note (closes sockfd) c)
connect_returned sockfd family_not_supported c = ok (note (closes sockfd) c)
connect_returned sockfd already c = ok (note (closes sockfd) c)
connect_returned sockfd bad_descriptor c = ok (note (closes sockfd) c)
connect_returned sockfd bad_address c = ok (note (closes sockfd) c)
connect_returned sockfd not_a_socket c = ok (note (closes sockfd) c)
connect_returned sockfd (unexpected errno) c = ok (note (closes sockfd) c)

-- `connect`
unfoldable pub connects : ℕ → Connected → Connector → Outcome Connector
unfolding connect_returned
connects sockfd result c = connect_returned sockfd result (note (opens sockfd) c)

unfoldable pub start_in_loop : ℕ → Connected → Connector → Outcome Connector
unfolding connects
start_in_loop sockfd result c = do
  assert (is_disconnected c.state)
  if c.connect then connects sockfd result c else ok c

-- `runInLoop` calls at once in the loop's thread, and queues in another.
unfoldable pub start : Bool → ℕ → Connected → Connector → Outcome Connector
unfolding start_in_loop
start in_loop sockfd result c =
    let wanted : Connector = record c { connect = true } in
    if in_loop then start_in_loop sockfd result wanted else ok (note queues_start wanted)

unfoldable pub stop : Connector → Connector
stop c = note queues_stop (record c { connect = false })

-- Without a channel the source follows a null pointer.
unfoldable pub remove_and_reset_channel : Connector → Outcome (ℕ × Connector)
remove_and_reset_channel c = elim c.channel [
  | none ↦ fault null_pointer
  | some sockfd ↦ ok (sockfd, note queues_reset (record c { watching = false }))
]

unfoldable pub reset_channel : Connector → Connector
reset_channel c = record c { channel = none }

unfoldable pub stop_in_loop : Connector → Outcome Connector
unfolding retry remove_and_reset_channel
stop_in_loop c =
    if is_connecting c.state
    then (do
      (sockfd, c') ← remove_and_reset_channel (record c { state = disconnected })
      ok (retry sockfd c'))
    else ok c

unfoldable pub restart : ℕ → Connected → Connector → Outcome Connector
unfolding start_in_loop
restart sockfd result c =
    start_in_loop sockfd result
      (record c { state = disconnected; retry_delay_ms = init_retry_delay_ms; connect = true })

-- The connection is there: `err` is SO_ERROR (0 for none).
unfoldable pub arrived : Bool → Bool → ℕ → Connector → Connector
unfolding retry
arrived err self_connect sockfd c =
    if err
    then retry sockfd c
    else if self_connect
    then retry sockfd c
    else (let up : Connector = record c { state = connected } in
        if up.connect then note (hands_over sockfd) up else note (closes sockfd) up)

unfoldable pub handle_write : Bool → Bool → Connector → Outcome Connector
unfolding arrived remove_and_reset_channel
handle_write err self_connect c =
    if is_connecting c.state
    then (do (sockfd, c') ← remove_and_reset_channel c; ok (arrived err self_connect sockfd c'))
    else (do assert (is_disconnected c.state); ok c)

unfoldable pub handle_error : Connector → Outcome Connector
unfolding retry remove_and_reset_channel
handle_error c =
    if is_connecting c.state
    then (do (sockfd, c') ← remove_and_reset_channel c; ok (retry sockfd c'))
    else ok c
