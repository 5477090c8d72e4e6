-- ===== src/Connection/Operation.antt =====
-- LuxPolaris/src/TCPConnection.cc: the methods of a connection as the steps of its life, called by
-- the application, by the loop that runs queued functors, and by the channel.
use lux_polaris.Prelude.{ℕ, Bool, List, Outcome, ok, ◌≡◌}
use lux_polaris.Buffer.Fill.{Reply}
use lux_polaris.Connection.{Connection, Written, send, sends_in_loop}
use lux_polaris.Connection.Closing.{
  shutdown, shuts_down_in_loop, force_close, force_close_with_delay, handle_close,
  forces_close_in_loop, starts_read_in_loop, stops_read_in_loop, start_read, stop_read,
  connect_established, connect_destroyed,
}
use lux_polaris.Connection.Handling.{handle_read, handle_write}

-- A call of a method, with what the system answers in it. The Boolean says whether the caller runs in
-- the loop's thread.
pub data Operation : Type 0 where
  sends : Bool → (List ℕ → Written) → List ℕ → Operation
  runs_send : (List ℕ → Written) → List ℕ → Operation
  shuts_down starts_read stops_read : Bool → Operation
  forces_close runs_shutdown runs_force_close runs_start_read runs_stop_read : Operation
  forces_close_after : ℕ → Operation
  establishes destroys closes : Operation
  reads : (ℕ → Reply) → Operation
  writes : (List ℕ → Written) → Operation

unfoldable pub step : Operation → Connection → Outcome Connection
step (sends in_loop write message) c = send in_loop write message c
step (runs_send write message) c = sends_in_loop write message c
step (shuts_down in_loop) c = ok (shutdown in_loop c)
step (starts_read in_loop) c = ok (start_read in_loop c)
step (stops_read in_loop) c = ok (stop_read in_loop c)
step forces_close c = ok (force_close c)
step runs_shutdown c = ok (shuts_down_in_loop c)
step runs_force_close c = forces_close_in_loop c
step runs_start_read c = ok (starts_read_in_loop c)
step runs_stop_read c = ok (stops_read_in_loop c)
step (forces_close_after seconds) c = ok (force_close_with_delay seconds c)
step establishes c = connect_established c
step destroys c = connect_destroyed c
step closes c = handle_close c
step (reads readv) c = handle_read readv c
step (writes write) c = handle_write write c

-- `c` becomes `d` by calls that all return.
pub data Reaches (c : Connection) : Connection → Type 0 where
  start : Reaches c c
  more : {d e : Connection} → Reaches c d → (o : Operation) → step o d ≡ ok e → Reaches c e
