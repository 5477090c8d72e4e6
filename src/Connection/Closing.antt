-- ===== src/Connection/Closing.antt =====
-- LuxPolaris/src/TCPConnection.cc: how a connection is established, stops reading, and is closed.
use lux_polaris.Prelude.{ℕ, Bool, true, false, not, ◌||◌, Outcome, ok, ◌>>◌, assert, if◌then◌else◌}
use lux_polaris.Channel.{is_none, is_reading, enable_reading, disable_reading, disable_all}
use lux_polaris.Connection.{
  Connection, connected, disconnecting, disconnected, is_connected, is_disconnecting, is_connecting,
  queues, shutdown_in_loop, force_close_in_loop, force_close_after, start_read_in_loop,
  stop_read_in_loop, up, down, close_callback, shutdown_write, remove_channel, note, set_state,
  update_channel, writing,
}

unfoldable pub shuts_down_in_loop : Connection → Connection
shuts_down_in_loop c = if not (writing c) then note shutdown_write c else c

-- `runInLoop` calls at once in the loop's thread, and queues in another.
unfoldable pub shutdown : Bool → Connection → Connection
unfolding shuts_down_in_loop
shutdown in_loop c =
    if is_connected c.state
    then (let closing = set_state disconnecting c in
        if in_loop then shuts_down_in_loop closing else note (queues shutdown_in_loop) closing)
    else c

unfoldable pub force_close : Connection → Connection
force_close c =
    if is_connected c.state || is_disconnecting c.state
    then note (queues force_close_in_loop) (set_state disconnecting c)
    else c

unfoldable pub force_close_with_delay : ℕ → Connection → Connection
force_close_with_delay seconds c =
    if is_connected c.state || is_disconnecting c.state
    then note (queues (force_close_after seconds)) (set_state disconnecting c)
    else c

unfoldable pub handle_close : Connection → Outcome Connection
handle_close c = do
  assert (is_connected c.state || is_disconnecting c.state)
  ok (note close_callback (note down (update_channel disable_all (set_state disconnected c))))

unfoldable pub forces_close_in_loop : Connection → Outcome Connection
unfolding handle_close
forces_close_in_loop c =
    if is_connected c.state || is_disconnecting c.state then handle_close c else ok c

unfoldable pub starts_read_in_loop : Connection → Connection
starts_read_in_loop c =
    if not c.reading || not (is_reading c.events)
    then record (update_channel enable_reading c) { reading = true }
    else c

unfoldable pub stops_read_in_loop : Connection → Connection
stops_read_in_loop c =
    if c.reading || is_reading c.events
    then record (update_channel disable_reading c) { reading = false }
    else c

unfoldable pub start_read : Bool → Connection → Connection
unfolding starts_read_in_loop
start_read in_loop c = if in_loop then starts_read_in_loop c else note (queues start_read_in_loop) c

unfoldable pub stop_read : Bool → Connection → Connection
unfolding stops_read_in_loop
stop_read in_loop c = if in_loop then stops_read_in_loop c else note (queues stop_read_in_loop) c

unfoldable pub connect_established : Connection → Outcome Connection
connect_established c = do
  assert (is_connecting c.state)
  ok (note up (update_channel enable_reading (set_state connected c)))

-- `channel_->remove()` asserts that the channel waits for nothing and that the poller has it. A loop runs
-- `connectDestroyed` from its functors, where it handles no event, so that the assertion of
-- `removeChannel` about the active channels says nothing.
unfoldable pub connect_destroyed : Connection → Outcome Connection
connect_destroyed c = do
  let closed : Connection =
      if is_connected c.state
      then note down (update_channel disable_all (set_state disconnected c))
      else c
  assert (is_none closed.events)
  assert closed.registered
  ok (note remove_channel (record closed { registered = false }))
