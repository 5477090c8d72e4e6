-- ===== src/Connection/Reopening.antt =====
-- LuxPolaris/src/TCPConnection.cc: reading that is started on a connection which is not up.
use lux_polaris.Channel.{is_reading}
use lux_polaris.Prelude.{◌≡◌, Bool, true, false, fault, assertion_failed, arith}
use lux_polaris.Connection.{Connection, is_connected}
use lux_polaris.Connection.Closing.{
  starts_read_in_loop, connect_destroyed, shutdown, shuts_down_in_loop,
}

-- `startReadInLoop` does not look at the state. When it runs on a connection that is not up, such as
-- one that was closed in the meantime, the assertion of `channel_->remove()` fails in
-- `connectDestroyed`.
pub start_read_aborts :
    (c : Connection)
    → is_connected c.state ≡ false
    → connect_destroyed (starts_read_in_loop c) ≡ fault assertion_failed
unfolding starts_read_in_loop connect_destroyed
start_read_aborts c h = ground (arith, h)

-- `connectDestroyed` takes a connection down only if it is connected. When it runs on one that is
-- being shut down and still reads, which is what the destructor of a server gives to the loops for a
-- connection whose peer has not closed yet, the assertion of `channel_->remove()` fails.
pub shutdown_destroyed_aborts :
    (in_loop : Bool) (c : Connection)
    → is_connected c.state ≡ true
    → is_reading c.events ≡ true
    → connect_destroyed (shutdown in_loop c) ≡ fault assertion_failed
unfolding shutdown shuts_down_in_loop connect_destroyed
shutdown_destroyed_aborts in_loop c up reads = ground (arith, up, reads)

-- `connectDestroyed` fails on a connection that came to its end too early: one that was closed, where
-- reading was started again behind that, and one that reads and was told to shut down, whose peer has
-- not closed it yet.
pub destroyed_early_aborts :
    (in_loop : Bool) (closed open_ : Connection)
    → is_connected closed.state ≡ false
    → is_connected open_.state ≡ true
    → is_reading open_.events ≡ true
    → (connect_destroyed (starts_read_in_loop closed) ≡ fault assertion_failed)
      × (connect_destroyed (shutdown in_loop open_) ≡ fault assertion_failed)
destroyed_early_aborts in_loop closed open_ down up reads =
    (start_read_aborts closed down, shutdown_destroyed_aborts in_loop open_ up reads)
