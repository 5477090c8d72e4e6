-- ===== src/Connection/Delaying.antt =====
-- LuxPolaris/src/TCPConnection.cc: a close that is asked for later, and the ends of a connection.
use lux_polaris.Prelude.{
  ℕ, suc, ◌≡◌, refl, Bool, true, ◌||◌, Option, none, some, Outcome, ok, assert, arith, update_self,
}
use lux_polaris.WeakCallback.{make_weak_callback, call}
use lux_polaris.Buffer.{retrieve_all}
use lux_polaris.Connection.{
  Connection, is_connected, is_disconnected, is_disconnecting, disconnecting, disconnected, note,
  queues, force_close_in_loop, close_callback, down, update_channel, set_state,
}
use lux_polaris.Channel.{disable_all}
use lux_polaris.Connection.Closing.{force_close, forces_close_in_loop, handle_close}
use lux_polaris.Connection.Lifecycle.{closed}

-- The destructor.
unfoldable pub destruct : Connection → Outcome (Unit {0})
destruct c = assert (is_disconnected c.state)

-- `defaultMessageCallback`
abbrev pub default_message_callback : Connection → Connection
default_message_callback c = record c { input = retrieve_all c.input }

-- `setWriteCompleteCallback`
abbrev pub set_write_complete_callback : Bool → Connection → Connection
set_write_complete_callback given c = record c { has_write_complete = given }

-- `setHighWaterMarkCallback`
abbrev pub set_high_water_mark_callback : Bool → ℕ → Connection → Connection
set_high_water_mark_callback given mark c = record c { has_high_water = given; high_water = mark }

-- What the timer of `forceCloseWithDelay` does to the connections that are alive when it fires.
unfoldable pub delay_over : ℕ → (ℕ → Option Connection) → ℕ → Option Connection
unfolding call
delay_over id = call (make_weak_callback id force_close)

-- Nothing happens to a connection that is gone when the delay is over.
pub delay_over-gone :
    (id : ℕ) (conns : ℕ → Option Connection) → conns id ≡ none → delay_over id conns ≡ conns
unfolding delay_over
delay_over-gone id conns gone = rw gone refl

-- A connection that is alive and not closed when the delay is over is closed by the functor that this
-- queues: its owner is told once more, and its destructor can come.
pub closes_after_delay :
    (id : ℕ) (conns : ℕ → Option Connection) (c : Connection)
    → (is_connected c.state || is_disconnecting c.state) ≡ true
    → conns id ≡ some c
    → (d e : Connection) × (delay_over id conns id ≡ some d)
      × (forces_close_in_loop d ≡ ok e)
      × (destruct e ≡ ok tt)
      × (closed e ≡ suc (closed c))
unfolding delay_over force_close forces_close_in_loop handle_close destruct
closes_after_delay id conns c open_ there = (
  later,
  note close_callback (note down (update_channel disable_all (set_state disconnected later))),
  rw there (rw (update_self conns id (some (force_close c))) (ground (arith, open_))),
  refl,
  refl,
  omega arith,
)
  where
    later : Connection
    later = note (queues force_close_in_loop) (set_state disconnecting c)
