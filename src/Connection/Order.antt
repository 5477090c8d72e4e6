-- ===== src/Connection/Order.antt =====
-- LuxPolaris/src/TCPConnection.cc: the order of the bytes over a whole run of a connection.
use lux_polaris.Prelude.{
  ℕ, ◌≡◌, refl, ap, ◌∙◌, subst, true, false, List, ◌++◌, append_assoc, Outcome, ok, Holds,
}
use lux_polaris.Buffer.Fill.{requested}
use lux_polaris.Connection.{Connection}
use lux_polaris.Connection.Invariant.{stream}
use lux_polaris.Connection.Operation.{
  Operation, sends, runs_send, shuts_down, starts_read, stops_read, forces_close, runs_shutdown,
  runs_force_close, runs_start_read, runs_stop_read, forces_close_after, establishes, destroys,
  closes, reads, writes, step,
}
use lux_polaris.Connection.Runs.{passed, Fits, Runs, begins, goes_on, Whole, Kept, unmoved}
use lux_polaris.Connection.Sending.{sends_in_loop-Kept}
use lux_polaris.Connection.Keeping.{
  send-Kept, shuts_down_in_loop-Kept, shutdown-Kept, start_read-Kept, handle_close-Kept,
  forces_close_in_loop-Kept, force_close-Kept, force_close_with_delay-Kept,
  starts_read_in_loop-Kept, stops_read_in_loop-Kept, stop_read-Kept, connect_established-Kept,
  connect_destroyed-Kept, handle_read-Kept, handle_write-Kept,
}

module _ {c : Connection} (w : Whole c) where
  step-Kept : (o : Operation) → Fits o c → Holds (Kept c (passed o c)) (step o c)
  unfolding step
  step-Kept (sends true write message) fits = send-Kept w true write message fits
  step-Kept (sends false write message) fits = send-Kept w false write message fits
  step-Kept (runs_send write message) (takes, room) =
      sends_in_loop-Kept c w write message takes room
  step-Kept (shuts_down in_loop) fits = shutdown-Kept w in_loop
  step-Kept (starts_read in_loop) fits = start_read-Kept w in_loop
  step-Kept (stops_read in_loop) fits = stop_read-Kept w in_loop
  step-Kept forces_close fits = force_close-Kept w
  step-Kept runs_shutdown fits = shuts_down_in_loop-Kept w
  step-Kept runs_force_close fits = forces_close_in_loop-Kept w
  step-Kept runs_start_read fits = starts_read_in_loop-Kept w
  step-Kept runs_stop_read fits = stops_read_in_loop-Kept w
  step-Kept (forces_close_after seconds) fits = force_close_with_delay-Kept w seconds
  step-Kept establishes fits = connect_established-Kept w
  step-Kept destroys fits = connect_destroyed-Kept w
  step-Kept closes fits = handle_close-Kept w
  step-Kept (reads readv) fits = handle_read-Kept w readv (readv (requested c.input)) refl fits
  step-Kept (writes write) fits = handle_write-Kept w write fits

returned :
    (d : Connection) {e : Connection} (bytes : List ℕ) (o : Outcome Connection)
    → Holds (Kept d bytes) o
    → o ≡ ok e
    → Kept d bytes e
returned d bytes o holds e = subst (Holds (Kept d bytes)) e holds

then_Kept :
    (c d e : Connection) (bytes more : List ℕ)
    → Kept c bytes d
    → Kept d more e
    → Kept c (bytes ++ more) e
then_Kept c d e bytes more (w, all) (w', all') =
    (w', all' ∙ ap (λ s. s ++ more) all ∙ append_assoc (stream c) bytes more)

-- In every run of a connection, whatever is called in whatever order and whatever part of the bytes
-- the socket takes at each time, what the socket took, with what waits in the output buffer behind
-- it, is what it was at the start followed by all messages that were accepted, each whole and in
-- order. The connection stays valid: it waits for the socket to be writable exactly while bytes are
-- pending, and for nothing to be writable once it is closed.
pub runs_lem :
    {c d : Connection} {bytes : List ℕ}
    → Whole c
    → Runs c d bytes
    → Whole d × (stream d ≡ stream c ++ bytes)
runs_lem {c = c} w begins = unmoved c c w refl refl
runs_lem {c = c} w (goes_on {d} {e} {bytes} before o fits returns) =
    let (w', all) = runs_lem w before in
    then_Kept c d e bytes (passed o d) (w', all)
      (returned d (passed o d) (step o d) (step-Kept w' o fits) returns)
