-- ===== src/Connection/Ending.antt =====
-- LuxPolaris/src/TCPConnection.cc: what the calls of the application and of the channel do to the end
-- of a connection's life.
use lux_polaris.Prelude.{
  ℕ, ◌≤◌, ◌≡◌, refl, Bool, true, false, List, [], ◌∷◌, Outcome, ok, arith, Bool-cases, Holds,
  >>=-Holds, if-Holds, inl, inr,
}
use lux_polaris.Buffer.{Buffer}
use lux_polaris.Buffer.Fill.{Reply, failed, got, read_fd}
use lux_polaris.Channel.{is_none}
use lux_polaris.Connection.{
  is_disconnected, is_connecting, is_connected, Connection, Written, sends_in_loop, send,
}
use lux_polaris.Connection.Closing.{
  shutdown, shuts_down_in_loop, force_close, force_close_with_delay, handle_close,
  forces_close_in_loop, starts_read_in_loop, stops_read_in_loop, start_read, stop_read,
}
use lux_polaris.Connection.Handling.{handle_read, handle_write, after_read}
use lux_polaris.Connection.Operation.{
  Operation, sends, runs_send, shuts_down, starts_read, stops_read, forces_close, runs_shutdown,
  runs_force_close, runs_start_read, runs_stop_read, forces_close_after, establishes, destroys,
  closes, reads, writes, step,
}
use lux_polaris.Connection.Lifecycle.{closed}
use lux_polaris.Connection.Staying.{Stays, sends_in_loop-Stays, handle_write_live}

-- A closed connection waits for nothing.
abbrev pub Rests : Connection → Type 0
Rests c = is_disconnected c.state ≡ true → is_none c.events ≡ true

-- The calls that are not the owner's: all but `connectEstablished` and `connectDestroyed`. Reading is
-- not started on a connection that is closed.
abbrev pub Permitted : Operation → Connection → Type 0
Permitted establishes c = ⊥
Permitted destroys c = ⊥
Permitted (starts_read true) c = is_disconnected c.state ≡ false
Permitted runs_start_read c = is_disconnected c.state ≡ false
Permitted _ c = Unit {0}

-- What such a call leaves: a connection that is established neither more nor less than before, at
-- rest if it is closed, whose owner has been told no less.
pub record Goes (c d : Connection) : Type 0 where
  pub rests : Rests d
  pub same : is_connecting d.state ≡ is_connecting c.state
  pub told : closed c ≤ closed d
  pub still : c.registered ≡ true → d.registered ≡ true

goes : (c d : Connection) → Stays c d → Goes c d
goes c d s = record {
  rests = λ h. absurd (ground (arith, s.live));
  same = s.same;
  told = s.told;
  still = s.still;
}

Holds-Goes : (c : Connection) (o : Outcome Connection) → Holds (Stays c) o → Holds (Goes c) o
Holds-Goes c (ok d) s = goes c d s
Holds-Goes c (Outcome.fault f) s = tt

module _ (c : Connection) (r : Rests c) where
  unchanged : Goes c c
  unchanged = record { rests = r; same = refl; told = omega arith; still = λ h. h }

  sends_in_loop-Goes :
      (write : List ℕ → Written) (message : List ℕ) → Holds (Goes c) (sends_in_loop write message c)
  sends_in_loop-Goes write message = elim (Bool-cases (is_disconnected c.state)) [
    | inl gone ↦ closed_already gone
    | inr live ↦ Holds-Goes c _ (sends_in_loop-Stays c live write message)
  ]
    where
      closed_already :
          is_disconnected c.state ≡ true → Holds (Goes c) (sends_in_loop write message c)
      closed_already gone = unfold sends_in_loop in rw gone unchanged

  send-Goes :
      (in_loop : Bool) (write : List ℕ → Written) (message : List ℕ)
      → Holds (Goes c) (send in_loop write message c)
  unfolding send
  send-Goes true write message =
      if-Holds (Goes c) (is_connected c.state) _ _ (sends_in_loop-Goes write message) unchanged
  send-Goes false write message =
      if-Holds (Goes c) (is_connected c.state) _ _ (ground (arith, r)) unchanged

  shutdown-Goes : (a : Bool) → Goes c (shutdown a c)
  unfolding shutdown shuts_down_in_loop
  shutdown-Goes a = ground (arith, r)

  shuts_down_in_loop-Goes : Goes c (shuts_down_in_loop c)
  unfolding shuts_down_in_loop
  shuts_down_in_loop-Goes = ground (arith, r)

  starts_read_in_loop-Goes : is_disconnected c.state ≡ false → Goes c (starts_read_in_loop c)
  unfolding starts_read_in_loop
  starts_read_in_loop-Goes live = ground (arith, r, live)

  stops_read_in_loop-Goes : Goes c (stops_read_in_loop c)
  unfolding stops_read_in_loop
  stops_read_in_loop-Goes = ground (arith, r)

  stop_read-Goes : (a : Bool) → Goes c (stop_read a c)
  unfolding stop_read stops_read_in_loop
  stop_read-Goes a = ground (arith, r)

  force_close-Goes : Goes c (force_close c)
  unfolding force_close
  force_close-Goes = ground (arith, r)

  force_close_with_delay-Goes : (a : ℕ) → Goes c (force_close_with_delay a c)
  unfolding force_close_with_delay
  force_close_with_delay-Goes a = ground (arith, r)

  handle_close-Goes : Holds (Goes c) (handle_close c)
  unfolding handle_close
  handle_close-Goes = ground (arith, r)

  forces_close_in_loop-Goes : Holds (Goes c) (forces_close_in_loop c)
  unfolding forces_close_in_loop
  forces_close_in_loop-Goes =
      if-Holds (Goes c) _ (handle_close c) (ok c) handle_close-Goes unchanged

after_read-Goes :
    (c : Connection) (input : Buffer) (reply : Reply)
    → Rests c
    → Holds (Goes c) (after_read reply (record c { input = input }))
unfolding after_read handle_close
after_read-Goes c input (failed errno) r = ground (arith, r)
after_read-Goes c input (got []) r = ground (arith, r)
after_read-Goes c input (got (x ∷ xs)) r = ground (arith, r)

module _ (c : Connection) (r : Rests c) where
  handle_read-Goes : (readv : ℕ → Reply) → Holds (Goes c) (handle_read readv c)
  unfolding handle_read
  handle_read-Goes readv =
      >>=-Holds (Goes c) (read_fd readv c.input) _ (λ answer. after_read-Goes c answer.1 answer.0 r)

  handle_write_idle :
      (write : List ℕ → Written) → is_disconnected c.state ≡ true → handle_write write c ≡ ok c
  unfolding handle_write
  handle_write_idle write gone = ground (arith, r)

  handle_write-Goes : (write : List ℕ → Written) → Holds (Goes c) (handle_write write c)
  handle_write-Goes write = elim (Bool-cases (is_disconnected c.state)) [
    | inl gone ↦ rw (handle_write_idle write gone) (unchanged c r)
    | inr live ↦ Holds-Goes c _ (handle_write_live c live write)
  ]

  -- Every permitted call.
  pub step-Goes : (o : Operation) → Permitted o c → Holds (Goes c) (step o c)
  unfolding step
  step-Goes (sends in_loop write message) p = send-Goes c r in_loop write message
  step-Goes (runs_send write message) p = sends_in_loop-Goes c r write message
  step-Goes (shuts_down in_loop) p = shutdown-Goes c r in_loop
  step-Goes (starts_read true) p = unfold start_read in starts_read_in_loop-Goes c r p
  step-Goes (starts_read false) p = unfold start_read in ground (arith, r)
  step-Goes (stops_read in_loop) p = stop_read-Goes c r in_loop
  step-Goes forces_close p = force_close-Goes c r
  step-Goes runs_shutdown p = shuts_down_in_loop-Goes c r
  step-Goes runs_force_close p = forces_close_in_loop-Goes c r
  step-Goes runs_start_read p = starts_read_in_loop-Goes c r p
  step-Goes runs_stop_read p = stops_read_in_loop-Goes c r
  step-Goes (forces_close_after seconds) p = force_close_with_delay-Goes c r seconds
  step-Goes establishes p = absurd p
  step-Goes destroys p = absurd p
  step-Goes closes p = handle_close-Goes c r
  step-Goes (reads readv) p = handle_read-Goes readv
  step-Goes (writes write) p = handle_write-Goes write
