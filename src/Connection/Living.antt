-- ===== src/Connection/Living.antt =====
-- LuxPolaris/src/TCPConnection.cc: every call of a method keeps the order of a connection's life.
use lux_polaris.Prelude.{
  take, drop, ℕ, ◌≤◌, ◌≡◌, subst, Bool, true, false, List, [], ◌∷◌, ◌++◌, Outcome, ok, arith,
  if◌then◌else◌, Bool-cases, Holds, >>=-Holds, if-Holds, inl, inr, ltb, ◌==◌, not, ◌&&◌, assert,
}
use lux_polaris.Buffer.{Buffer, readable_bytes, retrieve, to_string_piece}
use lux_polaris.Buffer.Fill.{Reply, failed, got, read_fd}
use lux_polaris.Connection.{
  is_disconnected, is_connected, send_in_loop, Connection, queues, Written, wrote, refused, note,
  attempt, writing, keep_rest, sends_in_loop, send, Attempt,
}
use lux_polaris.Connection.Closing.{
  shutdown, shuts_down_in_loop, force_close, force_close_with_delay, handle_close,
  forces_close_in_loop, starts_read_in_loop, stops_read_in_loop, start_read, stop_read,
  connect_established, connect_destroyed,
}
use lux_polaris.Connection.Handling.{
  handle_read, handle_write, after_read, written, wrote_some, drained,
}
use lux_polaris.Connection.Operation.{
  Operation, sends, runs_send, shuts_down, starts_read, stops_read, forces_close, runs_shutdown,
  runs_force_close, runs_start_read, runs_stop_read, forces_close_after, establishes, destroys,
  closes, reads, writes, step, Reaches, start, more,
}
use lux_polaris.Connection.Lifecycle.{
  rank, Lived, Next, attempt-Next, shuts_down_in_loop-Next, handle_close-Next, drained-Next,
  Next-keep_rest,
}

module _ {c : Connection} (v : Lived c) where
  sends_in_loop-Next :
      (write : List ℕ → Written) (message : List ℕ)
      → Holds (Next (rank c.state)) (sends_in_loop write message c)
  unfolding sends_in_loop
  sends_in_loop-Next write message = elim (Bool-cases (is_disconnected c.state)) [
    | inl gone ↦ rw gone (v, omega arith)
    | inr live ↦ rw live (>>=-Holds (Next (rank c.state)) (assert _) _ (λ checked. behind))
  ]
    where
      tried : Attempt
      tried = attempt write message c

      now : Next (rank c.state) tried.conn
      now = attempt-Next v (rank c.state) (omega arith) write message

      behind : Holds (Next (rank c.state)) (
          if not tried.fault_error && ltb 0 tried.remaining
          then keep_rest (drop tried.nwrote message) tried.remaining tried.conn
          else ok tried.conn)
      behind = elim (Bool-cases (not tried.fault_error && ltb 0 tried.remaining)) [
        | inl rest ↦ rw rest (Next-keep_rest (rank c.state) now _ _)
        | inr none_left ↦ rw none_left now
      ]

  connect_established-Next : Holds (Next (rank c.state)) (connect_established c)
  unfolding connect_established
  connect_established-Next = ground (arith, v)

  connect_destroyed-Next : Holds (Next (rank c.state)) (connect_destroyed c)
  unfolding connect_destroyed
  connect_destroyed-Next = ground (arith, v)

  after_read-Next :
      (reply : Reply) (input : Buffer)
      → Holds (Next (rank c.state)) (after_read reply (record c { input = input }))
  unfolding after_read
  after_read-Next (failed errno) input = ground (arith, v)
  after_read-Next (got []) input =
      handle_close-Next {c = record c { input = input }} (ground (arith, v)) (rank c.state)
        (omega arith)
  after_read-Next (got (x ∷ xs)) input = ground (arith, v)

  handle_read-Next : (readv : ℕ → Reply) → Holds (Next (rank c.state)) (handle_read readv c)
  unfolding handle_read
  handle_read-Next readv =
      >>=-Holds (Next (rank c.state)) (read_fd readv c.input) _
        (λ answer. after_read-Next answer.0 answer.1)

  drained_on :
      (output : Buffer) (socket : List ℕ)
      → Next (rank c.state) (drained (record c { output = output; socket = socket }))
  drained_on output socket = drained-Next (ground (arith, v)) (rank c.state) (omega arith)

  wrote_some-Next : (n : ℕ) (bytes : List ℕ) → Holds (Next (rank c.state)) (wrote_some n bytes c)
  unfolding wrote_some
  wrote_some-Next n bytes = >>=-Holds (Next (rank c.state)) (retrieve n c.output) _ (λ output.
      elim (Bool-cases (readable_bytes output == 0)) [
        | inl empty ↦ rw empty (drained_on output (c.socket ++ take n bytes))
        | inr some_left ↦ rw some_left (ground (arith, v))
      ])

  written-Next : (bytes : List ℕ) (w : Written) → Holds (Next (rank c.state)) (written bytes w c)
  unfolding written
  written-Next bytes (refused e) = (v, omega arith)
  written-Next bytes (wrote n) = elim (Bool-cases (ltb 0 n)) [
    | inl some_out ↦ rw some_out (wrote_some-Next n bytes)
    | inr none_out ↦ rw none_out (v, omega arith)
  ]

  handle_write-Next :
      (write : List ℕ → Written) → Holds (Next (rank c.state)) (handle_write write c)
  unfolding handle_write
  handle_write-Next write =
      if-Holds (Next (rank c.state)) (writing c) _ _
        (>>=-Holds (Next (rank c.state)) (to_string_piece c.output) _
          (λ bytes. written-Next bytes (write bytes)))
        (v, omega arith)

  shutdown-Next : (a : Bool) → Next (rank c.state) (shutdown a c)
  unfolding shutdown shuts_down_in_loop
  shutdown-Next a = (ground (arith, v), ground arith)

  starts_read_in_loop-Next : Next (rank c.state) (starts_read_in_loop c)
  unfolding starts_read_in_loop
  starts_read_in_loop-Next = (ground (arith, v), ground arith)

  stops_read_in_loop-Next : Next (rank c.state) (stops_read_in_loop c)
  unfolding stops_read_in_loop
  stops_read_in_loop-Next = (ground (arith, v), ground arith)

  start_read-Next : (a : Bool) → Next (rank c.state) (start_read a c)
  unfolding start_read starts_read_in_loop
  start_read-Next a = (ground (arith, v), ground arith)

  stop_read-Next : (a : Bool) → Next (rank c.state) (stop_read a c)
  unfolding stop_read stops_read_in_loop
  stop_read-Next a = (ground (arith, v), ground arith)

  force_close-Next : Next (rank c.state) (force_close c)
  unfolding force_close
  force_close-Next = (ground (arith, v), ground arith)

  force_close_with_delay-Next : (a : ℕ) → Next (rank c.state) (force_close_with_delay a c)
  unfolding force_close_with_delay
  force_close_with_delay-Next a = (ground (arith, v), ground arith)

  forces_close_in_loop-Next : Holds (Next (rank c.state)) (forces_close_in_loop c)
  unfolding forces_close_in_loop handle_close
  forces_close_in_loop-Next = ground (arith, v)

  send-Next :
      (in_loop : Bool) (write : List ℕ → Written) (message : List ℕ)
      → Holds (Next (rank c.state)) (send in_loop write message c)
  unfolding send
  send-Next in_loop write message = elim (Bool-cases (is_connected c.state)) [
    | inl up_now ↦ rw up_now (in_thread in_loop)
    | inr not_up ↦ rw not_up (v, omega arith)
  ]
    where
      in_thread :
          (b : Bool)
          → Holds (Next (rank c.state)) (
              if b
              then sends_in_loop write message c
              else ok (note (queues (send_in_loop message)) c))
      in_thread true = sends_in_loop-Next write message
      in_thread false = ground (arith, v)

  -- A call keeps `Lived`, and never goes back in the order of the states.
  step-Next : (o : Operation) → Holds (Next (rank c.state)) (step o c)
  unfolding step
  step-Next (sends in_loop write message) = send-Next in_loop write message
  step-Next (runs_send write message) = sends_in_loop-Next write message
  step-Next (shuts_down in_loop) = shutdown-Next in_loop
  step-Next (starts_read in_loop) = start_read-Next in_loop
  step-Next (stops_read in_loop) = stop_read-Next in_loop
  step-Next forces_close = force_close-Next
  step-Next runs_shutdown = shuts_down_in_loop-Next v (rank c.state) (omega arith)
  step-Next runs_force_close = forces_close_in_loop-Next
  step-Next runs_start_read = starts_read_in_loop-Next
  step-Next runs_stop_read = stops_read_in_loop-Next
  step-Next (forces_close_after seconds) = force_close_with_delay-Next seconds
  step-Next establishes = connect_established-Next
  step-Next destroys = connect_destroyed-Next
  step-Next closes = handle_close-Next v (rank c.state) (omega arith)
  step-Next (reads readv) = handle_read-Next readv
  step-Next (writes write) = handle_write-Next write

returned-Next :
    {d : Connection} (low : ℕ) (o : Outcome Connection) → Holds (Next low) o → o ≡ ok d → Next low d
returned-Next low o holds e = subst (Holds (Next low)) e holds

later-Next :
    {d e : Connection} (low : ℕ) (o : Operation) → Next low d → step o d ≡ ok e → Next low e
later-Next {d = d} low o (v, h) returns =
    let (w, k) = returned-Next (rank d.state) (step o d) (step-Next v o) returns in (w, omega arith)

-- Whatever calls are made, in whatever order, a connection goes through its states in the order
-- connecting, connected, disconnecting, disconnected; `connectionCallback_` is called once when it
-- has come up and once more when it is closed, and `closeCallback_` at most once.
pub reaches_lem :
    {c d : Connection} → Lived c → Reaches c d → Lived d × (rank c.state ≤ rank d.state)
reaches_lem v start = (v, omega arith)
reaches_lem {c = c} v (more before o e) = later-Next (rank c.state) o (reaches_lem v before) e
