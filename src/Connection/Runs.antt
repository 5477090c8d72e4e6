-- ===== src/Connection/Runs.antt =====
-- LuxPolaris/src/TCPConnection.cc: the bytes of a connection over a whole run of it.
use lux_polaris.Prelude.{
  ℕ, ◌+◌, ◌≤◌, ◌≡◌, sym, ap₂, ◌∙◌, Bool, true, false, not, ◌&&◌, List, [], ◌++◌, append-nil, ok,
  if◌then◌else◌, ◌==◌, length,
}
use lux_polaris.Prelude.Words.{max_size}
use lux_polaris.Buffer.{Buffer, readable_bytes}
use lux_polaris.Buffer.Fill.{Reply, failed, got, requested, extra_size}
use lux_polaris.Buffer.Invariant.{contents}
use lux_polaris.Connection.{Connection, Written, is_disconnected, is_connected, writing}
use lux_polaris.Connection.Invariant.{IsValid, Takes, is_broken, stream}
use lux_polaris.Connection.Operation.{Operation, sends, runs_send, reads, writes, step}

-- `sendInLoop` writes at once.
abbrev pub is_direct : Connection → Bool
is_direct c = not (writing c) && (readable_bytes c.output == 0)

-- What `sendInLoop` accepts of a message: nothing on a closed connection, or where write(2) is tried
-- and fails with EPIPE or ECONNRESET, and otherwise all of it.
abbrev pub accepted : (List ℕ → Written) → List ℕ → Connection → List ℕ
accepted write message c =
    if is_disconnected c.state
    then []
    else if is_direct c && is_broken (write message)
    then []
    else message

abbrev pub passed : Operation → Connection → List ℕ
passed (sends true write message) c = if is_connected c.state then accepted write message c else []
passed (runs_send write message) c = accepted write message c
passed _ c = []

abbrev pub FitsAnswer : Reply → Buffer → Type 0
FitsAnswer (failed errno) b = Unit {0}
FitsAnswer (got bytes) b = (length bytes ≤ requested b) × (length b.buffer + extra_size ≤ max_size)

-- What the system answers is as read(2) and write(2) document it, and the buffers have the room.
abbrev pub Fits : Operation → Connection → Type 0
Fits (sends true write message) c =
    Takes (length message) (write message) × (c.output.writer_index + length message ≤ max_size)
Fits (runs_send write message) c =
    Takes (length message) (write message) × (c.output.writer_index + length message ≤ max_size)
Fits (reads readv) c = FitsAnswer (readv (requested c.input)) c.input
Fits (writes write) c = Takes (length (contents c.output)) (write (contents c.output))
Fits _ c = Unit {0}

-- A run of calls that return, with all that the connection has accepted in it.
pub data Runs (c : Connection) : Connection → List ℕ → Type 0 where
  begins : Runs c c []
  goes_on :
      {d e : Connection} {bytes : List ℕ}
      → Runs c d bytes
      → (o : Operation) → Fits o d
      → step o d ≡ ok e
      → Runs c e (bytes ++ passed o d)

-- A valid connection that waits for nothing to be writable once it is closed.
pub record Whole (c : Connection) : Type 0 where
  pub valid : IsValid c
  pub quiet : is_disconnected c.state ≡ true → writing c ≡ false

abbrev pub Kept : Connection → List ℕ → Connection → Type 0
Kept c bytes d = Whole d × (stream d ≡ stream c ++ bytes)

-- Neither the buffers nor the socket are touched.
pub unmoved : (c d : Connection) → Whole d → d.socket ≡ c.socket → d.output ≡ c.output → Kept c [] d
unmoved c d w e e' = (w, ap₂ (λ s b. s ++ contents b) e e' ∙ sym (append-nil (stream c)))
