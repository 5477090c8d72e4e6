-- ===== src/Connection/Invariant.antt =====
-- What holds of a connection between the calls of its methods.
use lux_polaris.Prelude.{ℕ, ◌≤◌, ◌≡◌, Bool, false, leb, List, ◌++◌}
use lux_polaris.Buffer.{readable_bytes}
use lux_polaris.Buffer.Invariant as Buffer_invariant
use lux_polaris.Connection.{Connection, Written, wrote, refused, is_disconnected, is_fault, writing}

-- Both buffers are valid. While the connection is not closed, its channel waits for the socket to be
-- writable exactly when bytes are pending.
pub record IsValid (c : Connection) : Type 0 where
  pub input : Buffer_invariant.IsValid c.input
  pub output : Buffer_invariant.IsValid c.output
  pub pending : is_disconnected c.state ≡ false → writing c ≡ leb 1 (readable_bytes c.output)

-- write(2) takes no more than it was given.
abbrev pub Takes : ℕ → Written → Type 0
Takes len (wrote n) = n ≤ len
Takes len (refused e) = Unit {0}

-- EPIPE and ECONNRESET
abbrev pub is_broken : Written → Bool
is_broken (wrote n) = false
is_broken (refused e) = is_fault e

-- All that was ever sent: what the socket took, and what waits in the output buffer.
abbrev pub stream : Connection → List ℕ
stream c = c.socket ++ Buffer_invariant.contents c.output
