-- ===== src/Tests/Connections.antt =====
-- Runs of LuxPolaris/src/TCPConnection.cc on a connection that is up.
use lux_polaris.Prelude.{
  write_at, ℕ, List, ◌++◌, min, length, ◌≡◌, ◌≤◌, refl, true, [], ◌∷◌, ok, arith,
}
use lux_polaris.Buffer.{append, retrieve, ensure_writable_bytes, to_string_piece}
use lux_polaris.Channel.{none_event}
use lux_polaris.Connection.{
  Written, attempt, keep_rest, Connection, connecting, connected, disconnecting, disconnected, make,
  wrote, sends_in_loop, up,
}
use lux_polaris.Connection.Closing.{connect_established}
use lux_polaris.Connection.Handling.{handle_write, written, wrote_some}
use lux_polaris.Connection.Invariant.{IsValid, stream}
use lux_polaris.Connection.Operation.{runs_send, writes, step, Reaches, start, more, establishes}
use lux_polaris.Connection.Runs.{Runs, begins, goes_on, Whole}
use lux_polaris.Connection.Order.{runs_lem}
use lux_polaris.Connection.Draining.{Progresses, Empties, handle_writes, handle_writes_lem}
use lux_polaris.Connection.Lifecycle.{Lived, rank}
use lux_polaris.Connection.Living.{reaches_lem}
use lux_polaris.Tests.Buffers.{small, small-IsValid}

-- Five bytes wait in the output buffer of a connection that is being shut down.
abbrev busy : Connection
busy = record (make small small) {
  state = disconnecting;
  events = record none_event { pollin = true; pollpri = true; pollout = true };
  registered = true;
}

busy-IsValid : IsValid busy
busy-IsValid = record { input = small-IsValid; output = small-IsValid; pending = λ h. refl }

fresh-Lived : Lived (make small small)
fresh-Lived = record { came_up = refl; went_down = refl; told_owner = omega arith }

abbrev after_up : Connection
after_up = record (make small small) {
  state = connected;
  events = record none_event { pollin = true; pollpri = true };
  registered = true;
  log = up ∷ [];
}

comes_up : Reaches (make small small) after_up
unfolding step connect_established
comes_up = more start establishes refl

reaches_example : Lived after_up × (rank connecting ≤ rank connected)
reaches_example = reaches_lem fresh-Lived comes_up

abbrev closed : Connection
closed = record (make small small) { state = disconnected }

busy-Whole : Whole busy
busy-Whole = record { valid = busy-IsValid; quiet = λ h. absurd (ground (arith, h)) }

-- A byte is sent while five wait, and the peer then reads two of them.
abbrev six_wait : Connection
six_wait = record busy {
  output = record {
    buffer = 0 ∷ 0 ∷ 0 ∷ 0 ∷ 0 ∷ 0 ∷ 0 ∷ 0 ∷ 65 ∷ 13 ∷ 10 ∷ 200 ∷ 66 ∷ 7 ∷ 0 ∷ [];
    reader_index = 8;
    writer_index = 14;
  };
}

abbrev four_wait : Connection
four_wait = record six_wait {
  output = record six_wait.output { reader_index = 10 };
  socket = 65 ∷ 13 ∷ [];
}

two_calls : Runs busy four_wait (7 ∷ [])
unfolding step sends_in_loop handle_write written wrote_some attempt keep_rest append retrieve
    write_at ensure_writable_bytes to_string_piece
two_calls =
    goes_on
      (goes_on begins (runs_send (λ bytes. wrote 0) (7 ∷ [])) (omega arith, omega arith)
        (refl {a = ok six_wait}))
      (writes (λ bytes. wrote 2)) (omega arith) (refl {a = ok four_wait})

runs_example : Whole four_wait × (stream four_wait ≡ stream busy ++ 7 ∷ [])
runs_example = runs_lem busy-Whole two_calls

takes_one : List ℕ → Written
takes_one bytes = wrote (min 1 (length bytes))

takes_one-Progresses : Progresses takes_one
unfolding takes_one
takes_one-Progresses bytes h = (1, ground (arith, h), omega arith, omega arith)

abbrev five_events : List (List ℕ → Written)
five_events = takes_one ∷ takes_one ∷ takes_one ∷ takes_one ∷ takes_one ∷ []

handle_writes_example : Empties busy (handle_writes five_events busy)
handle_writes_example =
    handle_writes_lem busy busy-IsValid refl five_events
      (
        takes_one-Progresses,
        (
          takes_one-Progresses,
          (takes_one-Progresses, (takes_one-Progresses, (takes_one-Progresses, tt))),
        ),
      )
      (omega arith)
