-- ===== src/Tests/Ends.antt =====
-- Runs of LuxPolaris/src/TCPConnection.cc at the end of a connection.
use lux_polaris.Prelude.{
  ℕ, ◌≡◌, refl, true, false, List, [], ◌∷◌, ok, fault, assertion_failed, ◌>>=◌, length,
}
use lux_polaris.Channel.{none_event}
use lux_polaris.Connection.{
  Connection, Action, Written, wrote, refused, broken_pipe, connected, disconnected, shutdown_write,
  make, send, sends_in_loop,
}
use lux_polaris.Connection.Closing.{shutdown, connect_destroyed, starts_read_in_loop}
use lux_polaris.Connection.Handling.{handle_write}
use lux_polaris.Connection.Invariant.{IsValid, stream}
use lux_polaris.Connection.Racing.{shutdown_overtakes}
use lux_polaris.Connection.Reopening.{destroyed_early_aborts}
use lux_polaris.Tests.Buffers.{small, small-IsValid}

-- Five bytes wait in the output buffer of a connection that is up.
abbrev sending : Connection
sending = record (make small small) {
  state = connected;
  events = record none_event { pollin = true; pollpri = true; pollout = true };
}

sending-IsValid : IsValid sending
sending-IsValid = record { input = small-IsValid; output = small-IsValid; pending = λ h. refl }

abbrev takes_all : List ℕ → Written
takes_all bytes = wrote (length bytes)

abbrev is_shut : List ℕ → Written
is_shut bytes = refused broken_pipe

shutdown_overtakes_example :
    (asking d : Connection) × ((send false is_shut (1 ∷ 2 ∷ []) sending >>= λ sent.
    ok (shutdown false sent))
      ≡ ok asking)
    × (handle_write takes_all asking ≡ ok d)
    × ((before : List Action) × (d.log ≡ shutdown_write ∷ before))
    × (sends_in_loop is_shut (1 ∷ 2 ∷ []) d ≡ ok d)
    × (d.socket ≡ stream sending)
shutdown_overtakes_example =
    shutdown_overtakes sending sending-IsValid refl refl (1 ∷ 2 ∷ []) is_shut takes_all is_shut refl
      refl

abbrev closed : Connection
closed = record (make small small) { state = disconnected }

destroyed_early_example :
    (connect_destroyed (starts_read_in_loop closed) ≡ fault assertion_failed)
    × (connect_destroyed (shutdown true sending) ≡ fault assertion_failed)
destroyed_early_example = destroyed_early_aborts true closed sending refl refl refl
