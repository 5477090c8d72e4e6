-- ===== src/Connection/Handling.antt =====
-- LuxPolaris/src/TCPConnection.cc: what a connection does when its socket is readable or writable.
use lux_polaris.Prelude.{ℕ, [], ◌∷◌, ◌++◌, List, Outcome, ok, ◌>>=◌, if◌then◌else◌, ltb, ◌==◌, take}
use lux_polaris.Buffer.{readable_bytes, retrieve, to_string_piece}
use lux_polaris.Buffer.Fill.{Reply, failed, got, read_fd}
use lux_polaris.Channel.{disable_writing}
use lux_polaris.Connection.{
  Connection, is_disconnecting, queues, write_complete, message_callback, handle_error, Written,
  wrote, refused, note, update_channel, writing,
}
use lux_polaris.Connection.Closing.{shuts_down_in_loop, handle_close}

unfoldable pub after_read : Reply → Connection → Outcome Connection
unfolding handle_close
after_read (failed errno) c = ok (note handle_error c)
after_read (got []) c = handle_close c
after_read (got (x ∷ xs)) c = ok (note message_callback c)

-- `handleRead`; `readv` is the system's.
unfoldable pub handle_read : (ℕ → Reply) → Connection → Outcome Connection
unfolding after_read
handle_read readv c = do
  (reply, input) ← read_fd readv c.input
  after_read reply (record c { input = input })

-- The bytes are all out.
unfoldable pub drained : Connection → Connection
unfolding shuts_down_in_loop
drained c =
    let quiet : Connection = update_channel disable_writing c in
    let told : Connection =
      if c.has_write_complete then note (queues write_complete) quiet else quiet in
    if is_disconnecting told.state then shuts_down_in_loop told else told

unfoldable pub wrote_some : ℕ → List ℕ → Connection → Outcome Connection
unfolding drained
wrote_some n bytes c = do
  output ← retrieve n c.output
  let c' : Connection = record c { output = output; socket = c.socket ++ take n bytes }
  ok (if readable_bytes output == 0 then drained c' else c')

-- A result of 0 is taken for an error.
unfoldable pub written : List ℕ → Written → Connection → Outcome Connection
unfolding wrote_some
written bytes (refused e) c = ok c
written bytes (wrote n) c = if ltb 0 n then wrote_some n bytes c else ok c

-- `handleWrite`
unfoldable pub handle_write : (List ℕ → Written) → Connection → Outcome Connection
unfolding written
handle_write write c =
    if writing c then (do bytes ← to_string_piece c.output; written bytes (write bytes) c) else ok c
