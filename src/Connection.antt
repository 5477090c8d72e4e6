-- ===== src/Connection.antt =====
-- LuxPolaris/src/TCPConnection.cc and include/TCPConnection.h: one connection. A method returns the
-- connection after it. What it does to the outside stands in `log`, newest first: calls of the
-- application's callbacks, functors given to the loop, and system calls; `socket` holds the bytes
-- that the socket took. What a callback does to the connection is a later call of a method.
pub mod Closing
pub mod Handling
pub mod Operation
pub mod Invariant
pub mod Stream
pub mod Writing
pub mod Reopening
pub mod Runs
pub mod Sending
pub mod Keeping
pub mod Order
pub mod Draining
pub mod Racing
pub mod Delaying
pub mod Names
pub mod Lifecycle
pub mod Living
pub mod Staying
pub mod Ending
use lux_polaris.Prelude.{
  ℕ, ◌+◌, ◌*◌, Bool, true, false, not, ◌&&◌, ◌||◌, List, [], ◌∷◌, ◌++◌, Option, none, some, Outcome,
  ok, ◌>>=◌, ◌>>◌, assert, if◌then◌else◌, ltb, leb, ◌==◌, length, take, drop,
}
use lux_polaris.Prelude.Words.{add_size, sub_size}
use lux_polaris.Buffer.{
  Buffer, readable_bytes, append, retrieve, retrieve_all, retrieve_all_as_string, to_string_piece,
}
use lux_polaris.Buffer.Fill.{Reply, failed, got, read_fd}
use lux_polaris.Channel.{
  Mask, none_event, is_none, is_reading, is_writing, Change, change, enable_reading,
  disable_reading, enable_writing, disable_writing, disable_all,
}

-- `StateE`
pub data State : Type 0 where
  disconnected connecting connected disconnecting : State

abbrev pub is_disconnected : State → Bool
is_disconnected disconnected = true
is_disconnected _ = false

abbrev pub is_connecting : State → Bool
is_connecting connecting = true
is_connecting _ = false

abbrev pub is_connected : State → Bool
is_connected connected = true
is_connected _ = false

abbrev pub is_disconnecting : State → Bool
is_disconnecting disconnecting = true
is_disconnecting _ = false

-- What is given to the loop to run later.
pub data Functor : Type 0 where
  write_complete : Functor
  high_water_mark : ℕ → Functor
  send_in_loop : List ℕ → Functor
  shutdown_in_loop force_close_in_loop start_read_in_loop stop_read_in_loop : Functor
  force_close_after : ℕ → Functor

-- `up` and `down` are calls of `connectionCallback_`, by what `connected()` says in it.
pub data Action : Type 0 where
  up down message_callback close_callback : Action
  queues : Functor → Action
  shutdown_write remove_channel handle_error : Action

-- `registered` says that the poller has the channel of the connection: `channels_` leads to it and its
-- index is not kNew.
pub record Connection : Type 0 where
  pub state : State
  pub reading : Bool
  pub events : Mask
  pub registered : Bool
  pub input : Buffer
  pub output : Buffer
  pub high_water : ℕ
  pub has_write_complete : Bool
  pub has_high_water : Bool
  pub socket : List ℕ
  pub log : List Action

-- What write(2) returns: a number of bytes, or -1 with errno.
pub data Errno : Type 0 where
  would_block broken_pipe connection_reset other : Errno

pub data Written : Type 0 where
  wrote : ℕ → Written
  refused : Errno → Written

-- The constructor, with the two buffers that it makes.
abbrev pub make : Buffer → Buffer → Connection
make input output = record {
  state = connecting;
  reading = false;
  events = none_event;
  registered = false;
  input = input;
  output = output;
  high_water = 64 * 1024 * 1024;
  has_write_complete = false;
  has_high_water = false;
  socket = [];
  log = [];
}

abbrev pub note : Action → Connection → Connection
note a c = record c { log = a ∷ c.log }

abbrev pub set_state : State → Connection → Connection
set_state s c = record c { state = s }

-- A call of one of the channel's methods that change its events: the poller has the channel then.
abbrev pub update_channel : Change → Connection → Connection
update_channel ch c = record c { events = change ch c.events; registered = true }

-- `channel_->isWriting()`
abbrev pub writing : Connection → Bool
writing c = is_writing c.events

-- How `sendInLoop` stands behind its attempt to write.
pub record Attempt : Type 0 where
  pub nwrote : ℕ
  pub remaining : ℕ
  pub fault_error : Bool
  pub conn : Connection

abbrev pub is_fault : Errno → Bool
is_fault broken_pipe = true
is_fault connection_reset = true
is_fault _ = false

unfoldable pub after_write : List ℕ → Written → Connection → Attempt
after_write message (wrote n) c =
    let rest = sub_size (length message) n in
    let taken : Connection = record c { socket = c.socket ++ take n message } in
    record {
      nwrote = n;
      remaining = rest;
      fault_error = false;
      conn =
          if (rest == 0) && c.has_write_complete then note (queues write_complete) taken else taken;
    }
after_write message (refused e) c = record {
  nwrote = 0;
  remaining = length message;
  fault_error = is_fault e;
  conn = c;
}

-- `if nothing in output queue, try writing directly`
unfoldable pub attempt : (List ℕ → Written) → List ℕ → Connection → Attempt
unfolding after_write
attempt write message c =
    if not (writing c) && (readable_bytes c.output == 0)
    then after_write message (write message) c
    else record { nwrote = 0; remaining = length message; fault_error = false; conn = c }

-- The test of the high-water mark, with `old` bytes pending and `total` to be.
abbrev pub warned : ℕ → ℕ → Connection → Connection
warned old total c =
    if leb c.high_water total && ltb old c.high_water && c.has_high_water
    then note (queues (high_water_mark total)) c
    else c

abbrev pub await_writable : Connection → Connection
await_writable c = if not (writing c) then update_channel enable_writing c else c

-- What could not be written goes to the output buffer.
unfoldable pub keep_rest : List ℕ → ℕ → Connection → Outcome Connection
keep_rest rest remaining c = do
  let old = readable_bytes c.output
  let c' : Connection = warned old (add_size old remaining) c
  output ← append rest c'.output
  ok (await_writable (record c' { output = output }))

-- `sendInLoop`; `write` is the system's.
unfoldable pub sends_in_loop : (List ℕ → Written) → List ℕ → Connection → Outcome Connection
sends_in_loop write message c =
    if is_disconnected c.state
    then ok c
    else (let a = attempt write message c in
        do
          assert (leb a.remaining (length message))
          if not a.fault_error && ltb 0 a.remaining
              then keep_rest (drop a.nwrote message) a.remaining a.conn
              else ok a.conn)

-- `send(const StringPiece&)`; `in_loop` is `loop_->isInLoopThread()`.
unfoldable pub send : Bool → (List ℕ → Written) → List ℕ → Connection → Outcome Connection
unfolding sends_in_loop
send in_loop write message c =
    if is_connected c.state
    then if in_loop
      then sends_in_loop write message c
      else ok (note (queues (send_in_loop message)) c)
    else ok c

-- `send(Buffer*)`, with the caller's buffer after it.
unfoldable pub send_buffer :
    Bool → (List ℕ → Written) → Buffer → Connection → Outcome (Buffer × Connection)
unfolding sends_in_loop
send_buffer in_loop write b c =
    if is_connected c.state
    then if in_loop
      then (do
        message ← to_string_piece b
        c' ← sends_in_loop write message c
        ok (retrieve_all b, c'))
      else (do
        (message, b') ← retrieve_all_as_string b
        ok (b', note (queues (send_in_loop message)) c))
    else ok (b, c)
