-- ===== src/Connection/Racing.antt =====
-- LuxPolaris/src/TCPConnection.cc: another thread sends and shuts down while the loop has an event to
-- handle.
use lux_polaris.Prelude.{
  ℕ, ◌≡◌, refl, sym, ap, ◌∙◌, subst, true, false, ◌<◌, List, [], ◌∷◌, ◌++◌, ok, ◌>>=◌, arith,
  length, drop-all, append-nil, ok_injective,
}
use lux_polaris.Buffer.{readable_bytes}
use lux_polaris.Buffer.Invariant.{contents, length-contents}
use lux_polaris.Buffer.Contents.Queue.{retrieve_lem}
use lux_polaris.Connection.{
  Connection, Action, Written, wrote, refused, broken_pipe, is_connected, is_disconnected,
  disconnecting, shutdown_write, shutdown_in_loop, send_in_loop, queues, note, set_state, writing,
  send, sends_in_loop, attempt, after_write,
}
use lux_polaris.Connection.Closing.{shutdown}
use lux_polaris.Connection.Handling.{handle_write}
use lux_polaris.Connection.Invariant.{IsValid, Takes, stream}
use lux_polaris.Connection.Writing.{handle_write_lem}
use lux_polaris.Connection.Draining.{out_by}

-- The connection after `send` and `shutdown` of another thread: both functors wait in the loop.
abbrev asked : List ℕ → Connection → Connection
asked message c =
    note (queues shutdown_in_loop)
      (set_state disconnecting (note (queues (send_in_loop message)) c))

send_then_shutdown :
    (c : Connection) (write : List ℕ → Written) (message : List ℕ)
    → is_connected c.state ≡ true
    → (send false write message c >>= λ sent. ok (shutdown false sent)) ≡ ok (asked message c)
unfolding send shutdown
send_then_shutdown c write message up = rw up (rw up refl)

-- What write(2) does on a socket whose write side is shut: the message is dropped.
drops :
    (d : Connection) (write : List ℕ → Written) (message : List ℕ)
    → is_disconnected d.state ≡ false
    → writing d ≡ false
    → readable_bytes d.output ≡ 0
    → write message ≡ refused broken_pipe
    → sends_in_loop write message d ≡ ok d
unfolding sends_in_loop attempt after_write
drops d write message live idle empty e = ground (arith, live, idle, empty, e)

module _ (c : Connection) (v : IsValid c) (up : is_connected c.state ≡ true)
    (waits : writing c ≡ true) (message : List ℕ) where
  asked-IsValid : IsValid (asked message c)
  asked-IsValid = record {
    input = v.input;
    output = v.output;
    pending = λ h. v.pending (ground (arith, up));
  }

  -- The socket takes all that waits.
  flushed :
      (write : List ℕ → Written)
      → write (contents c.output) ≡ wrote (length (contents c.output))
      → (d : Connection) × (handle_write write (asked message c) ≡ ok d)
        × IsValid d
        × (contents d.output ≡ [])
        × (stream d ≡ stream c)
        × (d.state ≡ disconnecting)
        × ((before : List Action) × (d.log ≡ shutdown_write ∷ before))
  flushed write e =
      let few : Takes (length (contents c.output)) (write (contents c.output)) =
        subst (Takes (length (contents c.output))) (sym e) (omega arith) in
      let (d, returns, w, all, same, shuts) = handle_write_lem asked-IsValid refl write waits few in
      let (d', returns', left) =
        out_by asked-IsValid refl write (length (contents c.output)) waits e some_pending
          (omega arith)
          (retrieve_lem v.output (length (contents c.output))
            (omega (arith, length-contents v.output))) in
      let empty : contents d.output ≡ [] =
        ap (λ x. contents x.output) (ok_injective (sym returns ∙ returns'))
        ∙ left
        ∙ drop-all (length (contents c.output)) (contents c.output) (omega arith) in
      (
        d,
        returns,
        w,
        empty,
        all,
        same,
        shuts (omega (arith, ap length empty, length-contents w.output)) refl,
      )
    where
      some_pending : 0 < length (contents c.output)
      some_pending = ground (arith, waits, v.pending (ground (arith, up)), length-contents v.output)

-- A message can be lost that another thread sends before it calls `shutdown`. Where bytes wait on a
-- connection and the loop comes to the writable event before the two functors, and the socket takes
-- all the bytes, then `handleWrite` shuts the write side down, since the state is disconnecting
-- already: the message, whose functor runs behind it, meets EPIPE and is dropped.
pub shutdown_overtakes :
    (c : Connection)
    → IsValid c
    → is_connected c.state ≡ true
    → writing c ≡ true
    → (message : List ℕ) (unused write later : List ℕ → Written)
    → write (contents c.output) ≡ wrote (length (contents c.output))
    → later message ≡ refused broken_pipe
    → (asking d : Connection) × ((send false unused message c >>= λ sent. ok (shutdown false sent))
        ≡ ok asking)
      × (handle_write write asking ≡ ok d)
      × ((before : List Action) × (d.log ≡ shutdown_write ∷ before))
      × (sends_in_loop later message d ≡ ok d)
      × (d.socket ≡ stream c)
shutdown_overtakes c v up waits message unused write later e broken =
    let (d, returns, w, empty, all, same, shut) = flushed c v up waits message write e in
    (
      asked message c,
      d,
      send_then_shutdown c unused message up,
      returns,
      shut,
      drops d later message (rw same refl) (idle d w empty same)
          (omega (arith, ap length empty, length-contents w.output)) broken,
      sym (append-nil d.socket) ∙ ap (λ o. d.socket ++ o) (sym empty) ∙ all,
    )
  where
    idle :
        (d : Connection)
        → IsValid d
        → contents d.output ≡ []
        → d.state ≡ disconnecting
        → writing d ≡ false
    idle d w empty same =
        w.pending (rw same refl) ∙ ground (arith, ap length empty, length-contents w.output)
