-- ===== src/Connection/Writing.antt =====
-- LuxPolaris/src/TCPConnection.cc: what happens when the socket takes more of the output.
use lux_polaris.Prelude.{
  leb, subst, ℕ, ◌≡◌, refl, sym, ap, ap₂, ◌∙◌, true, false, List, ◌∷◌, ◌++◌, Outcome, ok, ◌>>=◌,
  arith, if◌then◌else◌, ltb, ◌==◌, length, take, drop, take-append-drop, append_assoc, Bool-cases,
  inl, inr,
}
use lux_polaris.Buffer.{Buffer, readable_bytes, retrieve, to_string_piece}
use lux_polaris.Buffer.Invariant as Buffer_invariant
use lux_polaris.Buffer.Invariant.{contents, length-contents, Yields}
use lux_polaris.Buffer.Contents.Queue.{retrieve_lem, to_string_piece_lem}
use lux_polaris.Connection.{
  Connection, Written, wrote, refused, is_disconnected, is_disconnecting, shutdown_write, writing,
  note, Action, queues, write_complete,
}
use lux_polaris.Connection.Closing.{shuts_down_in_loop}
use lux_polaris.Connection.Handling.{handle_write, written, wrote_some, drained}
use lux_polaris.Connection.Invariant.{IsValid, Takes, stream}

-- The call returns, to a valid connection in the same state with the same stream, whose socket took
-- some of the bytes that waited. Its last act is the shutdown of the write side if no byte is left
-- and the connection is disconnecting.
abbrev pub Drains : Connection → Outcome Connection → Type 0
Drains c o =
    (c' : Connection) × (o ≡ ok c')
    × IsValid c'
    × (stream c' ≡ stream c)
    × (c'.state ≡ c.state)
    × (readable_bytes c'.output ≡ 0
        → is_disconnecting c.state ≡ true
        → (before : List Action) × (c'.log ≡ shutdown_write ∷ before))

drained-socket : (d : Connection) → (drained d).socket ≡ d.socket
unfolding drained shuts_down_in_loop
drained-socket d = ground arith

pub drained-output : (d : Connection) → (drained d).output ≡ d.output
unfolding drained shuts_down_in_loop
drained-output d = ground arith

drained-state : (d : Connection) → (drained d).state ≡ d.state
unfolding drained shuts_down_in_loop
drained-state d = ground arith

drained-input : (d : Connection) → (drained d).input ≡ d.input
unfolding drained shuts_down_in_loop
drained-input d = ground arith

drained-idle : (d : Connection) → writing (drained d) ≡ false
unfolding drained shuts_down_in_loop
drained-idle d = ground arith

drained-shuts :
    (d : Connection)
    → is_disconnecting d.state ≡ true
    → (before : List Action) × ((drained d).log ≡ shutdown_write ∷ before)
unfolding drained shuts_down_in_loop
drained-shuts d h =
    ((if d.has_write_complete then note (queues write_complete) d else d).log, ground arith)

drained-IsValid :
    (d : Connection)
    → Buffer_invariant.IsValid d.input
    → Buffer_invariant.IsValid d.output
    → readable_bytes d.output ≡ 0
    → IsValid (drained d)
drained-IsValid d wi wo none_left = record {
  input = subst Buffer_invariant.IsValid (sym (drained-input d)) wi;
  output = subst Buffer_invariant.IsValid (sym (drained-output d)) wo;
  pending =
      λ h. drained-idle d ∙ sym (ap (leb 1) (ap readable_bytes (drained-output d) ∙ none_left));
}

module _ {c : Connection} (v : IsValid c) (open_ : is_disconnected c.state ≡ false)
    (waits : writing c ≡ true) (n : ℕ) where
  abbrev moved : Buffer → Connection
  moved output = record c { output = output; socket = c.socket ++ take n (contents c.output) }

  moved-stream :
      (output : Buffer)
      → contents output ≡ drop n (contents c.output)
      → stream (moved output) ≡ stream c
  moved-stream output e =
      ap (λ o. (c.socket ++ take n (contents c.output)) ++ o) e
      ∙ append_assoc c.socket (take n (contents c.output)) (drop n (contents c.output))
      ∙ ap (λ o. c.socket ++ o) (take-append-drop n (contents c.output))

  wrote_some-Drains :
      Yields (retrieve n c.output) (drop n (contents c.output))
      → Drains c (wrote_some n (contents c.output) c)
  unfolding wrote_some
  wrote_some-Drains (output, e, w, all) = elim (Bool-cases (readable_bytes output == 0)) [
    | inl empty ↦ (
      drained (moved output),
      rw e (rw empty refl),
      drained-IsValid (moved output) v.input w (ground arith),
      ap₂ (λ s o. s ++ contents o) (drained-socket (moved output)) (drained-output (moved output))
          ∙ moved-stream output all,
      drained-state (moved output),
      λ h k. drained-shuts (moved output) k,
    )
    | inr some_left ↦ (
      moved output,
      rw e (rw some_left refl),
      record { input = v.input; output = w; pending = λ h. waits ∙ ground arith },
      moved-stream output all,
      refl,
      λ h k. absurd (ground (arith, h)),
    )
  ]

module _ {c : Connection} (v : IsValid c) (open_ : is_disconnected c.state ≡ false) where
  stays :
      writing c ≡ true
      → readable_bytes c.output ≡ 0
      → is_disconnecting c.state ≡ true
      → (before : List Action) × (c.log ≡ shutdown_write ∷ before)
  stays waits h k = absurd (ground (arith, v.pending open_))

  written-Drains :
      (w : Written)
      → writing c ≡ true
      → Takes (length (contents c.output)) w
      → Drains c (written (contents c.output) w c)
  unfolding written
  written-Drains (refused e) waits few = (c, refl, v, refl, refl, stays waits)
  written-Drains (wrote n) waits few = elim (Bool-cases (ltb 0 n)) [
    | inl some_out ↦ rw some_out (
        wrote_some-Drains v open_ waits n
          (retrieve_lem v.output n (omega (arith, length-contents v.output))))
    | inr none_out ↦ rw none_out (c, refl, v, refl, refl, stays waits)
  ]

  pub handle_write_waiting :
      (write : List ℕ → Written)
      → writing c ≡ true
      → handle_write write c ≡ written (contents c.output) (write (contents c.output)) c
  unfolding handle_write
  handle_write_waiting write waits =
      ap
        (λ b.
          if b then (to_string_piece c.output >>= λ bytes. written bytes (write bytes) c) else ok c)
        waits
      ∙ ap (λ o. o >>= λ bytes. written bytes (write bytes) c) (to_string_piece_lem v.output)

  -- `handleWrite` of a connection that waits to write and is not closed sends the waiting bytes in
  -- order, whatever part of them write(2) takes or whether it fails: what the socket took and what
  -- waits stay together the bytes that were sent. When the last byte is out and the connection is
  -- disconnecting, the write side is shut down.
  pub handle_write_lem :
      (write : List ℕ → Written)
      → writing c ≡ true
      → Takes (length (contents c.output)) (write (contents c.output))
      → Drains c (handle_write write c)
  handle_write_lem write waits few =
      subst (Drains c) (sym (handle_write_waiting write waits))
        (written-Drains (write (contents c.output)) waits few)
