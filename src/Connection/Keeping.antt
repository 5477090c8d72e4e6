-- ===== src/Connection/Keeping.antt =====
-- LuxPolaris/src/TCPConnection.cc: what each method keeps of the bytes of a connection.
use lux_polaris.Prelude.{
  >>=-Holds, assert, ℕ, ◌≡◌, refl, sym, ap, ◌∙◌, subst, Bool, true, false, ◌||◌, List, [], ◌∷◌,
  append-nil, Outcome, ok, ◌>>=◌, arith, length, Holds, if-Holds, Bool-cases, inl, inr,
}
use lux_polaris.Buffer.{Buffer}
use lux_polaris.Buffer.Fill.{Reply, failed, got, read_fd, take_in, requested}
use lux_polaris.Buffer.Invariant as Buffer_invariant
use lux_polaris.Buffer.Invariant.{contents}
use lux_polaris.Buffer.Contents.Filling.{read_fd_lem}
use lux_polaris.Channel.{enable_reading, disable_all, is_none}
use lux_polaris.Connection.{
  handle_error, message_callback, disconnected, connected, is_disconnecting, is_connecting,
  close_callback, down, up, remove_channel, set_state, update_channel, Connection, Written,
  is_disconnected, is_connected, writing, send, note, queues, send_in_loop,
}
use lux_polaris.Connection.Closing.{
  shutdown, shuts_down_in_loop, force_close, force_close_with_delay, handle_close,
  forces_close_in_loop, starts_read_in_loop, stops_read_in_loop, start_read, stop_read,
  connect_established, connect_destroyed,
}
use lux_polaris.Connection.Handling.{handle_read, handle_write, after_read}
use lux_polaris.Connection.Invariant.{Takes, stream}
use lux_polaris.Connection.Writing.{Drains, handle_write_lem}
use lux_polaris.Connection.Operation.{sends}
use lux_polaris.Connection.Runs.{passed, FitsAnswer, Fits, Whole, Kept, unmoved}
use lux_polaris.Connection.Sending.{sends_in_loop-Kept}

-- What the kept events say where the buffers stay.
module _ {c : Connection} (w : Whole c) where
  pub send-Kept :
      (in_loop : Bool) (write : List ℕ → Written) (message : List ℕ)
      → Fits (sends in_loop write message) c
      → Holds (Kept c (passed (sends in_loop write message) c)) (send in_loop write message c)
  unfolding send
  send-Kept true write message (takes, room) = elim (Bool-cases (is_connected c.state)) [
    | inl open_ ↦ rw open_ (sends_in_loop-Kept c w write message takes room)
    | inr not_up ↦ rw not_up (unmoved c c w refl refl)
  ]
  send-Kept false write message fits = elim (Bool-cases (is_connected c.state)) [
    | inl open_ ↦ rw open_ (
        unmoved c (note (queues (send_in_loop message)) c)
          (record { valid = ground (arith, w.valid); quiet = w.quiet }) refl refl)
    | inr not_up ↦ rw not_up (unmoved c c w refl refl)
  ]

  pub shuts_down_in_loop-Kept : Kept c [] (shuts_down_in_loop c)
  unfolding shuts_down_in_loop
  shuts_down_in_loop-Kept =
      unmoved c _ (record { valid = ground (arith, w.valid); quiet = ground (arith, w.quiet) })
        (ground arith) (ground arith)

  pub shutdown-Kept : (b : Bool) → Kept c [] (shutdown b c)
  unfolding shutdown shuts_down_in_loop
  shutdown-Kept b =
      unmoved c _ (record { valid = ground (arith, w.valid); quiet = ground (arith, w.quiet) })
        (ground arith) (ground arith)

  pub start_read-Kept : (b : Bool) → Kept c [] (start_read b c)
  unfolding start_read starts_read_in_loop
  start_read-Kept b =
      unmoved c _ (record { valid = ground (arith, w.valid); quiet = ground (arith, w.quiet) })
        (ground arith) (ground arith)

  -- A closed connection waits for nothing.
  abbrev shut : Connection
  shut = update_channel disable_all (set_state disconnected c)

  shut-Whole : Whole shut
  shut-Whole = record {
    valid = record {
      input = w.valid.input;
      output = w.valid.output;
      pending = λ h. absurd (ground (arith, h));
    };
    quiet = λ h. refl;
  }

  pub handle_close-Kept : Holds (Kept c []) (handle_close c)
  unfolding handle_close
  handle_close-Kept = elim (Bool-cases (is_connected c.state || is_disconnecting c.state)) [
    | inl open_ ↦ rw open_ (
        unmoved c (note close_callback (note down shut))
          (record { valid = ground (arith, shut-Whole.valid); quiet = λ h. refl }) refl refl)
    | inr not_open ↦ rw not_open tt
  ]

  pub forces_close_in_loop-Kept : Holds (Kept c []) (forces_close_in_loop c)
  unfolding forces_close_in_loop
  forces_close_in_loop-Kept =
      if-Holds (Kept c []) _ (handle_close c) (ok c) handle_close-Kept (unmoved c c w refl refl)

  pub force_close-Kept : Kept c [] (force_close c)
  unfolding force_close
  force_close-Kept =
      unmoved c _ (record { valid = ground (arith, w.valid); quiet = ground (arith, w.quiet) })
        (ground arith) (ground arith)

  pub force_close_with_delay-Kept : (n : ℕ) → Kept c [] (force_close_with_delay n c)
  unfolding force_close_with_delay
  force_close_with_delay-Kept n =
      unmoved c _ (record { valid = ground (arith, w.valid); quiet = ground (arith, w.quiet) })
        (ground arith) (ground arith)

  pub starts_read_in_loop-Kept : Kept c [] (starts_read_in_loop c)
  unfolding starts_read_in_loop
  starts_read_in_loop-Kept =
      unmoved c _ (record { valid = ground (arith, w.valid); quiet = ground (arith, w.quiet) })
        (ground arith) (ground arith)

  pub stops_read_in_loop-Kept : Kept c [] (stops_read_in_loop c)
  unfolding stops_read_in_loop
  stops_read_in_loop-Kept =
      unmoved c _ (record { valid = ground (arith, w.valid); quiet = ground (arith, w.quiet) })
        (ground arith) (ground arith)

  pub stop_read-Kept : (b : Bool) → Kept c [] (stop_read b c)
  unfolding stop_read stops_read_in_loop
  stop_read-Kept b =
      unmoved c _ (record { valid = ground (arith, w.valid); quiet = ground (arith, w.quiet) })
        (ground arith) (ground arith)

  pub connect_established-Kept : Holds (Kept c []) (connect_established c)
  unfolding connect_established
  connect_established-Kept = elim (Bool-cases (is_connecting c.state)) [
    | inl fresh ↦ rw fresh (
        unmoved c (note up (update_channel enable_reading (set_state connected c)))
          (record {
            valid = record {
              input = w.valid.input;
              output = w.valid.output;
              pending = λ h. w.valid.pending (ground (arith, fresh));
            };
            quiet = λ h. absurd (ground (arith, h));
          })
          refl refl)
    | inr old ↦ rw old tt
  ]

  pub connect_destroyed-Kept : Holds (Kept c []) (connect_destroyed c)
  unfolding connect_destroyed
  connect_destroyed-Kept = elim (Bool-cases (is_connected c.state)) [
    | inl up_now ↦ rw up_now (
        unmoved c (note remove_channel (record (note down shut) { registered = false }))
          (record { valid = ground (arith, shut-Whole.valid); quiet = λ h. refl }) refl refl)
    | inr not_up ↦ rw not_up (
        >>=-Holds (Kept c []) (assert (is_none c.events)) _ (λ idle.
          >>=-Holds (Kept c []) (assert c.registered) _ (λ there.
            unmoved c (note remove_channel (record c { registered = false }))
              (record { valid = ground (arith, w.valid); quiet = w.quiet }) refl refl)))
  ]

  -- The input buffer does not matter.
  with_input : {b : Buffer} → Buffer_invariant.IsValid b → Whole (record c { input = b })
  with_input vb = record {
    valid = record { input = vb; output = w.valid.output; pending = w.valid.pending };
    quiet = w.quiet;
  }

  read_fd-failed :
      (readv : ℕ → Reply) (b : Buffer) (errno : ℕ)
      → readv (requested b) ≡ failed errno
      → read_fd readv b ≡ ok (failed errno, b)
  unfolding read_fd
  read_fd-failed readv b errno e =
      ap
        (λ r. elim r [
          | failed n ↦ ok (failed n, b)
          | got bytes ↦ take_in bytes b >>= (λ b'. ok (got bytes, b'))
        ])
        e

  handle_read_failed :
      (readv : ℕ → Reply) (errno : ℕ)
      → readv (requested c.input) ≡ failed errno
      → Holds (Kept c []) (handle_read readv c)
  unfolding handle_read after_read
  handle_read_failed readv errno e = rw (read_fd-failed readv c.input errno e) (
      unmoved c (note handle_error c) (record { valid = ground (arith, w.valid); quiet = w.quiet })
        refl refl)

after_read-Kept :
    {c : Connection} (w : Whole c) (bytes : List ℕ) → Holds (Kept c []) (after_read (got bytes) c)
unfolding after_read
after_read-Kept w [] = handle_close-Kept w
after_read-Kept {c = c} w (x ∷ xs) =
    unmoved c (note message_callback c)
      (record { valid = ground (arith, w.valid); quiet = w.quiet }) refl refl

module _ {c : Connection} (w : Whole c) where
  handle_read_got :
      (readv : ℕ → Reply) (bytes : List ℕ)
      → readv (requested c.input) ≡ got bytes
      → FitsAnswer (got bytes) c.input
      → Holds (Kept c []) (handle_read readv c)
  unfolding handle_read
  handle_read_got readv bytes e (few, small) =
      let (b, e', vb, all) = read_fd_lem w.valid.input readv bytes e few small in
      rw e' (after_read-Kept (with_input w vb) bytes)

  pub handle_read-Kept :
      (readv : ℕ → Reply) (r : Reply)
      → readv (requested c.input) ≡ r
      → FitsAnswer r c.input
      → Holds (Kept c []) (handle_read readv c)
  handle_read-Kept readv (failed errno) e fits = handle_read_failed w readv errno e
  handle_read-Kept readv (got bytes) e fits = handle_read_got readv bytes e fits

  of_Drains :
      {o : Outcome Connection} → is_disconnected c.state ≡ false → Drains c o → Holds (Kept c []) o
  of_Drains live (d, e, v, all, same, shuts) = subst (Holds (Kept c [])) (sym e) (
    record { valid = v; quiet = λ h. absurd (ground (arith, same)) },
    all ∙ sym (append-nil (stream c)),
  )

  idle-Kept :
      (write : List ℕ → Written) → writing c ≡ false → Holds (Kept c []) (handle_write write c)
  unfolding handle_write
  idle-Kept write idle = subst (Holds (Kept c [])) (sym chosen) (unmoved c c w refl refl)
    where
      chosen : handle_write write c ≡ ok c
      chosen = ground arith

  pub handle_write-Kept :
      (write : List ℕ → Written)
      → Takes (length (contents c.output)) (write (contents c.output))
      → Holds (Kept c []) (handle_write write c)
  handle_write-Kept write few = elim (Bool-cases (is_disconnected c.state)) [
    | inl gone ↦ idle-Kept write (w.quiet gone)
    | inr live ↦ elim (Bool-cases (writing c)) [
      | inl waits ↦ of_Drains live (handle_write_lem w.valid live write waits few)
      | inr idle ↦ idle-Kept write idle
    ]
  ]
