-- ===== src/Connection/Stream.antt =====
-- The bytes of a connection: none is lost, repeated or reordered between `send` and the socket.
use native.Mathlib.Decide.{dec_lt}
use lux_polaris.Prelude.{
  ℕ, ◌+◌, ◌-◌, ◌≤◌, ◌<◌, ◌≡◌, refl, sym, ap, ap₂, ◌∙◌, true, false, ◌&&◌, List, [], ◌++◌, Outcome,
  ok, arith, if◌then◌else◌, ◌==◌, length, length-append, take, drop, append-nil, nil_of_length,
  append_assoc, take-append-drop, take-all, length-drop, Bool-cases, inl, inr,
}
use lux_polaris.Prelude.Words.{max_size, add_size}
use lux_polaris.Buffer.{readable_bytes, append}
use lux_polaris.Buffer.Invariant.{contents, length-contents, Yields}
use lux_polaris.Buffer.Contents.Queue.{append_lem}
use lux_polaris.Connection.{
  Connection, Written, wrote, refused, is_disconnected, after_write, attempt, keep_rest, warned,
  await_writable, sends_in_loop, writing, note, queues, write_complete,
}
use lux_polaris.Connection.Invariant.{IsValid, Takes, is_broken, stream}

-- The call returns, to a valid connection in the same state whose stream is that of `c` with the
-- bytes behind it.
abbrev pub Extends : Connection → List ℕ → Outcome Connection → Type 0
Extends c bytes o =
    (c' : Connection) × (o ≡ ok c')
    × IsValid c'
    × (stream c' ≡ stream c ++ bytes)
    × (c'.state ≡ c.state)

-- The buffer takes what could not be written.
module _ {c : Connection} (v : IsValid c) (rest : List ℕ) (some_left : 0 < length rest) where
  abbrev warned_first : Connection
  warned_first =
      warned (readable_bytes c.output) (add_size (readable_bytes c.output) (length rest)) c

  keep_rest-Yields :
      Yields (append rest c.output) (contents c.output ++ rest)
      → Extends c rest (keep_rest rest (length rest) c)
  unfolding keep_rest
  keep_rest-Yields (output, e, w, all) = (
    await_writable (record warned_first { output = output }),
    ground arith,
    record {
      input = ground (arith, v.input);
      output = ground (arith, w);
      pending = λ h. ground (arith, more);
    },
    ground (arith, all, append_assoc c.socket (contents c.output) rest),
    ground arith,
  )
    where
      more : 1 ≤ readable_bytes output
      more = omega (arith, length-contents w, ap length all, length-append (contents c.output) rest)

-- `keep_rest` appends, where the output buffer has the room.
keep_rest-Extends :
    {c : Connection} (v : IsValid c) (rest : List ℕ)
    → 0 < length rest
    → c.output.writer_index + length rest ≤ max_size
    → Extends c rest (keep_rest rest (length rest) c)
keep_rest-Extends v rest some_left room =
    keep_rest-Yields v rest some_left (append_lem v.output rest room)

module _ {c : Connection} (v : IsValid c) (open_ : is_disconnected c.state ≡ false)
    (write : List ℕ → Written) (message : List ℕ) where
  -- Nothing was written first: the whole message waits.
  sends_all_later :
      attempt write message c
        ≡ record { nwrote = 0; remaining = length message; fault_error = false; conn = c }
      → c.output.writer_index + length message ≤ max_size
      → Extends c message (sends_in_loop write message c)
  unfolding sends_in_loop
  sends_all_later e room = elim (dec_lt 0 (length message)) [
    | yes some_left ↦
        let (c', e', w, all, same) = keep_rest-Extends v message some_left room in
        (c', ground arith, w, all, same)
    | no empty ↦ (
      c,
      ground arith,
      v,
      sym (append-nil (stream c))
          ∙ ap (λ m. stream c ++ m) (sym (nil_of_length message (omega arith))),
      refl,
    )
  ]

  abbrev taken : ℕ → Connection
  taken n = record c { socket = c.socket ++ take n message }

  abbrev told : ℕ → Connection
  told n =
      if (length message - n == 0) && c.has_write_complete
      then note (queues write_complete) (taken n)
      else taken n

  told-socket : (n : ℕ) → (told n).socket ≡ c.socket ++ take n message
  told-socket n = ground arith

  told-output : (n : ℕ) → (told n).output ≡ c.output
  told-output n = ground arith

  told-stream : (n : ℕ) → contents c.output ≡ [] → stream (told n) ≡ stream c ++ take n message
  told-stream n none_pending =
      ap₂ ◌++◌ (told-socket n) (ap contents (told-output n) ∙ none_pending)
      ∙ append-nil (c.socket ++ take n message)
      ∙ ap (λ s. s ++ take n message)
          (sym (append-nil c.socket) ∙ ap (λ o. c.socket ++ o) (sym none_pending))

  told_then_rest :
      (n : ℕ) → contents c.output ≡ [] → stream (told n) ++ drop n message ≡ stream c ++ message
  told_then_rest n none_pending =
      ap (λ s. s ++ drop n message) (told-stream n none_pending)
      ∙ append_assoc (stream c) (take n message) (drop n message)
      ∙ ap (λ m. stream c ++ m) (take-append-drop n message)

  told_all :
      (n : ℕ) → contents c.output ≡ [] → length message ≤ n → stream (told n) ≡ stream c ++ message
  told_all n none_pending all =
      told-stream n none_pending ∙ ap (λ m. stream c ++ m) (take-all n message all)

  -- The socket took `n` bytes at once, and nothing was pending.
  sends_first :
      (n : ℕ)
      → n ≤ length message
      → contents c.output ≡ []
      → attempt write message c
        ≡ record { nwrote = n; remaining = length message - n; fault_error = false; conn = told n }
      → c.output.writer_index + length message ≤ max_size
      → Extends c message (sends_in_loop write message c)
  unfolding sends_in_loop
  sends_first n few none_pending e room = elim (dec_lt n (length message)) [
    | yes some_left ↦
        let (c', e', w, all, same) =
          keep_rest-Extends told-IsValid (drop n message) (omega (arith, rest))
            (ground (arith, rest)) in
        (c', ground (arith, rest), w, all ∙ told_then_rest n none_pending, same ∙ ground arith)
    | no all_out ↦
        (told n, ground arith, told-IsValid, told_all n none_pending (omega arith), ground arith)
  ]
    where
      rest : length (drop n message) ≡ length message - n
      rest = length-drop n message

      told-IsValid : IsValid (told n)
      told-IsValid = ground (arith, v)

module _ {c : Connection} (v : IsValid c) (open_ : is_disconnected c.state ≡ false)
    (write : List ℕ → Written) (message : List ℕ) where
  none_of_none : readable_bytes c.output ≡ 0 → contents c.output ≡ []
  none_of_none h = nil_of_length (contents c.output) (omega (arith, length-contents v.output))

  sends_now :
      (w : Written)
      → write message ≡ w
      → Takes (length message) w
      → is_broken w ≡ false
      → writing c ≡ false
      → readable_bytes c.output ≡ 0
      → length message ≤ max_size
      → c.output.writer_index + length message ≤ max_size
      → Extends c message (sends_in_loop write message c)
  unfolding attempt after_write
  sends_now (wrote n) e few _ idle none_pending small room =
      sends_first v open_ write message n few (none_of_none none_pending) (ground arith) room
  sends_now (refused r) e _ fine idle none_pending small room =
      sends_all_later v open_ write message (ground arith) room

  pub sends_waiting :
      writing c ≡ true
      → c.output.writer_index + length message ≤ max_size
      → Extends c message (sends_in_loop write message c)
  unfolding attempt
  sends_waiting busy room = sends_all_later v open_ write message (ground arith) room

  -- `sendInLoop` on a connection that is not closed puts the message behind all that was sent
  -- before, in the socket or in the output buffer; nothing is lost, repeated or reordered, whatever
  -- part of the message write(2) takes, if it fails neither with EPIPE nor with ECONNRESET and the
  -- output buffer can hold the message.
  pub sends_in_loop_lem :
      Takes (length message) (write message)
      → is_broken (write message) ≡ false
      → c.output.writer_index + length message ≤ max_size
      → Extends c message (sends_in_loop write message c)
  sends_in_loop_lem takes fine room = elim (Bool-cases (writing c)) [
    | inl busy ↦ sends_waiting busy room
    | inr idle ↦
        sends_now (write message) refl takes fine idle (ground (arith, v.pending open_))
          (omega arith) room
  ]
