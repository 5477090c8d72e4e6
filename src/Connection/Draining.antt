-- ===== src/Connection/Draining.antt =====
-- LuxPolaris/src/TCPConnection.cc: a peer that reads gets all that was sent.
use native.Mathlib.Decide.{dec_lt}
use lux_polaris.Prelude.{
  ok_injective, ℕ, ◌≤◌, ◌<◌, ◌≡◌, refl, sym, ap, ◌∙◌, subst, true, false, ◌==◌, List, [], ◌∷◌, ◌++◌,
  Outcome, ok, ◌>>=◌, arith, if◌then◌else◌, length, take, drop, length-drop, nil_of_length,
  append-nil,
}
use lux_polaris.Buffer.{Buffer, readable_bytes, retrieve}
use lux_polaris.Buffer.Invariant.{contents, length-contents, Yields}
use lux_polaris.Buffer.Contents.Queue.{retrieve_lem}
use lux_polaris.Connection.{
  Connection, Written, wrote, is_disconnected, is_disconnecting, shutdown_write, writing, Action,
}
use lux_polaris.Connection.Handling.{handle_write, written, wrote_some, drained}
use lux_polaris.Connection.Invariant.{IsValid, Takes, stream}
use lux_polaris.Connection.Writing.{drained-output, handle_write_waiting, handle_write_lem}

-- The socket is writable once for each of the answers of write(2).
abbrev pub handle_writes : List (List ℕ → Written) → Connection → Outcome Connection
handle_writes [] c = ok c
handle_writes (write ∷ writes) c = handle_write write c >>= handle_writes writes

-- write(2) takes some of what it is given, as it does on a writable socket whose peer reads.
abbrev pub Progresses : (List ℕ → Written) → Type 0
Progresses write =
    (bytes : List ℕ)
    → 0 < length bytes
    → (n : ℕ) × (write bytes ≡ wrote n) × (0 < n) × (n ≤ length bytes)

abbrev pub AllProgress : List (List ℕ → Written) → Type 0
AllProgress [] = Unit {0}
AllProgress (write ∷ writes) = Progresses write × AllProgress writes

-- All that was sent is out, the connection waits for nothing to be writable, and its write side is
-- shut down if the connection is disconnecting.
abbrev pub Empties : Connection → Outcome Connection → Type 0
Empties c o =
    (d : Connection) × (o ≡ ok d)
    × (d.socket ≡ stream c)
    × (contents d.output ≡ [])
    × (writing d ≡ false)
    × (d.state ≡ c.state)
    × (0 < length (contents c.output)
        → is_disconnecting c.state ≡ true
        → (before : List Action) × (d.log ≡ shutdown_write ∷ before))

module _ {c : Connection} (v : IsValid c) (open_ : is_disconnected c.state ≡ false)
    (write : List ℕ → Written) (n : ℕ) (waits : writing c ≡ true)
    (e : write (contents c.output) ≡ wrote n) (some_out : 0 < n)
    (few : n ≤ length (contents c.output)) where
  abbrev left_over : Buffer → Connection
  left_over output = record c { output = output; socket = c.socket ++ take n (contents c.output) }

  abbrev behind : Buffer → Connection
  behind output =
      if readable_bytes output == 0 then drained (left_over output) else left_over output

  behind-output : (output : Buffer) → (behind output).output ≡ output
  behind-output output = ground (arith, drained-output (left_over output))

  written_some : written (contents c.output) (wrote n) c ≡ wrote_some n (contents c.output) c
  unfolding written
  written_some = ground arith

  wrote_behind :
      (output : Buffer)
      → retrieve n c.output ≡ ok output
      → wrote_some n (contents c.output) c ≡ ok (behind output)
  unfolding wrote_some
  wrote_behind output e' = rw e' refl

  pub out_by :
      Yields (retrieve n c.output) (drop n (contents c.output))
      → (d : Connection) × (handle_write write c ≡ ok d)
        × (contents d.output ≡ drop n (contents c.output))
  out_by (output, e', w, all) = (
    behind output,
    handle_write_waiting v open_ write waits
        ∙ ap (λ a. written (contents c.output) a c) e
        ∙ written_some
        ∙ wrote_behind output e',
    ap contents (behind-output output) ∙ all,
  )

  -- A round makes the pending bytes fewer.
  round :
      (d : Connection) × (handle_write write c ≡ ok d)
      × (length (contents d.output) < length (contents c.output))
      × IsValid d
      × (stream d ≡ stream c)
      × (d.state ≡ c.state)
      × (readable_bytes d.output ≡ 0
          → is_disconnecting c.state ≡ true
          → (before : List Action) × (d.log ≡ shutdown_write ∷ before))
  round =
      let (d, e1, fewer) =
        out_by (retrieve_lem v.output n (omega (arith, length-contents v.output))) in
      let (d', e2, w, all, same, shuts) = handle_write_lem v open_ write waits takes in
      (
        d',
        e2,
        shrinks d' (ap (λ x. contents x.output) (ok_injective (sym e2 ∙ e1)) ∙ fewer),
        w,
        all,
        same,
        shuts,
      )
    where
      takes : Takes (length (contents c.output)) (write (contents c.output))
      takes = subst (Takes (length (contents c.output))) (sym e) few

      shrinks :
          (d : Connection)
          → contents d.output ≡ drop n (contents c.output)
          → length (contents d.output) < length (contents c.output)
      shrinks d fewer = omega (arith, ap length fewer, length-drop n (contents c.output))

-- Nothing is written while nothing is pending.
module _ {c : Connection} (v : IsValid c) (open_ : is_disconnected c.state ≡ false)
    (none_pending : length (contents c.output) ≡ 0) where
  idle : writing c ≡ false
  idle = ground (arith, v.pending open_, length-contents v.output)

  idle_writes : (writes : List (List ℕ → Written)) → handle_writes writes c ≡ ok c
  unfolding handle_write
  idle_writes [] = refl
  idle_writes (write ∷ writes) = ap (λ o. o >>= handle_writes writes) skipped ∙ idle_writes writes
    where
      skipped : handle_write write c ≡ ok c
      skipped = ground (arith, idle)

  idle-Empties : (writes : List (List ℕ → Written)) → Empties c (handle_writes writes c)
  idle-Empties writes = (
    c,
    idle_writes writes,
    sym (ap (λ o. c.socket ++ o) none_left ∙ append-nil c.socket),
    none_left,
    idle,
    refl,
    λ some_left. absurd (omega arith),
  )
    where
      none_left : contents c.output ≡ []
      none_left = nil_of_length (contents c.output) (omega arith)

-- The rounds after the first.
module _ {c d : Connection} (v : IsValid c) (open_ : is_disconnected c.state ≡ false)
    (write : List ℕ → Written) (writes : List (List ℕ → Written)) (e : handle_write write c ≡ ok d)
    (w : IsValid d) (same_stream : stream d ≡ stream c) (same_state : d.state ≡ c.state)
    (shuts : readable_bytes d.output ≡ 0
      → is_disconnecting c.state ≡ true
      → (before : List Action) × (d.log ≡ shutdown_write ∷ before)) where
  first_last :
      {r : Connection}
      → length (contents d.output) ≡ 0
      → handle_writes writes d ≡ ok r
      → is_disconnecting c.state ≡ true
      → (before : List Action) × (r.log ≡ shutdown_write ∷ before)
  first_last {r} empty e' k =
      let (before, l) = shuts (omega (arith, length-contents w.output)) k in
      (before, ap (λ x. x.log) same ∙ l)
    where
      same : r ≡ d
      same =
          ok_injective (sym e' ∙ idle_writes w (ap is_disconnected same_state ∙ open_) empty writes)

  rounds : Empties d (handle_writes writes d) → Empties c (handle_writes (write ∷ writes) c)
  rounds (r, e', out, none_left, quiet, state, last) = (
    r,
    ap (λ o. o >>= handle_writes writes) e ∙ e',
    out ∙ same_stream,
    none_left,
    quiet,
    state ∙ same_state,
    λ h k. elim (dec_lt 0 (length (contents d.output))) [
      | yes some_left ↦ last some_left (ap is_disconnecting same_state ∙ k)
      | no empty ↦ first_last (omega arith) e' k
    ],
  )

busy :
    {c : Connection}
    → IsValid c
    → is_disconnected c.state ≡ false
    → 0 < length (contents c.output)
    → writing c ≡ true
busy v open_ h = ground (arith, v.pending open_, length-contents v.output)

writes-Empties :
    (writes : List (List ℕ → Written))
    → AllProgress writes
    → (c : Connection) → IsValid c
    → is_disconnected c.state ≡ false
    → length (contents c.output) ≤ length writes
    → Empties c (handle_writes writes c)
writes-Empties [] all c v open_ enough = idle-Empties v open_ (omega arith) []
writes-Empties (write ∷ writes) (progresses, all) c v open_ enough =
    elim (dec_lt 0 (length (contents c.output))) [
      | no none_pending ↦ idle-Empties v open_ (omega arith) (write ∷ writes)
      | yes some_pending ↦
          let (n, e, some_out, few) = progresses (contents c.output) some_pending in
          let (d, e', fewer, w, same_stream, same_state, shuts) =
            round v open_ write n (busy v open_ some_pending) e some_out few in
          rounds v open_ write writes e' w same_stream same_state shuts (
            writes-Empties writes all d w (ap is_disconnected same_state ∙ open_)
              (omega (arith, fewer)))
    ]

-- On a valid connection that is not closed, as many writable events as bytes are pending are enough,
-- where write(2) takes at least one byte each time: every byte that was sent has then gone to the
-- socket, in order, the connection waits for nothing to be writable, and if it is disconnecting and
-- bytes were pending its last act is the shutdown of the write side.
pub handle_writes_lem :
    (c : Connection) (v : IsValid c)
    → is_disconnected c.state ≡ false
    → (writes : List (List ℕ → Written)) → AllProgress writes
    → length (contents c.output) ≤ length writes
    → Empties c (handle_writes writes c)
handle_writes_lem c v open_ writes all enough = writes-Empties writes all c v open_ enough
