-- ===== src/Connection/Staying.antt =====
-- LuxPolaris/src/TCPConnection.cc: the methods that leave an open connection open.
use lux_polaris.Prelude.{
  take, drop, ℕ, ◌≤◌, ◌≡◌, refl, true, false, List, ◌++◌, ok, arith, if◌then◌else◌, Bool-cases,
  Holds, >>=-Holds, if-Holds, inl, inr, ltb, ◌==◌, not, ◌&&◌, assert,
}
use lux_polaris.Buffer.{Buffer, readable_bytes, retrieve, to_string_piece, append}
use lux_polaris.Connection.{
  is_disconnected, is_connecting, Connection, Written, wrote, refused, attempt, after_write,
  writing, keep_rest, sends_in_loop, Attempt,
}
use lux_polaris.Connection.Closing.{shuts_down_in_loop}
use lux_polaris.Connection.Handling.{handle_write, written, wrote_some, drained}
use lux_polaris.Connection.Lifecycle.{closed}

-- Open before and after.
pub record Stays (c d : Connection) : Type 0 where
  pub live : is_disconnected d.state ≡ false
  pub same : is_connecting d.state ≡ is_connecting c.state
  pub told : closed c ≤ closed d
  pub still : c.registered ≡ true → d.registered ≡ true

keep_rest-Stays :
    (c : Connection) {d : Connection} (rest : List ℕ) (n : ℕ)
    → Stays c d
    → Holds (Stays c) (keep_rest rest n d)
unfolding keep_rest
keep_rest-Stays c rest n s = >>=-Holds (Stays c) (append rest _) _ (λ output. ground (arith, s))

module _ (c : Connection) (live : is_disconnected c.state ≡ false) where
  itself : Stays c c
  itself = record { live = live; same = refl; told = omega arith; still = λ h. h }

  after_write-Stays : (message : List ℕ) (w : Written) → Stays c (after_write message w c).conn
  unfolding after_write
  after_write-Stays message (wrote n) = ground (arith, live)
  after_write-Stays message (refused e) = itself

  attempt-Stays :
      (write : List ℕ → Written) (message : List ℕ) → Stays c (attempt write message c).conn
  unfolding attempt
  attempt-Stays write message =
      elim (Bool-cases (not (writing c) && (readable_bytes c.output == 0))) [
        | inl direct ↦ rw direct (after_write-Stays message (write message))
        | inr later ↦ rw later itself
      ]

  pub sends_in_loop-Stays :
      (write : List ℕ → Written) (message : List ℕ)
      → Holds (Stays c) (sends_in_loop write message c)
  unfolding sends_in_loop
  sends_in_loop-Stays write message = rw live (>>=-Holds (Stays c) (assert _) _ (λ checked. behind))
    where
      tried : Attempt
      tried = attempt write message c

      behind : Holds (Stays c) (
          if not tried.fault_error && ltb 0 tried.remaining
          then keep_rest (drop tried.nwrote message) tried.remaining tried.conn
          else ok tried.conn)
      behind =
          if-Holds (Stays c) (not tried.fault_error && ltb 0 tried.remaining) _ _
            (keep_rest-Stays c _ _ (attempt-Stays write message)) (attempt-Stays write message)

  drained_on :
      (output : Buffer) (socket : List ℕ)
      → Stays c (drained (record c { output = output; socket = socket }))
  unfolding drained shuts_down_in_loop
  drained_on output socket = record {
    live = ground (arith, live);
    same = ground arith;
    told = ground arith;
    still = λ h. ground (arith, h);
  }

  wrote_some-Stays : (n : ℕ) (bytes : List ℕ) → Holds (Stays c) (wrote_some n bytes c)
  unfolding wrote_some
  wrote_some-Stays n bytes = >>=-Holds (Stays c) (retrieve n c.output) _ (λ output.
      elim (Bool-cases (readable_bytes output == 0)) [
        | inl empty ↦ rw empty (drained_on output (c.socket ++ take n bytes))
        | inr some_left ↦ rw some_left (ground (arith, live))
      ])

  written-Stays : (bytes : List ℕ) (w : Written) → Holds (Stays c) (written bytes w c)
  unfolding written
  written-Stays bytes (refused e) = itself
  written-Stays bytes (wrote n) = if-Holds (Stays c) (ltb 0 n) _ _ (wrote_some-Stays n bytes) itself

  pub handle_write_live : (write : List ℕ → Written) → Holds (Stays c) (handle_write write c)
  unfolding handle_write
  handle_write_live write =
      if-Holds (Stays c) (writing c) _ _
        (>>=-Holds (Stays c) (to_string_piece c.output) _
          (λ bytes. written-Stays bytes (write bytes)))
        itself
