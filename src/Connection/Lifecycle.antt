-- ===== src/Connection/Lifecycle.antt =====
-- The life of a connection: it is up once and down once, in that order, whatever is called and
-- however the calls from several threads are ordered.
use lux_polaris.Prelude.{
  ℕ, ◌+◌, ◌≤◌, ◌≡◌, Bool, true, false, List, [], ◌∷◌, arith, if◌then◌else◌, Bool-cases, Holds,
  >>=-Holds, inl, inr, ◌==◌, not, ◌&&◌,
}
use lux_polaris.Buffer.{readable_bytes, append}
use lux_polaris.Connection.{
  State, disconnected, connecting, connected, disconnecting, is_disconnected, is_connecting,
  Connection, Action, up, down, close_callback, Written, wrote, refused, attempt, after_write,
  writing, keep_rest,
}
use lux_polaris.Connection.Closing.{shuts_down_in_loop, handle_close}
use lux_polaris.Connection.Handling.{drained}

abbrev is_up : Action → Bool
is_up up = true
is_up _ = false

abbrev is_down : Action → Bool
is_down down = true
is_down _ = false

abbrev is_close : Action → Bool
is_close close_callback = true
is_close _ = false

-- How often an action stands in the log.
abbrev pub count : (Action → Bool) → List Action → ℕ
count p [] = 0
count p (a ∷ log) = (if p a then 1 else 0) + count p log

abbrev pub ups : Connection → ℕ
ups c = count is_up c.log

abbrev pub downs : Connection → ℕ
downs c = count is_down c.log

abbrev pub closed : Connection → ℕ
closed c = count is_close c.log

-- The states in the order in which a connection passes them.
abbrev pub rank : State → ℕ
rank connecting = 0
rank connected = 1
rank disconnecting = 2
rank disconnected = 3

-- The connection came up if it is past `connecting`, and went down if it is closed; the owner was
-- told at most once.
pub record Lived (c : Connection) : Type 0 where
  pub came_up : ups c ≡ (if is_connecting c.state then 0 else 1)
  pub went_down : downs c ≡ (if is_disconnected c.state then 1 else 0)
  pub told_owner : closed c ≤ downs c

abbrev pub Next : ℕ → Connection → Type 0
Next low c = Lived c × (low ≤ rank c.state)

module _ {c : Connection} (v : Lived c) (low : ℕ) (h : low ≤ rank c.state) where
  keep_rest-Next : (rest : List ℕ) (n : ℕ) → Holds (Next low) (keep_rest rest n c)
  unfolding keep_rest
  keep_rest-Next rest n =
      >>=-Holds (Next low) (append rest _) _ (λ output. (ground (arith, v), ground (arith, h)))

  after_write-Next : (message : List ℕ) (w : Written) → Next low (after_write message w c).conn
  unfolding after_write
  after_write-Next message (wrote n) = (ground (arith, v), ground (arith, h))
  after_write-Next message (refused e) = (v, h)

  pub attempt-Next :
      (write : List ℕ → Written) (message : List ℕ) → Next low (attempt write message c).conn
  unfolding attempt
  attempt-Next write message =
      elim (Bool-cases (not (writing c) && (readable_bytes c.output == 0))) [
        | inl direct ↦ rw direct (after_write-Next message (write message))
        | inr later ↦ rw later (v, h)
      ]

  pub shuts_down_in_loop-Next : Next low (shuts_down_in_loop c)
  unfolding shuts_down_in_loop
  shuts_down_in_loop-Next = (ground (arith, v), ground (arith, h))

  pub handle_close-Next : Holds (Next low) (handle_close c)
  unfolding handle_close
  handle_close-Next = ground (arith, v, h)

  pub drained-Next : Next low (drained c)
  unfolding drained shuts_down_in_loop
  drained-Next = (ground (arith, v), ground (arith, h))

pub Next-keep_rest :
    {c : Connection} (low : ℕ)
    → Next low c
    → (rest : List ℕ) (n : ℕ) → Holds (Next low) (keep_rest rest n c)
Next-keep_rest low (v, h) rest n = keep_rest-Next v low h rest n
