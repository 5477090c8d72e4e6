-- ===== src/Connector/Sockets.antt =====
-- The sockets that a connector opens, and where they go.
use lux_polaris.Prelude.{
  Bool-cases, inl, inr, ℕ, ◌+◌, ◌≡◌, refl, Bool, true, false, is_some, List, [], ◌∷◌, Option, none,
  some, Outcome, ok, arith, if◌then◌else◌, ◌==◌, ok_injective, sym, ◌∙◌, subst,
}
use lux_polaris.Connector.{
  disconnected, init_retry_delay_ms, Connector, Action, opens, closes, hands_over, Connected,
  is_connecting, is_disconnected, is_connected, connect_returned, connects, awaits_connection,
  start, start_in_loop, stop, stop_in_loop, restart, handle_write, handle_error, reset_channel,
  retry, arrived, remove_and_reset_channel, note, connecting, success, in_progress, interrupted,
  already_connected, again, address_in_use, address_not_available, connection_refused,
  network_unreachable, access, not_permitted, family_not_supported, already, bad_descriptor,
  bad_address, not_a_socket, unexpected, queues_reset,
}

-- How often the socket was opened.
abbrev pub opened : ℕ → List Action → ℕ
opened n [] = 0
opened n (opens fd ∷ log) = (if fd == n then 1 else 0) + opened n log
opened n (_ ∷ log) = opened n log

-- How often it left the connector.
abbrev pub released : ℕ → List Action → ℕ
released n [] = 0
released n (closes fd ∷ log) = (if fd == n then 1 else 0) + released n log
released n (hands_over fd ∷ log) = (if fd == n then 1 else 0) + released n log
released n (_ ∷ log) = released n log

abbrev pub held : ℕ → Option ℕ → ℕ
held n none = 0
held n (some fd) = if fd == n then 1 else 0

-- The socket `n` was opened as often as it was closed or handed over, and once more if the connector
-- is connecting and its channel holds it.
pub record AccountedFor (n : ℕ) (c : Connector) : Type 0 where
  pub sockets :
      opened n c.log ≡ released n c.log + (if is_connecting c.state then held n c.channel else 0)
  pub watched : c.watching ≡ is_connecting c.state
  pub channelled : is_connecting c.state ≡ true → is_some c.channel ≡ true

abbrev pub Accounted : Connector → Type 0
Accounted c = (n : ℕ) → AccountedFor n c

-- A call of a function, with what the system answers in it.
pub data Operation : Type 0 where
  starts : Bool → ℕ → Connected → Operation
  runs_start restarts : ℕ → Connected → Operation
  stops runs_stop runs_reset fails : Operation
  writable : Bool → Bool → Operation

unfoldable pub step : Operation → Connector → Outcome Connector
step (starts in_loop sockfd result) c = start in_loop sockfd result c
step (runs_start sockfd result) c = start_in_loop sockfd result c
step (restarts sockfd result) c = restart sockfd result c
step stops c = ok (stop c)
step runs_stop c = stop_in_loop c
step runs_reset c = ok (reset_channel c)
step fails c = handle_error c
step (writable err self_connect) c = handle_write err self_connect c

-- When the operation may be called: what the assertions of the source and the order of the loop's
-- functors ask for.
abbrev pub Allowed : Operation → Connector → Type 0
Allowed (starts in_loop sockfd result) c = (is_disconnected c.state ≡ true) × (c.channel ≡ none)
Allowed (runs_start sockfd result) c = (is_disconnected c.state ≡ true) × (c.channel ≡ none)
Allowed (restarts sockfd result) c = (is_connecting c.state ≡ false) × (c.channel ≡ none)
Allowed runs_reset c = is_connecting c.state ≡ false
Allowed (writable err self_connect) c = is_connected c.state ≡ false
Allowed _ c = Unit {0}

abbrev pub Accounts : Outcome Connector → Type 0
Accounts o = (d : Connector) × (o ≡ ok d) × Accounted d

abbrev AccountsFor : ℕ → Outcome Connector → Type 0
AccountsFor n o = (d : Connector) × (o ≡ ok d) × AccountedFor n d

retry-Accounted :
    (n sockfd : ℕ) (c : Connector)
    → c.watching ≡ false
    → opened n c.log ≡ (if sockfd == n then 1 else 0) + released n c.log
    → AccountedFor n (retry sockfd c)
unfolding retry
retry-Accounted n sockfd c h k = ground arith

some_of : (o : Option ℕ) → is_some o ≡ true → (n : ℕ) × (o ≡ some n)
some_of none h = ground arith
some_of (some n) h = (n, refl)

abbrev given_up : Connector → Connector
given_up c = note queues_reset (record c { watching = false })

-- A channel that is waited for is given up, and its socket returned.
removes_lem :
    (c : Connector)
    → is_some c.channel ≡ true
    → (sockfd : ℕ) × (c.channel ≡ some sockfd)
      × (remove_and_reset_channel c ≡ ok (sockfd, given_up c))
unfolding remove_and_reset_channel
removes_lem c h = let (sockfd, e) = some_of c.channel h in (sockfd, e, rw e refl)

module _ {n : ℕ} {c : Connector} (v : AccountedFor n c) where
  awaits_connection-Accounts :
      (sockfd : ℕ)
      → is_connecting c.state ≡ false
      → c.channel ≡ none
      → AccountsFor n (awaits_connection sockfd (note (opens sockfd) c))
  unfolding awaits_connection
  awaits_connection-Accounts sockfd h k = (
    record (note (opens sockfd) c) { state = connecting; channel = some sockfd; watching = true },
    ground arith,
    ground (arith, v),
  )

  closes-Accounted :
      (sockfd : ℕ)
      → is_connecting c.state ≡ false
      → AccountedFor n (note (closes sockfd) (note (opens sockfd) c))
  closes-Accounted sockfd h = ground (arith, v)

  retry_opened :
      (sockfd : ℕ)
      → is_connecting c.state ≡ false
      → AccountedFor n (retry sockfd (note (opens sockfd) c))
  retry_opened sockfd h =
      retry-Accounted n sockfd (note (opens sockfd) c) (ground (arith, v)) (ground (arith, v))

  connects-Accounts :
      (sockfd : ℕ) (result : Connected)
      → is_connecting c.state ≡ false
      → c.channel ≡ none
      → AccountsFor n (connects sockfd result c)
  unfolding connects connect_returned
  connects-Accounts sockfd success h k = awaits_connection-Accounts sockfd h k
  connects-Accounts sockfd in_progress h k = awaits_connection-Accounts sockfd h k
  connects-Accounts sockfd interrupted h k = awaits_connection-Accounts sockfd h k
  connects-Accounts sockfd already_connected h k = awaits_connection-Accounts sockfd h k
  connects-Accounts sockfd again h k = (_, refl, retry_opened sockfd h)
  connects-Accounts sockfd address_in_use h k = (_, refl, retry_opened sockfd h)
  connects-Accounts sockfd address_not_available h k = (_, refl, retry_opened sockfd h)
  connects-Accounts sockfd connection_refused h k = (_, refl, retry_opened sockfd h)
  connects-Accounts sockfd network_unreachable h k = (_, refl, retry_opened sockfd h)
  connects-Accounts sockfd access h k = (_, refl, closes-Accounted sockfd h)
  connects-Accounts sockfd not_permitted h k = (_, refl, closes-Accounted sockfd h)
  connects-Accounts sockfd family_not_supported h k = (_, refl, closes-Accounted sockfd h)
  connects-Accounts sockfd already h k = (_, refl, closes-Accounted sockfd h)
  connects-Accounts sockfd bad_descriptor h k = (_, refl, closes-Accounted sockfd h)
  connects-Accounts sockfd bad_address h k = (_, refl, closes-Accounted sockfd h)
  connects-Accounts sockfd not_a_socket h k = (_, refl, closes-Accounted sockfd h)
  connects-Accounts sockfd (unexpected errno) h k = (_, refl, closes-Accounted sockfd h)

  start_in_loop-Accounts :
      (sockfd : ℕ) (result : Connected)
      → is_disconnected c.state ≡ true
      → c.channel ≡ none
      → AccountsFor n (start_in_loop sockfd result c)
  unfolding start_in_loop
  start_in_loop-Accounts sockfd result h k = elim (Bool-cases c.connect) [
    | inl wanted ↦
        let (d, e, w) = connects-Accounts sockfd result (ground arith) k in (d, ground arith, w)
    | inr unwanted ↦ (c, ground arith, v)
  ]

  -- The channel is given up, and its socket closed.
  handle_error-Accounts : AccountsFor n (handle_error c)
  unfolding handle_error
  handle_error-Accounts = elim (Bool-cases (is_connecting c.state)) [
    | inl waits ↦
        let (sockfd, at, e) = removes_lem c (v.channelled waits) in
        (
          retry sockfd (given_up c),
          ground arith,
          retry-Accounted n sockfd (given_up c) refl (ground (arith, v, at)),
        )
    | inr idle ↦ (c, ground arith, v)
  ]

  stop_in_loop-Accounts : AccountsFor n (stop_in_loop c)
  unfolding stop_in_loop
  stop_in_loop-Accounts = elim (Bool-cases (is_connecting c.state)) [
    | inl waits ↦
        let (sockfd, at, e) =
          removes_lem (record c { state = disconnected }) (v.channelled waits) in
        (
          retry sockfd (given_up (record c { state = disconnected })),
          ground arith,
          retry-Accounted n sockfd (given_up (record c { state = disconnected })) refl
              (ground (arith, v, at)),
        )
    | inr idle ↦ (c, ground arith, v)
  ]

  arrived-Accounted :
      (err self_connect : Bool) (sockfd : ℕ)
      → is_connecting c.state ≡ true
      → c.channel ≡ some sockfd
      → AccountedFor n (arrived err self_connect sockfd (given_up c))
  unfolding arrived retry
  arrived-Accounted err self_connect sockfd waits at = ground (arith, v, at)

  handle_write-Accounts :
      (err self_connect : Bool)
      → is_connected c.state ≡ false
      → AccountsFor n (handle_write err self_connect c)
  unfolding handle_write
  handle_write-Accounts err self_connect h = elim (Bool-cases (is_connecting c.state)) [
    | inl waits ↦
        let (sockfd, at, e) = removes_lem c (v.channelled waits) in
        (
          arrived err self_connect sockfd (given_up c),
          ground arith,
          arrived-Accounted err self_connect sockfd waits at,
        )
    | inr idle ↦ (c, ground arith, v)
  ]

module _ {n : ℕ} {c : Connector} (v : AccountedFor n c) where
  start-Accounts :
      (in_loop : Bool) (sockfd : ℕ) (result : Connected)
      → is_disconnected c.state ≡ true
      → c.channel ≡ none
      → AccountsFor n (start in_loop sockfd result c)
  unfolding start
  start-Accounts true sockfd result h k =
      start_in_loop-Accounts {c = record c { connect = true }} (ground (arith, v)) sockfd result h k
  start-Accounts false sockfd result h k = (_, refl, ground (arith, v))

  restart-Accounts :
      (sockfd : ℕ) (result : Connected)
      → is_connecting c.state ≡ false
      → c.channel ≡ none
      → AccountsFor n (restart sockfd result c)
  unfolding restart
  restart-Accounts sockfd result h k =
      start_in_loop-Accounts
        {c = record c {
          state = disconnected;
          retry_delay_ms = init_retry_delay_ms;
          connect = true;
        }}
        (ground (arith, v)) sockfd result refl k

  step-AccountsFor : (o : Operation) → Allowed o c → AccountsFor n (step o c)
  unfolding step stop reset_channel
  step-AccountsFor (starts in_loop sockfd result) (h, k) = start-Accounts in_loop sockfd result h k
  step-AccountsFor (runs_start sockfd result) (h, k) = start_in_loop-Accounts v sockfd result h k
  step-AccountsFor (restarts sockfd result) (h, k) = restart-Accounts sockfd result h k
  step-AccountsFor stops h = (_, refl, ground (arith, v))
  step-AccountsFor runs_stop h = stop_in_loop-Accounts v
  step-AccountsFor runs_reset h = (_, refl, ground (arith, v))
  step-AccountsFor fails h = handle_error-Accounts v
  step-AccountsFor (writable err self_connect) h = handle_write-Accounts v err self_connect h

-- One outcome for all sockets.
for_all : (o : Outcome Connector) → ((n : ℕ) → AccountsFor n o) → Accounts o
for_all o each =
    let (d, e, v) = each 0 in
    (d, e, λ n. let (f, e', w) = each n in subst (AccountedFor n) (ok_injective (sym e' ∙ e)) w)

-- Every operation that the assertions and the order of the loop's functors allow returns; the
-- connector has then closed or handed over each socket exactly as often as it has opened it, but for
-- one while it is connecting, which its channel holds and waits for.
pub step-Accounts :
    (o : Operation) {c : Connector} → Accounted c → Allowed o c → Accounts (step o c)
step-Accounts o {c} v allowed = for_all (step o c) (λ n. step-AccountsFor (v n) o allowed)
