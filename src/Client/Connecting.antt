-- ===== src/Client/Connecting.antt =====
-- The connections of a client: one at a time.
use lux_polaris.Prelude.{
  holds, ◌==◌, ◌≤◌, ℕ, ◌+◌, ◌<◌, ◌≡◌, refl, sym, ◌∙◌, subst, Bool, true, false, List, [], ◌∷◌,
  Option, none, some, is_some, Outcome, ok, fault, ◌>>=◌, Holds, arith, if◌then◌else◌, ltb,
  Bool-cases, inl, inr, ==_self, ◌&&◌,
}
use lux_polaris.Connector as Connector
use lux_polaris.Connector.{Connector, Connected, is_connected, is_connecting, is_disconnected}
use lux_polaris.Client as Client
use lux_polaris.Client.{Client}
use lux_polaris.Client.Session.{
  Session, begins, handed, restarts, tell_client, close_connection, Event, connects, enables_retry,
  disconnects, stops, runs_stop, runs_reset, fails, runs_start, writable, with_connector, step,
  Reaches, start, happens, closes,
}
use lux_polaris.Client.Steady.{
  Steady, start_in_loop_aborts, handle_write_aborts, stop_in_loop_steady, handle_error_steady,
  handle_write_hands, start-Steady,
}

-- How often a connection was established, and asked to be destroyed.
abbrev pub established : ℕ → List Client.Action → ℕ
established n [] = 0
established n (Client.establishes id ∷ log) = (if id == n then 1 else 0) + established n log
established n (_ ∷ log) = established n log

abbrev pub destroyed : ℕ → List Client.Action → ℕ
destroyed n [] = 0
destroyed n (Client.destroys id ∷ log) = (if id == n then 1 else 0) + destroyed n log
destroyed n (_ ∷ log) = destroyed n log

-- Each connection but the open one was asked to be destroyed as often as it was established, and that
-- is at most once.
abbrev pub Counted : Option ℕ → Client → Type 0
Counted open_one c =
    (n : ℕ)
    → (established n c.log ≡ destroyed n c.log + (if holds open_one n then 1 else 0))
      × (established n c.log ≤ (if ltb n c.next_conn_id then 1 else 0))

-- The client holds the connection that is open, and no other; while it does, its connector has done
-- its work. All connections but that one have been asked to be destroyed.
pub record Linked (s : Session) : Type 0 where
  pub held : s.client.connection ≡ s.open_one
  pub done : is_some s.open_one ≡ true → is_connected s.connector.state ≡ true
  pub counted : Counted s.open_one s.client

not_some : (o : Option ℕ) → is_some o ≡ false → o ≡ none
not_some none h = refl
not_some (some n) h = cc

with_connector-Linked :
    (s : Session) (o : Outcome Connector)
    → s.client.connection ≡ s.open_one
    → Counted s.open_one s.client
    → (is_some s.open_one ≡ true → Steady o)
    → Holds Linked (with_connector s o)
with_connector-Linked s (ok k) held counted steady = record {
  held = held;
  done = steady;
  counted = counted;
}
with_connector-Linked s (fault f) held counted steady = tt

tell_client-Linked :
    (s : Session) (k : Connector)
    → Linked s
    → s.open_one ≡ none
    → (handed s.connector.log < handed k.log → is_connected k.state ≡ true)
    → Linked (tell_client s.connector k s)
unfolding tell_client Client.new_connection
tell_client-Linked s k v idle up = elim (Bool-cases (ltb (handed s.connector.log) (handed k.log))) [
  | inl told ↦ rw told (record {
    held = refl;
    done = λ h. up (ground (arith, told));
    counted = λ n. (ground (arith, v.counted n, idle), ground (arith, v.counted n, idle));
  })
  | inr silent ↦
      rw silent (record { held = v.held; done = ground (arith, idle); counted = v.counted })
]

writable-Linked :
    (err self_connect : Bool) (s : Session) (o : Outcome Connector)
    → Linked s
    → s.open_one ≡ none
    → Connector.handle_write err self_connect s.connector ≡ o
    → Holds Linked (o >>= λ k. ok (tell_client s.connector k s))
writable-Linked err self_connect s (ok k) v idle e =
    tell_client-Linked s k v idle (handle_write_hands err self_connect s.connector k e)
writable-Linked err self_connect s (fault f) v idle e = tt

step-Linked : (e : Event) (s : Session) → Linked s → Holds Linked (step e s)
unfolding step
step-Linked (connects in_loop sockfd result) s v =
    with_connector-Linked (record s { client = Client.connect s.client }) _ v.held v.counted
      (λ h. start-Steady in_loop sockfd result s.connector (v.done h))
step-Linked enables_retry s v = record { held = v.held; done = v.done; counted = v.counted }
step-Linked disconnects s v = disconnected_lem s.client.connection refl
  where
    disconnected_lem :
        (o : Option ℕ)
        → s.client.connection ≡ o
        → Linked (record s { client = Client.shut o (record s.client { connects = false }) })
    disconnected_lem none e = record { held = v.held; done = v.done; counted = v.counted }
    disconnected_lem (some id) e = record { held = v.held; done = v.done; counted = v.counted }
step-Linked stops s v = record {
  held = v.held;
  done = λ h. unfold Connector.stop in v.done h;
  counted = v.counted;
}
step-Linked runs_stop s v =
    with_connector-Linked s _ v.held v.counted
      (λ h. rw (stop_in_loop_steady s.connector (v.done h)) (v.done h))
step-Linked runs_reset s v = record {
  held = v.held;
  done = λ h. unfold Connector.reset_channel in v.done h;
  counted = v.counted;
}
step-Linked fails s v =
    with_connector-Linked s _ v.held v.counted
      (λ h. rw (handle_error_steady s.connector (v.done h)) (v.done h))
step-Linked (runs_start sockfd result) s v =
    with_connector-Linked s _ v.held v.counted
      (λ h. rw (start_in_loop_aborts s.connector (v.done h) sockfd result) tt)
step-Linked (writable err self_connect) s v = elim (Bool-cases (is_some s.open_one)) [
  | inl busy ↦ rw (handle_write_aborts s.connector (v.done busy) err self_connect) tt
  | inr idle ↦ writable-Linked err self_connect s _ v (not_some s.open_one idle) refl
]

-- What `removeConnection` makes of the client that holds the connection.
abbrev pub Removed : ℕ → Client → Client → Type 0
Removed id c d =
    (d.connection ≡ none)
    × (d.next_conn_id ≡ c.next_conn_id)
    × ((n : ℕ) → established n d.log ≡ established n c.log)
    × ((n : ℕ) → destroyed n d.log ≡ destroyed n c.log + (if id == n then 1 else 0))
    × (c.retries ≡ false → restarts d.log ≡ restarts c.log)

pub remove_connection_lem :
    (id : ℕ) (c : Client)
    → c.connection ≡ some id
    → (d : Client) × (Client.remove_connection id c ≡ ok d) × Removed id c d
unfolding Client.remove_connection
remove_connection_lem id c e = elim (Bool-cases (c.retries && c.connects)) [
  | inl again ↦ (
    Client.note Client.restarts_connector gone,
    rw e (rw (==_self id) (rw again refl)),
    (refl, refl, λ n. refl, λ n. omega arith, λ h. absurd (ground (arith, again, h))),
  )
  | inr no_more ↦ (
    gone,
    rw e (rw (==_self id) (rw no_more refl)),
    (refl, refl, λ n. refl, λ n. omega arith, λ h. refl),
  )
]
  where
    gone : Client
    gone = Client.note (Client.destroys id) (record c { connection = none })

-- The connector behind the close of a connection.
abbrev pub after_close : ℕ → Connected → Session → Client → Outcome Connector
after_close sockfd result s d =
    if ltb (restarts s.client.log) (restarts d.log)
    then Connector.restart sockfd result s.connector
    else ok s.connector

pub close_connection_as :
    (id sockfd : ℕ) (result : Connected) (s : Session) (d : Client)
    → Client.remove_connection id s.client ≡ ok d
    → close_connection id sockfd result s ≡ (
        after_close sockfd result s d >>= λ k.
        ok (record { client = d; connector = k; open_one = none }))
unfolding close_connection
close_connection_as id sockfd result s d e = rw e refl

closed-Linked :
    (id : ℕ) (s : Session) (d : Client) (o : Outcome Connector)
    → Linked s
    → s.open_one ≡ some id
    → Removed id s.client d
    → Holds Linked (o >>= λ k. ok (record { client = d; connector = k; open_one = none }))
closed-Linked id s d (ok k) v busy (gone, next, same, one_more, quiet) = record {
  held = gone;
  done = λ h. cc;
  counted = λ n. (
    ground (arith, v.counted n, busy, same n, one_more n),
    ground (arith, v.counted n, next, same n),
  );
}
closed-Linked id s d (fault f) v busy removed = tt

close-Linked :
    (s : Session) (id sockfd : ℕ) (result : Connected)
    → Linked s
    → s.open_one ≡ some id
    → Holds Linked (close_connection id sockfd result s)
close-Linked s id sockfd result v e =
    let (d, returns, removed) = remove_connection_lem id s.client (v.held ∙ e) in
    subst (Holds Linked) (sym (close_connection_as id sockfd result s d returns))
      (closed-Linked id s d (after_close sockfd result s d) v e removed)

pub Reaches-Linked : {s : Session} → Reaches begins s → Linked s
Reaches-Linked start = record { held = refl; done = λ h. cc; counted = λ n. (refl, omega arith) }
Reaches-Linked (happens {t} before e returns) =
    subst (Holds Linked) returns (step-Linked e t (Reaches-Linked before))
Reaches-Linked (closes {t} {id = id} before e sockfd result returns) =
    subst (Holds Linked) returns (close-Linked t id sockfd result (Reaches-Linked before) e)

-- When the connection that is open calls `removeConnection`, the assertion holds, and all connections
-- of the client have been asked to be destroyed.
abbrev pub CanClose : Option ℕ → Client → Type 0
CanClose none c = Unit {0}
CanClose (some id) c =
    (d : Client) × (Client.remove_connection id c ≡ ok d)
    × (d.connection ≡ none)
    × ((n : ℕ) → established n d.log ≡ destroyed n d.log)

Linked-CanClose : (o : Option ℕ) (s : Session) → Linked s → s.open_one ≡ o → CanClose o s.client
Linked-CanClose none s v e = tt
Linked-CanClose (some id) s v e =
    let (d, returns, (gone, next, same, one_more, quiet)) =
      remove_connection_lem id s.client (v.held ∙ e) in
    (d, returns, gone, λ n. ground (arith, v.counted n, e, same n, one_more n))

-- Whatever is called of a client and whatever the loop runs of its connector, the client holds the
-- connection that is open and no other, which a new one never replaces; its connector has connected
-- meanwhile; of all the connections that it established, each but that one has been asked once to be
-- destroyed; and the assertion of `removeConnection` holds when that one is closed.
pub session_lem : {s : Session} → Reaches begins s → Linked s × CanClose s.open_one s.client
session_lem {s} reached = let v = Reaches-Linked reached in (v, Linked-CanClose s.open_one s v refl)
