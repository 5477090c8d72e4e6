-- ===== src/Server/Running.antt =====
-- LuxPolaris/src/TCPServer.cc with TCPConnection.cc: a server, its connections and the functors that
-- wait in the loops, as single steps. Each loop runs its functors in order, or at once in its own
-- thread; here any one that waits may be the next, which is more than the loops can do.
use lux_polaris.Prelude.{ℕ, suc, ◌-◌, ◌<◌, ◌≡◌, List, [], ◌∷◌, ◌++◌, ok, update, replicate}
use lux_polaris.Buffer.{Buffer}
use lux_polaris.Connection.{Connection, make}
use lux_polaris.Connection.Closing.{connect_established, connect_destroyed}
use lux_polaris.Connection.Operation.{Operation, step}
use lux_polaris.Connection.Lifecycle.{closed}
use lux_polaris.Connection.Ending.{Permitted}
use lux_polaris.Server.{Server, new_connection, remove_connection_in_loop}
use lux_polaris.Server.Connections.{established}

-- What waits in a loop: `connectEstablished` and `connectDestroyed` of a connection in the connection's
-- loop, `removeConnectionInLoop` in the server's.
pub data Functor : Type 0 where
  runs_established runs_remove runs_destroyed : ℕ → Functor

-- `ended` are the connections whose `connectDestroyed` has returned.
pub record World (L : Type 0) : Type 0 where
  pub server : Server L
  pub conns : ℕ → Connection
  pub waiting : List Functor
  pub ended : List ℕ

-- `removeConnection`, the close callback that the server gives to its connections: it queues one
-- functor for each call that a method made.
abbrev pub remove_connection : ℕ → Connection → Connection → List Functor
remove_connection id before after = replicate (closed after - closed before) (runs_remove id)

module _ {L : Type 0} where
  -- A server that runs, before its first connection; `input` and `output` stand where there is none.
  abbrev pub opens : Buffer → Buffer → Server L → World L
  opens input output s = record {
    server = s;
    conns = λ id. make input output;
    waiting = [];
    ended = [];
  }

  pub data Step (w : World L) : World L → Type 0 where
    accepts :
        (input output : Buffer) {s : Server L}
        → new_connection w.server ≡ ok s
        → Step w (record w {
          server = s;
          conns = update w.conns w.server.next_conn_id (make input output);
          waiting = runs_established w.server.next_conn_id ∷ w.waiting;
        })
    acts :
        (id : ℕ) (o : Operation) {d : Connection}
        → 0 < established id w.server.log
        → Permitted o (w.conns id)
        → step o (w.conns id) ≡ ok d
        → Step w (record w {
          conns = update w.conns id d;
          waiting = remove_connection id (w.conns id) d ++ w.waiting;
        })
    establishes :
        (id : ℕ) (front rest : List Functor) {d : Connection}
        → w.waiting ≡ front ++ (runs_established id ∷ rest)
        → connect_established (w.conns id) ≡ ok d
        → Step w (record w { conns = update w.conns id d; waiting = front ++ rest })
    removes :
        (id : ℕ) (front rest : List Functor) {s : Server L}
        → w.waiting ≡ front ++ (runs_remove id ∷ rest)
        → remove_connection_in_loop id w.server ≡ ok s
        → Step w (record w { server = s; waiting = runs_destroyed id ∷ (front ++ rest) })
    destroys :
        (id : ℕ) (front rest : List Functor) {d : Connection}
        → w.waiting ≡ front ++ (runs_destroyed id ∷ rest)
        → connect_destroyed (w.conns id) ≡ ok d
        → Step w (record w {
          conns = update w.conns id d;
          waiting = front ++ rest;
          ended = id ∷ w.ended;
        })

  pub data Reaches (w : World L) : World L → Type 0 where
    start : Reaches w w
    more : {u v : World L} → Reaches w u → Step u v → Reaches w v

  -- A step of a loop that runs a functor.
  abbrev pub IsRun : {w v : World L} → Step w v → Type 0
  IsRun (accepts input output e) = ⊥
  IsRun (acts id o made permitted e) = ⊥
  IsRun _ = Unit {0}

  -- The loops run functors, and nothing else happens, until none waits: `v` is what they come to.
  pub data Settles (v : World L) : World L → Type 0 where
    settled : v.waiting ≡ [] → Settles v v
    runs : {w u : World L} (st : Step w u) → IsRun st → Settles v u → Settles v w

  -- `n` functors were run one after the other, in any order, and nothing else happened.
  pub data Runs (w : World L) : ℕ → World L → Type 0 where
    none_run : Runs w 0 w
    run_more : {n : ℕ} {u v : World L} → Runs w n u → (st : Step u v) → IsRun st → Runs w (suc n) v
