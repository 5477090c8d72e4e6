-- ===== src/Server.antt =====
-- LuxPolaris/src/TCPServer.cc: the connections of a server. A connection is named by its number, which
-- its name ends with; the name's other parts do not change. `L` stands for EventLoop*. What the server
-- gives to the loops stands in `log`, newest first.
pub mod Connections
pub mod Sharing
pub mod Running
pub mod Orderly
pub mod Stepping
pub mod Returning
pub mod Lifetimes
use lux_polaris.Prelude.{
  ℕ, suc, Bool, true, false, not, List, [], ◌∷◌, ◌++◌, Option, none, some, Outcome, ok, fault,
  assertion_failed, ◌>>=◌, ◌>>◌, if◌then◌else◌, ◌==◌,
}
use lux_polaris.LoopPool as LoopPool

-- An `int`: `negsuc n` is -(n + 1).
pub data ℤ : Type 0 where
  pos negsuc : ℕ → ℤ

-- `establishes` and `destroys` are connectEstablished and connectDestroyed of a connection, run in its
-- loop.
pub data Action (L : Type 0) : Type 0 where
  listens : Action L
  establishes destroys : L → ℕ → Action L

pub record Server (L : Type 0) : Type 0 where
  pub started : Bool
  pub thread_pool : LoopPool.Pool L
  pub next_conn_id : ℕ
  pub connections : List (ℕ × L)
  pub log : List (Action L)

module _ {L : Type 0} where
  abbrev pub new_server : L → Server L
  new_server loop = record {
    started = false;
    thread_pool = LoopPool.new_pool loop;
    next_conn_id = 1;
    connections = [];
    log = [];
  }

  -- `setThreadNum`; an `int` that is negative fails the assertion.
  unfoldable pub set_thread_num : ℤ → Server L → Outcome (Server L)
  set_thread_num (pos n) s = ok (record s { thread_pool = LoopPool.set_thread_num n s.thread_pool })
  set_thread_num (negsuc n) s = fault assertion_failed

  -- `start`, whose second call does nothing.
  unfoldable pub start : (ℕ → L) → Bool → Server L → Outcome (Server L)
  start start_loop has_callback s =
      if not s.started
      then (do
        (called, pool) ← LoopPool.start start_loop has_callback s.thread_pool
        ok (record s { started = true; thread_pool = pool; log = listens ∷ s.log }))
      else ok s

  -- `newConnection`
  unfoldable pub new_connection : Server L → Outcome (Server L)
  new_connection s = do
    (io_loop, pool) ← LoopPool.get_next_loop s.thread_pool
    let id = s.next_conn_id
    ok (record s {
      thread_pool = pool;
      next_conn_id = suc id;
      connections = (id, io_loop) ∷ s.connections;
      log = establishes io_loop id ∷ s.log;
    })

  abbrev pub kept : ℕ × L → Option (L × List (ℕ × L)) → Option (L × List (ℕ × L))
  kept c none = none
  kept c (some (loop, cs)) = some (loop, c ∷ cs)

  -- The connection's loop, and the map without it.
  abbrev pub erase : ℕ → List (ℕ × L) → Option (L × List (ℕ × L))
  erase id [] = none
  erase id ((n, loop) ∷ cs) =
      let rest = erase id cs in if n == id then some (loop, cs) else kept (n, loop) rest

  abbrev pub removed : ℕ → Server L → Option (L × List (ℕ × L)) → Outcome (Server L)
  removed id s none = fault assertion_failed
  removed id s (some (loop, cs)) =
      ok (record s { connections = cs; log = destroys loop id ∷ s.log })

  -- `removeConnectionInLoop`, with the assertion that one connection was erased.
  unfoldable pub remove_connection_in_loop : ℕ → Server L → Outcome (Server L)
  remove_connection_in_loop id s = removed id s (erase id s.connections)

  -- The loop of the destructor.
  abbrev pub destroy_all : List (ℕ × L) → List (Action L) → List (Action L)
  destroy_all [] log = log
  destroy_all ((n, loop) ∷ cs) log = destroy_all cs (destroys loop n ∷ log)

  abbrev pub destruct : Server L → List (Action L)
  destruct s = destroy_all s.connections s.log
