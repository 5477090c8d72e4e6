-- ===== src/Tests/Lifetimes.antt =====
-- Runs of LuxPolaris/src/TCPServer.cc with its connections, and of TCPClient.cc with its connector.
use lux_polaris.Prelude.{
  ◌*◌, ◌≤◌, length, ℕ, ◌+◌, ◌>>=◌, ◌≡◌, refl, true, false, [], ◌∷◌, none, ok, fault,
  assertion_failed, arith,
}
use lux_polaris.LoopPool.{get_next_loop}
use lux_polaris.Connection.Closing.{connect_established, handle_close}
use lux_polaris.Connection.Operation as Operation
use lux_polaris.Connection.Operation.{step}
use lux_polaris.Server.{
  Server, new_connection, remove_connection_in_loop, listens, new_server, set_thread_num, pos,
}
use lux_polaris.Server as Server_def
use lux_polaris.Server.Sharing.{Puts, accept, shares_lem}
use lux_polaris.Server.Connections.{IsValid}
use lux_polaris.Server.Running.{
  World, opens, accepts, acts, establishes, runs_remove, Reaches, start, more, Settles, Runs,
  none_run, run_more, removes,
}
use lux_polaris.Server.Returning.{Returns}
use lux_polaris.Server.Lifetimes.{functor-Returns, IsSettled, functors_run_out}
use lux_polaris.Connector as Connector
use lux_polaris.Client as Client
use lux_polaris.Client.{Client}
use lux_polaris.Client.Session as Session
use lux_polaris.Client.Session.{
  Session, begins, enables_retry, runs_reset, connects, writable, runs_start, tell_client,
  close_connection,
}
use lux_polaris.Client.Connecting.{Linked, CanClose, session_lem}
use lux_polaris.Client.Reconnecting.{connect_again_aborts}
use lux_polaris.Tests.Buffers.{small}

-- A server that has started with two loops.
abbrev started : Server ℕ
started = record {
  started = true;
  thread_pool = record {
    base_loop = 100;
    started = true;
    num_threads = 2;
    next = 0;
    loops = 101 ∷ 102 ∷ [];
  };
  next_conn_id = 1;
  connections = [];
  log = listens ∷ [];
}

started-IsValid : IsValid started
started-IsValid = record { given = λ id h. refl; once = λ id. omega arith; either = λ id. refl }

-- A connection comes, is established, and its peer closes it.
abbrev peer_closed : (w : World ℕ) × Reaches (opens small small started) w
unfolding new_connection get_next_loop connect_established handle_close step
peer_closed = (
  _,
  more (more (more start (accepts small small refl)) (establishes 1 [] [] refl refl))
      (acts 1 Operation.closes (omega arith) tt refl),
)

functor-Returns_example : Returns (runs_remove 1) peer_closed.0
unfolding new_connection get_next_loop connect_established handle_close step
functor-Returns_example =
    functor-Returns small small started started-IsValid (λ id. refl) peer_closed.1 (runs_remove 1)
      [] [] refl

-- The functor that waits runs.
abbrev removed_one : (v : World ℕ) × Runs peer_closed.0 1 v
unfolding new_connection get_next_loop connect_established handle_close step
    remove_connection_in_loop
removed_one = (_, run_more none_run (removes 1 [] [] refl refl) tt)

functors_run_out_example :
    (1 ≤ 2 * length peer_closed.0.waiting) × (u : World ℕ) × Settles u removed_one.0 × IsSettled u
functors_run_out_example =
    functors_run_out small small started started-IsValid (λ id. refl) peer_closed.1 removed_one.1

-- A client connects, its socket becomes writable, and it holds connection 1.
abbrev connected_once : (s : Session) × Session.Reaches begins s
unfolding Session.step Client.new_connection Connector.start Connector.handle_write
connected_once = (
  _,
  Session.happens (Session.happens Session.start (connects true 7 Connector.in_progress) refl)
      (writable false false) refl,
)

-- A client that retries connects, its connection is closed, and its connector connects again.
abbrev connected_again : (s : Session) × Session.Reaches begins s
unfolding Session.step Client.new_connection Client.remove_connection Connector.start
    Connector.handle_write Connector.reset_channel Connector.restart close_connection
connected_again = (
  _,
  Session.happens
      (Session.closes
        (Session.happens
          (Session.happens
            (Session.happens (Session.happens Session.start enables_retry refl)
              (connects true 7 Connector.in_progress) refl)
            (writable false false) refl)
          runs_reset refl)
        refl 8 Connector.in_progress refl)
      (writable false false) refl,
)

session_example :
    Linked connected_again.0 × CanClose connected_again.0.open_one connected_again.0.client
session_example = session_lem connected_again.1

abbrev closed_once : Session
closed_once = record {
  client = Client.note (Client.destroys 1) (record connected_once.0.client { connection = none });
  connector = connected_once.0.connector;
  open_one = none;
}

closes_once : close_connection 1 8 Connector.in_progress connected_once.0 ≡ ok closed_once
unfolding close_connection Client.remove_connection Session.step Client.new_connection
    Connector.start Connector.handle_write
closes_once = refl

connect_again_example :
    (Session.step (connects true 9 Connector.in_progress) closed_once ≡ fault assertion_failed)
    × (u : Session) × (Session.step (connects false 9 Connector.in_progress) closed_once ≡ ok u)
    × (Session.step (runs_start 9 Connector.in_progress) u ≡ fault assertion_failed)
unfolding Session.step Client.new_connection Connector.start Connector.handle_write
connect_again_example =
    connect_again_aborts 8 Connector.in_progress connected_once.1 refl refl closes_once 9
      Connector.in_progress

-- Four connections of a server with three threads.
shares_example :
    Puts 7 4
      (set_thread_num (pos 3) (new_server 100) >>= Server_def.start (λ i. 7 + i) true >>= accept 4)
shares_example = shares_lem 100 (λ i. 7 + i) true 3 3 (omega arith)
