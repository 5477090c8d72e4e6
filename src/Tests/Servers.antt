-- ===== src/Tests/Servers.antt =====
-- Runs of LuxPolaris/src/Acceptor.cc, TCPServer.cc and EventLoopThreadPool.cc.
use lux_polaris.Prelude.{
  ℕ, ◌≡◌, refl, true, false, List, [], ◌∷◌, none, some, ok, arith, fault, fatal_log, ◌⊎◌,
}
use lux_polaris.Acceptor.{Acceptor, Answers, make, listen, destruct, opens}
use lux_polaris.Acceptor.Descriptors.{Read, survives_all, handle_reads, gained, let_go, life_lem}
use lux_polaris.Sockets.{accepted, refused, emfile}
use lux_polaris.InetAddress.{InetAddress, of_port, zeroed}
use lux_polaris.Buffer.LittleEndian.{little_endian}
use lux_polaris.LoopPool.{Pool}
use lux_polaris.Server.{Server, new_connection, remove_connection_in_loop, establishes}
use lux_polaris.Server as Server_def
use lux_polaris.Server.Connections.{IsValid, established, destroyed, destruct_lem}

abbrev granted : Answers
granted = record { socket = some 4; idle = some 3; bound = true }

abbrev made : Acceptor
made = record {
  accept_fd = 4;
  listening = false;
  reading = false;
  idle_fd = some 3;
  has_callback = true;
  log = opens 3 ∷ opens 4 ∷ [];
}

made_lem : make true granted ≡ ok made
unfolding make
made_lem = refl

listens_lem : listen true made ≡ ok (record made { listening = true; reading = true })
unfolding listen
listens_lem = refl

abbrev peer : InetAddress
peer = of_port little_endian 2022 true false (zeroed little_endian)

-- Two connections come, the second when the process has no descriptor left.
abbrev two_reads : List Read
two_reads = (accepted 5 peer, none, none) ∷ (refused emfile, some 3, some 3) ∷ []

life_example :
    ((survives_all two_reads ≡ true)
      × (e : Acceptor) × (handle_reads little_endian peer two_reads
            (record made { listening = true; reading = true })
          ≡ ok e)
      × ((fd : ℕ) → gained fd (destruct e).log ≡ let_go fd (destruct e).log))
    ⊎ ((survives_all two_reads ≡ false)
        × (handle_reads little_endian peer two_reads
              (record made { listening = true; reading = true })
            ≡ fault fatal_log))
life_example = life_lem little_endian peer true true granted two_reads made_lem listens_lem

abbrev two_loops : Pool ℕ
two_loops = record {
  base_loop = 100;
  started = true;
  num_threads = 2;
  next = 1;
  loops = 101 ∷ 102 ∷ [];
}

-- A started server with one connection.
abbrev serving : Server ℕ
serving = record {
  started = true;
  thread_pool = two_loops;
  next_conn_id = 2;
  connections = (1, 101) ∷ [];
  log = establishes 101 1 ∷ [];
}

serving-IsValid : IsValid serving
serving-IsValid = record {
  given = λ id h. ground arith;
  once = λ id. ground arith;
  either = λ id. ground arith;
}

destruct_example : destroyed 1 (Server_def.destruct serving) ≡ established 1 serving.log
destruct_example = destruct_lem serving 1 serving-IsValid
