-- ===== src/Server/Connections.antt =====
-- The life of the connections of a server.
use lux_polaris.Prelude.{
  ==_self, ℕ, suc, ◌+◌, ◌≤◌, ◌<◌, ◌≡◌, refl, sym, ap, ◌∙◌, false, List, [], ◌∷◌, Option, some, ok,
  arith, if◌then◌else◌, ◌==◌, Bool-cases, inl, inr,
}
use lux_polaris.LoopPool.{Pool, get_next_loop}
use lux_polaris.Server.{
  Server, Action, establishes, destroys, new_connection, remove_connection_in_loop, erase, kept,
  removed, destroy_all, destruct,
}

module _ {L : Type 0} where
  abbrev pub established : ℕ → List (Action L) → ℕ
  established id [] = 0
  established id (establishes loop n ∷ log) = (if n == id then 1 else 0) + established id log
  established id (_ ∷ log) = established id log

  abbrev pub destroyed : ℕ → List (Action L) → ℕ
  destroyed id [] = 0
  destroyed id (destroys loop n ∷ log) = (if n == id then 1 else 0) + destroyed id log
  destroyed id (_ ∷ log) = destroyed id log

  -- How often the number stands in the map.
  abbrev pub entries : ℕ → List (ℕ × L) → ℕ
  entries id [] = 0
  entries id ((n, loop) ∷ cs) = (if n == id then 1 else 0) + entries id cs

  -- A number that is given out belongs to one connection, which was established once and either is in
  -- the map or was destroyed once.
  pub record IsValid (s : Server L) : Type 0 where
    pub given : (id : ℕ) → s.next_conn_id ≤ id → established id s.log ≡ 0
    pub once : (id : ℕ) → established id s.log ≤ 1
    pub either : (id : ℕ) → established id s.log ≡ entries id s.connections + destroyed id s.log

  -- `newConnection` gives the next number and adds one connection of that number, in a loop of the pool,
  -- and asks that loop to establish it; the server stays valid.
  pub new_connection_lem :
      (s : Server L) {l : L} {p : Pool L}
      → IsValid s
      → get_next_loop s.thread_pool ≡ ok (l, p)
      → (r : Server L) × (new_connection s ≡ ok r)
        × IsValid r
        × (entries s.next_conn_id r.connections ≡ 1)
        × (r.log ≡ establishes l s.next_conn_id ∷ s.log)
  unfolding new_connection
  new_connection_lem s {l} {p} v e = (
    record s {
      thread_pool = p;
      next_conn_id = suc s.next_conn_id;
      connections = (s.next_conn_id, l) ∷ s.connections;
      log = establishes l s.next_conn_id ∷ s.log;
    },
    rw e refl,
    record {
      given = λ id h. ground (arith, v.given id);
      once = λ id. fresh_once id;
      either = λ id. ground (arith, v.either id);
    },
    ground (arith, v.given s.next_conn_id, v.either s.next_conn_id, ==_self s.next_conn_id),
    refl,
  )
    where
      fresh_once : (id : ℕ) → established id (establishes l s.next_conn_id ∷ s.log) ≤ 1
      fresh_once id = elim (Bool-cases (s.next_conn_id == id)) [
        | inl same ↦ ground (arith, v.given id)
        | inr other ↦ ground (arith, v.once id)
      ]

  abbrev pub Erases : ℕ → List (ℕ × L) → Option (L × List (ℕ × L)) → Type 0
  Erases id cs o =
      (l : L) × (rest : List (ℕ × L)) × (o ≡ some (l, rest))
      × ((j : ℕ) → entries j cs ≡ (if id == j then 1 else 0) + entries j rest)

  erase_kept :
      (id n : ℕ) (loop : L) (cs : List (ℕ × L))
      → (n == id) ≡ false
      → Erases id cs (erase id cs)
      → Erases id ((n, loop) ∷ cs) (erase id ((n, loop) ∷ cs))
  erase_kept id n loop cs other (l, rest, e, h) =
      (l, (n, loop) ∷ rest, rw other (ap (kept (n, loop)) e), λ j. omega (arith, h j))

  erase_lem : (id : ℕ) (cs : List (ℕ × L)) → 0 < entries id cs → Erases id cs (erase id cs)
  erase_lem id [] h = absurd (omega arith)
  erase_lem id ((n, loop) ∷ cs) h = elim (Bool-cases (n == id)) [
    | inl same ↦ (loop, cs, rw same refl, λ j. ground arith)
    | inr other ↦ erase_kept id n loop cs other (erase_lem id cs (ground arith))
  ]

  removed_lem :
      (s : Server L) (id : ℕ)
      → IsValid s
      → Erases id s.connections (erase id s.connections)
      → (r : Server L) × (remove_connection_in_loop id s ≡ ok r)
        × IsValid r
        × (entries id r.connections ≡ 0)
        × (destroyed id r.log ≡ 1)
        × (l : L) × (r.log ≡ destroys l id ∷ s.log)
  unfolding remove_connection_in_loop
  removed_lem s id v (l, rest, e, h) = (
    record s { connections = rest; log = destroys l id ∷ s.log },
    ap (removed id s) e,
    record { given = v.given; once = v.once; either = λ j. omega (arith, h j, v.either j) },
    ground (arith, h id, v.either id, v.once id, ==_self id),
    ground (arith, h id, v.either id, v.once id, ==_self id),
    l,
    refl,
  )

  -- `removeConnectionInLoop` of a connection in the map takes it out and asks its loop to destroy it,
  -- which was not asked before; the assertion holds and the server stays valid.
  pub remove_connection_in_loop_lem :
      (s : Server L) (id : ℕ)
      → IsValid s
      → 0 < entries id s.connections
      → (r : Server L) × (remove_connection_in_loop id s ≡ ok r)
        × IsValid r
        × (entries id r.connections ≡ 0)
        × (destroyed id r.log ≡ 1)
        × (l : L) × (r.log ≡ destroys l id ∷ s.log)
  remove_connection_in_loop_lem s id v h = removed_lem s id v (erase_lem id s.connections h)

  destroy_all-destroyed :
      (id : ℕ) (cs : List (ℕ × L)) (log : List (Action L))
      → destroyed id (destroy_all cs log) ≡ entries id cs + destroyed id log
  destroy_all-destroyed id [] log = omega arith
  destroy_all-destroyed id ((n, loop) ∷ cs) log =
      omega (arith, destroy_all-destroyed id cs (destroys loop n ∷ log))

  -- When a valid server is destructed, every connection that it ever established has been asked once
  -- to be destroyed, and no other.
  pub destruct_lem :
      (s : Server L) (id : ℕ) → IsValid s → destroyed id (destruct s) ≡ established id s.log
  destruct_lem s id v = destroy_all-destroyed id s.connections s.log ∙ sym (v.either id)
