-- ===== src/Server/Returning.antt =====
-- The functors that a server's loops run return.
use lux_polaris.Prelude.{
  ℕ, ◌<◌, ◌≡◌, ok_injective, refl, sym, ◌∙◌, subst, true, false, List, ◌∷◌, ◌++◌, Holds, ok, arith,
  ==_self,
}
use lux_polaris.Buffer.{Buffer}
use lux_polaris.Channel.{enable_reading}
use lux_polaris.LoopPool.{get_next_loop}
use lux_polaris.Connection.{
  Connection, note, remove_channel, up, update_channel, set_state, connected, is_connecting,
  is_disconnected,
}
use lux_polaris.Connection.Closing.{connect_established, connect_destroyed}
use lux_polaris.Connection.Operation.{Operation, step}
use lux_polaris.Connection.Operation as Connection_operation
use lux_polaris.Connection.Lifecycle.{closed}
use lux_polaris.Connection.Ending.{Rests, Goes, step-Goes}
use lux_polaris.Server.{Server, new_connection, remove_connection_in_loop}
use lux_polaris.Server as Server_def
use lux_polaris.Server.Connections.{IsValid, established, entries, remove_connection_in_loop_lem}
use lux_polaris.Server.Running.{
  opens, Functor, runs_established, runs_remove, runs_destroyed, World, Step, accepts, acts,
  establishes, removes, destroys, Reaches, start, more,
}
use lux_polaris.Server.Orderly.{
  establishing, removing, destroying, total, Orderly, closed-disconnected, closed-le-one,
  Lived-step, total_taken,
}
use lux_polaris.Server.Stepping.{
  make-Lived, new_connection_ok, Accepts-Orderly, acts-Orderly, establishes-Orderly,
  removes-Orderly, destroys-Orderly,
}

established_returns :
    (c : Connection)
    → is_connecting c.state ≡ true
    → (d : Connection) × (connect_established c ≡ ok d)
unfolding connect_established
established_returns c h =
    (note up (update_channel enable_reading (set_state connected c)), rw h refl)

destroyed_returns :
    (c : Connection)
    → is_disconnected c.state ≡ true
    → Rests c
    → c.registered ≡ true
    → (d : Connection) × (connect_destroyed c ≡ ok d)
unfolding connect_destroyed
destroyed_returns c h r k =
    (note remove_channel (record c { registered = false }), ground (arith, r, h, k))

module _ {L : Type 0} where
  -- The functor runs to its end: no assertion fails in it.
  abbrev pub Returns : Functor → World L → Type 0
  Returns (runs_established id) w = (d : Connection) × (connect_established (w.conns id) ≡ ok d)
  Returns (runs_remove id) w = (s : Server L) × (remove_connection_in_loop id w.server ≡ ok s)
  Returns (runs_destroyed id) w = (d : Connection) × (connect_destroyed (w.conns id) ≡ ok d)

  module _ (w : World L) (o : Orderly w) (id : ℕ) where
    still_connecting :
        0 < total (establishing id) w.waiting → is_connecting (w.conns id).state ≡ true
    still_connecting h = ground (arith, o.made id, o.valid.once id)

    was_closed : 0 < closed (w.conns id) → is_disconnected (w.conns id).state ≡ true
    was_closed h = closed-disconnected (w.conns id) (o.lived id) h

    not_connecting : 0 < closed (w.conns id) → is_connecting (w.conns id).state ≡ false
    not_connecting h = ground (arith, was_closed h)

    in_map : 0 < total (removing id) w.waiting → 0 < entries id w.server.connections
    in_map h =
        let closed_once : 0 < closed (w.conns id) = omega (arith, o.told id) in
        ground (
          arith,
          o.told id,
          o.made id,
          o.valid.either id,
          closed-le-one (w.conns id) (o.lived id),
          not_connecting closed_once,
        )

    destroying_closed :
        0 < total (destroying id) w.waiting → is_disconnected (w.conns id).state ≡ true
    destroying_closed h = was_closed (omega (arith, o.over id, o.told id))

    still_there : 0 < total (destroying id) w.waiting → (w.conns id).registered ≡ true
    still_there h =
        o.there id (omega (arith, o.over id, o.told id, closed-le-one (w.conns id) (o.lived id), h))
          (ground (arith, destroying_closed h))

  pub front-Returns :
      (w : World L) (f : Functor) (front rest : List Functor)
      → Orderly w
      → w.waiting ≡ front ++ (f ∷ rest)
      → Returns f w
  front-Returns w (runs_established id) front rest o e = established_returns (w.conns id) (
      still_connecting w o id (
        ground (
          arith,
          total_taken (establishing id) (runs_established id) front rest w.waiting e,
          ==_self id,
        )))
  front-Returns w (runs_remove id) front rest o e =
      let removed = remove_connection_in_loop_lem w.server id o.valid (
        in_map w o id (
          ground (
            arith,
            total_taken (removing id) (runs_remove id) front rest w.waiting e,
            ==_self id,
          ))) in
      (removed.0, removed.1)
  front-Returns w (runs_destroyed id) front rest o e =
      destroyed_returns (w.conns id)
        (destroying_closed w o id (
          ground (
            arith,
            total_taken (destroying id) (runs_destroyed id) front rest w.waiting e,
            ==_self id,
          )))
        (o.rests id)
        (still_there w o id (
          ground (
            arith,
            total_taken (destroying id) (runs_destroyed id) front rest w.waiting e,
            ==_self id,
          )))

  removed_as :
      (s r : Server L) (id : ℕ)
      → IsValid s
      → 0 < entries id s.connections
      → remove_connection_in_loop id s ≡ ok r
      → IsValid r × (l : L) × (r.log ≡ Server_def.destroys l id ∷ s.log)
  removed_as s r id v h e =
      let (t, returns, valid, none_left, once, l, log) = remove_connection_in_loop_lem s id v h in
      subst (λ t. IsValid t × (l : L) × (t.log ≡ Server_def.destroys l id ∷ s.log))
        (ok_injective (sym returns ∙ e)) (valid, l, log)

  first :
      (w : World L) (p : Functor → ℕ) (f : Functor) (front rest : List Functor)
      → w.waiting ≡ front ++ (f ∷ rest)
      → p f ≡ 1
      → 0 < total p w.waiting
  first w p f front rest e one = omega (arith, total_taken p f front rest w.waiting e)

  pub Step-Orderly : {w v : World L} → Orderly w → Step w v → Orderly v
  Step-Orderly {w} o (accepts input output {s} e) =
      Accepts-Orderly w input output s o
        (new_connection_ok w.server s (get_next_loop w.server.thread_pool) o.valid refl e)
  Step-Orderly {w} o (acts id op {d} made permitted e) =
      acts-Orderly w id d o (Lived-step (w.conns id) d op (o.lived id) e)
        (subst (Holds (Goes (w.conns id))) e (step-Goes (w.conns id) (o.rests id) op permitted))
  Step-Orderly {w} o (establishes id front rest {d} e returns) =
      establishes-Orderly w id front rest o d e returns (
        Lived-step (w.conns id) d Connection_operation.establishes (o.lived id)
          (unfold step in returns))
  Step-Orderly {w} o (removes id front rest {s} e returns) =
      let there =
        in_map w o id
          (first w (removing id) (runs_remove id) front rest e (ground (arith, ==_self id))) in
      let (valid, l, log) = removed_as w.server s id o.valid there returns in
      removes-Orderly w id front rest o s e valid l log
  Step-Orderly {w} o (destroys id front rest {d} e returns) =
      destroys-Orderly w id front rest o d e returns
        (destroying_closed w o id
          (first w (destroying id) (runs_destroyed id) front rest e (ground (arith, ==_self id))))
        (Lived-step (w.conns id) d Connection_operation.destroys (o.lived id)
          (unfold step in returns))

  pub opens-Orderly :
      (input output : Buffer) (s : Server L)
      → IsValid s
      → ((id : ℕ) → established id s.log ≡ 0)
      → Orderly (opens input output s)
  opens-Orderly input output s v none_yet = record {
    valid = v;
    lived = λ id. make-Lived input output;
    rests = λ id h. cc;
    there = λ id h k. cc;
    made = λ id. omega (arith, none_yet id);
    told = λ id. omega (arith, none_yet id, v.either id);
    over = λ id. omega (arith, none_yet id, v.either id);
  }

  pub Reaches-Orderly : {w v : World L} → Orderly w → Reaches w v → Orderly v
  Reaches-Orderly o start = o
  Reaches-Orderly o (more before st) = Step-Orderly (Reaches-Orderly o before) st
