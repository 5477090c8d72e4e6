-- ===== src/Server/Stepping.antt =====
-- What each step of a running server keeps.
use lux_polaris.Prelude.{
  ℕ, ◌+◌, ◌-◌, ◌≡◌, ok_injective, refl, sym, ◌∙◌, subst, true, false, List, ◌∷◌, ◌++◌, Outcome, ok,
  Fault, fault, arith, if◌then◌else◌, ==_self, update,
}
use lux_polaris.Buffer.{Buffer}
use lux_polaris.LoopPool.{Pool, get_next_loop}
use lux_polaris.Connection.{Connection, make, is_connecting, is_disconnected}
use lux_polaris.Connection.Closing.{connect_established, connect_destroyed}
use lux_polaris.Connection.Lifecycle.{closed, Lived}
use lux_polaris.Connection.Ending.{Rests, Goes}
use lux_polaris.Server.{Server, new_connection, remove_connection_in_loop}
use lux_polaris.Server as Server_def
use lux_polaris.Server.Connections.{IsValid, established, destroyed, new_connection_lem}
use lux_polaris.Server.Running.{
  Functor, runs_established, runs_remove, runs_destroyed, World, remove_connection,
}
use lux_polaris.Server.Orderly.{
  establishing, removing, destroying, total, total-append, total-replicate, update_all, Orderly,
  connecting-closed, established_goes, destroyed_goes, total_taken, times,
}

pub make-Lived : (input output : Buffer) → Lived (make input output)
make-Lived input output = ground arith

module _ {L : Type 0} where
  new_connection_fault :
      (s r : Server L) (f : Fault)
      → get_next_loop s.thread_pool ≡ fault f
      → new_connection s ≡ ok r
      → ⊥
  unfolding new_connection
  new_connection_fault s r f e returns = ground (arith, e, returns)

  abbrev pub Accepts : Server L → Server L → Type 0
  Accepts s r = IsValid r × (l : L) × (r.log ≡ Server_def.establishes l s.next_conn_id ∷ s.log)

  pub new_connection_ok :
      (s r : Server L) (next : Outcome (L × Pool L))
      → IsValid s
      → get_next_loop s.thread_pool ≡ next
      → new_connection s ≡ ok r
      → Accepts s r
  new_connection_ok s r (ok (l, p)) v e returns =
      let (t, made, valid, one, log) = new_connection_lem s v e in
      subst (Accepts s) (ok_injective (sym made ∙ returns)) (valid, l, log)
  new_connection_ok s r (fault f) v e returns = absurd (new_connection_fault s r f e returns)

  pub Accepts-Orderly :
      (w : World L) (input output : Buffer) (s : Server L)
      → Orderly w
      → Accepts w.server s
      → Orderly (record w {
        server = s;
        conns = update w.conns w.server.next_conn_id (make input output);
        waiting = runs_established w.server.next_conn_id ∷ w.waiting;
      })
  Accepts-Orderly w input output s o (valid, l, log) = record {
    valid = valid;
    lived = update_all (λ j c. Lived c) w.conns n _ (make-Lived input output) (λ j h. o.lived j);
    rests = update_all (λ j c. Rests c) w.conns n _ (λ h. cc) (λ j h. o.rests j);
    there =
        update_all
          (λ j c. times j w.ended ≡ 0 → is_connecting c.state ≡ false → c.registered ≡ true) w.conns
          n _ (λ h k. cc) (λ j h. o.there j);
    made =
        update_all
          (λ j c.
            total (establishing j) (runs_established n ∷ w.waiting)
              + (if is_connecting c.state then 0 else 1)
            ≡ established j s.log)
          w.conns n _ (rw log (ground (arith, o.made n, o.valid.given n, ==_self n)))
          (λ j h. rw log (ground (arith, o.made j, h)));
    told =
        update_all
          (λ j c.
            total (removing j) (runs_established n ∷ w.waiting) + destroyed j s.log ≡ closed c)
          w.conns n _ (rw log (ground (arith, none_told)))
          (λ j h. rw log (ground (arith, o.told j)));
    over = λ j. rw log (ground (arith, o.over j));
  }
    where
      n : ℕ
      n = w.server.next_conn_id

      none_told : total (removing n) w.waiting + destroyed n w.server.log ≡ 0
      none_told =
          o.told n
          ∙ connecting-closed (w.conns n) (o.lived n) (ground (arith, o.made n, o.valid.given n))

  pub acts-Orderly :
      (w : World L) (id : ℕ) (d : Connection)
      → Orderly w
      → Lived d
      → Goes (w.conns id) d
      → Orderly (record w {
        conns = update w.conns id d;
        waiting = remove_connection id (w.conns id) d ++ w.waiting;
      })
  acts-Orderly w id d o v g = record {
    valid = o.valid;
    lived = update_all (λ j c. Lived c) w.conns id d v (λ j h. o.lived j);
    rests = update_all (λ j c. Rests c) w.conns id d g.rests (λ j h. o.rests j);
    there =
        update_all
          (λ j c. times j w.ended ≡ 0 → is_connecting c.state ≡ false → c.registered ≡ true) w.conns
          id d (λ h k. g.still (o.there id h (sym g.same ∙ k))) (λ j h. o.there j);
    made =
        update_all
          (λ j c.
            total (establishing j) (asked ++ w.waiting) + (if is_connecting c.state then 0 else 1)
            ≡ established j w.server.log)
          w.conns id d (rw g.same (rw (none_of (establishing id) refl) (o.made id)))
          (λ j h. rw (none_of (establishing j) refl) (o.made j));
    told =
        update_all
          (λ j c. total (removing j) (asked ++ w.waiting) + destroyed j w.server.log ≡ closed c)
          w.conns id d
          (grind (
            arith,
            total-append (removing id) asked w.waiting,
            total-replicate (removing id) times_told (runs_remove id),
            o.told id,
            g.told,
            ==_self id,
          ))
          (λ j h. grind (
            arith,
            total-append (removing j) asked w.waiting,
            total-replicate (removing j) times_told (runs_remove id),
            o.told j,
            h,
          ));
    over = λ j. rw (none_of (destroying j) refl) (o.over j);
  }
    where
      times_told : ℕ
      times_told = closed d - closed (w.conns id)

      asked : List Functor
      asked = remove_connection id (w.conns id) d

      none_of :
          (p : Functor → ℕ)
          → p (runs_remove id) ≡ 0
          → total p (asked ++ w.waiting) ≡ total p w.waiting
      none_of p e =
          total-append p asked w.waiting
          ∙ grind (arith, total-replicate p times_told (runs_remove id), e)

  module _ (w : World L) (id : ℕ) (front rest : List Functor) (o : Orderly w) where
    pub establishes-Orderly :
        (d : Connection)
        → w.waiting ≡ front ++ (runs_established id ∷ rest)
        → connect_established (w.conns id) ≡ ok d
        → Lived d
        → Orderly (record w { conns = update w.conns id d; waiting = front ++ rest })
    establishes-Orderly d e returns v =
        let (before, after, r, same, known) = established_goes (w.conns id) d returns in
        record {
          valid = o.valid;
          lived = update_all (λ j c. Lived c) w.conns id d v (λ j h. o.lived j);
          rests = update_all (λ j c. Rests c) w.conns id d r (λ j h. o.rests j);
          there =
              update_all
                (λ j c. times j w.ended ≡ 0 → is_connecting c.state ≡ false → c.registered ≡ true)
                w.conns id d (λ h k. known) (λ j h. o.there j);
          made =
              update_all
                (λ j c.
                  total (establishing j) (front ++ rest) + (if is_connecting c.state then 0 else 1)
                  ≡ established j w.server.log)
                w.conns id d
                (ground (arith, o.made id, taken (establishing id), before, after, ==_self id))
                (λ j h. ground (arith, o.made j, taken (establishing j), h));
          told =
              update_all
                (λ j c. total (removing j) (front ++ rest) + destroyed j w.server.log ≡ closed c)
                w.conns id d (omega (arith, o.told id, taken (removing id), same))
                (λ j h. omega (arith, o.told j, taken (removing j)));
          over = λ j. omega (arith, o.over j, taken (destroying j));
        }
      where
        taken :
            (p : Functor → ℕ)
            → total p w.waiting ≡ p (runs_established id) + total p (front ++ rest)
        taken p = total_taken p (runs_established id) front rest w.waiting e

    pub removes-Orderly :
        (s : Server L)
        → w.waiting ≡ front ++ (runs_remove id ∷ rest)
        → IsValid s
        → (l : L) → s.log ≡ Server_def.destroys l id ∷ w.server.log
        → Orderly (record w { server = s; waiting = runs_destroyed id ∷ (front ++ rest) })
    removes-Orderly s e valid l log = record {
      valid = valid;
      lived = o.lived;
      rests = o.rests;
      there = o.there;
      made = λ j. rw log (omega (arith, o.made j, taken (establishing j)));
      told = λ j. rw log (omega (arith, o.told j, taken (removing j)));
      over = λ j. rw log (omega (arith, o.over j, taken (destroying j)));
    }
      where
        taken : (p : Functor → ℕ) → total p w.waiting ≡ p (runs_remove id) + total p (front ++ rest)
        taken p = total_taken p (runs_remove id) front rest w.waiting e

    pub destroys-Orderly :
        (d : Connection)
        → w.waiting ≡ front ++ (runs_destroyed id ∷ rest)
        → connect_destroyed (w.conns id) ≡ ok d
        → is_disconnected (w.conns id).state ≡ true
        → Lived d
        → Orderly (record w {
          conns = update w.conns id d;
          waiting = front ++ rest;
          ended = id ∷ w.ended;
        })
    destroys-Orderly d e returns gone v =
        let (state, r, same) = destroyed_goes (w.conns id) d gone (o.rests id) returns in
        record {
          valid = o.valid;
          lived = update_all (λ j c. Lived c) w.conns id d v (λ j h. o.lived j);
          rests = update_all (λ j c. Rests c) w.conns id d r (λ j h. o.rests j);
          there =
              update_all
                (λ j c.
                  times j (id ∷ w.ended) ≡ 0 → is_connecting c.state ≡ false → c.registered ≡ true)
                w.conns id d (λ h k. absurd (ground (arith, h, ==_self id)))
                (λ j h k. o.there j (omega (arith, k)));
          made =
              update_all
                (λ j c.
                  total (establishing j) (front ++ rest) + (if is_connecting c.state then 0 else 1)
                  ≡ established j w.server.log)
                w.conns id d (rw state (omega (arith, o.made id, taken (establishing id))))
                (λ j h. omega (arith, o.made j, taken (establishing j)));
          told =
              update_all
                (λ j c. total (removing j) (front ++ rest) + destroyed j w.server.log ≡ closed c)
                w.conns id d (omega (arith, o.told id, taken (removing id), same))
                (λ j h. omega (arith, o.told j, taken (removing j)));
          over = λ j. omega (arith, o.over j, taken (destroying j));
        }
      where
        taken :
            (p : Functor → ℕ) → total p w.waiting ≡ p (runs_destroyed id) + total p (front ++ rest)
        taken p = total_taken p (runs_destroyed id) front rest w.waiting e
