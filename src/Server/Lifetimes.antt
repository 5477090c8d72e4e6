-- ===== src/Server/Lifetimes.antt =====
-- The life of a server's connections, from accept to `connectDestroyed`.
use lux_polaris.Prelude.{
  ap, ◌∙◌, ◌*◌, length, ℕ, zero, suc, ◌+◌, ◌≤◌, ◌<◌, ◌≡◌, refl, subst, List, [], ◌∷◌, ◌++◌, arith,
  if◌then◌else◌, inl, inr, ◌⊎◌,
}
use lux_polaris.Buffer.{Buffer}
use lux_polaris.Connection.{is_disconnected}
use lux_polaris.Connection.Lifecycle.{closed}
use lux_polaris.Server.{Server}
use lux_polaris.Server.Connections.{IsValid, established, destroyed, entries}
use lux_polaris.Server.Running.{
  opens, IsRun, Settles, settled, runs, Runs, none_run, run_more, accepts, acts, Functor,
  runs_established, runs_remove, runs_destroyed, World, Step, establishes, removes, destroys,
  Reaches,
}
use lux_polaris.Server.Orderly.{removing, destroying, total, times, Orderly}
use lux_polaris.Server.Returning.{
  Returns, front-Returns, Step-Orderly, opens-Orderly, Reaches-Orderly,
}

-- The runs that a functor leads to, its own included.
abbrev work : List Functor → ℕ
work [] = 0
work (runs_remove id ∷ fs) = 2 + work fs
work (_ ∷ fs) = 1 + work fs

work-append : (xs ys : List Functor) → work (xs ++ ys) ≡ work xs + work ys
work-append [] ys = omega arith
work-append (runs_established id ∷ xs) ys = omega (arith, work-append xs ys)
work-append (runs_remove id ∷ xs) ys = omega (arith, work-append xs ys)
work-append (runs_destroyed id ∷ xs) ys = omega (arith, work-append xs ys)

work_most : (fs : List Functor) → work fs ≤ 2 * length fs
work_most [] = omega arith
work_most (runs_established id ∷ fs) = omega (arith, work_most fs)
work_most (runs_remove id ∷ fs) = omega (arith, work_most fs)
work_most (runs_destroyed id ∷ fs) = omega (arith, work_most fs)

-- A functor is taken out.
work_taken :
    (f : Functor) (front rest : List Functor) {waiting : List Functor}
    → waiting ≡ front ++ (f ∷ rest)
    → work waiting ≡ work (f ∷ []) + work (front ++ rest)
work_taken f front rest e =
    ap work e
    ∙ omega (arith, work-append front (f ∷ rest), work-append (f ∷ []) rest, work-append front rest)

waiting_cases :
    (fs : List Functor) → (fs ≡ []) ⊎ ((f : Functor) × (rest : List Functor) × (fs ≡ f ∷ rest))
waiting_cases [] = inl refl
waiting_cases (f ∷ rest) = inr (f, rest, refl)

-- Nothing waits. A connection whose owner was told that it is closed has been destroyed, once, and
-- no other has; it is disconnected, as its destructor asserts. Every connection that was made is in
-- the map or has been destroyed.
pub record IsSettled {L : Type 0} (w : World L) : Type 0 where
  pub idle : w.waiting ≡ []
  pub closes_end : (id : ℕ) → times id w.ended ≡ closed (w.conns id)
  pub ends_once :
      (id : ℕ) → times id w.ended ≤ (if is_disconnected (w.conns id).state then 1 else 0)
  pub in_map_or_ended :
      (id : ℕ) → entries id w.server.connections + times id w.ended ≡ established id w.server.log

module _ {L : Type 0} where
  abbrev RunsOn : World L → Type 0
  RunsOn w = (u : World L) × (st : Step w u) × IsRun st × (work u.waiting < work w.waiting)

  runs_on :
      (w : World L) (f : Functor) (rest : List Functor)
      → Orderly w
      → w.waiting ≡ f ∷ rest
      → RunsOn w
  runs_on w (runs_established id) rest o e =
      let (d, returns) = front-Returns w (runs_established id) [] rest o e in
      (_, establishes id [] rest e returns, tt, rw e (omega arith))
  runs_on w (runs_remove id) rest o e =
      let (s, returns) = front-Returns w (runs_remove id) [] rest o e in
      (_, removes id [] rest e returns, tt, rw e (omega arith))
  runs_on w (runs_destroyed id) rest o e =
      let (d, returns) = front-Returns w (runs_destroyed id) [] rest o e in
      (_, destroys id [] rest e returns, tt, rw e (omega arith))

  -- Every functor that is run leaves less to run.
  less_work : {w v : World L} (st : Step w v) → IsRun st → work v.waiting < work w.waiting
  less_work (establishes id front rest e returns) run =
      omega (arith, work_taken (runs_established id) front rest e)
  less_work (removes id front rest e returns) run =
      omega (arith, work_taken (runs_remove id) front rest e)
  less_work (destroys id front rest e returns) run =
      omega (arith, work_taken (runs_destroyed id) front rest e)
  less_work (accepts input output e) run = absurd run
  less_work (acts id o made permitted e) run = absurd run

  Runs-Orderly :
      {w v : World L} {n : ℕ}
      → Orderly w
      → Runs w n v
      → (n + work v.waiting ≤ work w.waiting) × Orderly v
  Runs-Orderly o none_run = (omega arith, o)
  Runs-Orderly o (run_more before st run) =
      let (fewer, p) = Runs-Orderly o before in
      (omega (arith, fewer, less_work st run), Step-Orderly p st)

  idle-IsSettled : (w : World L) → Orderly w → w.waiting ≡ [] → IsSettled w
  idle-IsSettled w o e = record {
    idle = e;
    closes_end = ends;
    ends_once = λ id. ground (arith, ends id, o.lived id);
    in_map_or_ended = λ id. omega (arith, ends id, all_told id, o.valid.either id);
  }
    where
      all_told : (id : ℕ) → 0 + destroyed id w.server.log ≡ closed (w.conns id)
      all_told id =
          subst (λ fs. total (removing id) fs + destroyed id w.server.log ≡ closed (w.conns id)) e
            (o.told id)

      all_over : (id : ℕ) → 0 + times id w.ended ≡ destroyed id w.server.log
      all_over id =
          subst (λ fs. total (destroying id) fs + times id w.ended ≡ destroyed id w.server.log) e
            (o.over id)

      ends : (id : ℕ) → times id w.ended ≡ closed (w.conns id)
      ends id = omega (arith, all_over id, all_told id)

  run_out_from :
      (n : ℕ) (w : World L)
      → Orderly w
      → work w.waiting ≤ n
      → (v : World L) × Settles v w × IsSettled v
  run_out_from zero w o h = elim (waiting_cases w.waiting) [
    | inl idle ↦ (w, settled idle, idle-IsSettled w o idle)
    | inr (f, rest, e) ↦ let (u, st, run, less) = runs_on w f rest o e in absurd (omega arith)
  ]
  run_out_from (suc n) w o h = elim (waiting_cases w.waiting) [
    | inl idle ↦ (w, settled idle, idle-IsSettled w o idle)
    | inr (f, rest, e) ↦
        let (u, st, run, less) = runs_on w f rest o e in
        let (v, comes, done) = run_out_from n u (Step-Orderly o st) (omega arith) in
        (v, runs st run comes, done)
  ]

  -- On a server that runs, whatever connections it accepts and whatever is called on them, but that
  -- reading is not started on a closed one, no assertion fails in a functor that the loops run for it:
  -- a connection is still connecting when `connectEstablished` comes, stands in the map when
  -- `removeConnectionInLoop` comes, and when `connectDestroyed` comes its channel waits for nothing and
  -- the poller has it.
  pub functor-Returns :
      (input output : Buffer) (s : Server L) {w : World L}
      → IsValid s
      → ((id : ℕ) → established id s.log ≡ 0)
      → Reaches (opens input output s) w
      → (f : Functor) (front rest : List Functor) → w.waiting ≡ front ++ (f ∷ rest)
      → Returns f w
  functor-Returns input output s {w} v none_yet reached f front rest e =
      front-Returns w f front rest
        (Reaches-Orderly (opens-Orderly input output s v none_yet) reached) e

  -- The loops of such a server run out of functors, in whatever order they run them: from every state
  -- that it comes to, no more functors are run than twice as many as wait; and however far the loops have
  -- come, they can go on until none waits. Then every connection that was closed
  -- has been destroyed once, no other has, and all others are in the map. New connections and calls do
  -- not come in between, and reading was not started on a closed connection.
  pub functors_run_out :
      (input output : Buffer) (s : Server L) {w v : World L} {n : ℕ}
      → IsValid s
      → ((id : ℕ) → established id s.log ≡ 0)
      → Reaches (opens input output s) w
      → Runs w n v
      → (n ≤ 2 * length w.waiting) × (u : World L) × Settles u v × IsSettled u
  functors_run_out input output s {w} {v} {n} valid none_yet reached ran =
      let o = Reaches-Orderly (opens-Orderly input output s valid none_yet) reached in
      let (fewer, p) = Runs-Orderly o ran in
      let (u, comes, done) = run_out_from (work v.waiting) v p (omega arith) in
      (omega (arith, fewer, work_most w.waiting), u, comes, done)
