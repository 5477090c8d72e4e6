-- ===== src/Server/Orderly.antt =====
-- What holds of a server, its connections and the functors that wait, between the steps.
use lux_polaris.Prelude.{
  ℕ, zero, suc, ◌+◌, ◌≤◌, ◌<◌, ◌≡◌, ◌*◌, ==_iff, sym, subst, true, false, List, [], ◌∷◌, ◌++◌, ok,
  arith, if◌then◌else◌, ◌==◌, update, replicate, Bool-cases, inl, inr,
}
use lux_polaris.Connection.{Connection, is_connecting, is_disconnected}
use lux_polaris.Connection.Closing.{connect_established, connect_destroyed}
use lux_polaris.Connection.Operation.{Operation, step}
use lux_polaris.Connection.Operation as Connection_operation
use lux_polaris.Connection.Lifecycle.{closed, Lived}
use lux_polaris.Connection.Living.{reaches_lem}
use lux_polaris.Connection.Ending.{Rests}
use lux_polaris.Server.Connections.{IsValid, established, destroyed}
use lux_polaris.Server.Running.{Functor, runs_established, runs_remove, runs_destroyed, World}

abbrev pub establishing : ℕ → Functor → ℕ
establishing id (runs_established n) = if n == id then 1 else 0
establishing id _ = 0

abbrev pub removing : ℕ → Functor → ℕ
removing id (runs_remove n) = if n == id then 1 else 0
removing id _ = 0

abbrev pub destroying : ℕ → Functor → ℕ
destroying id (runs_destroyed n) = if n == id then 1 else 0
destroying id _ = 0

-- How many functors of a kind wait.
abbrev pub total : (Functor → ℕ) → List Functor → ℕ
total p [] = 0
total p (f ∷ fs) = p f + total p fs

abbrev pub times : ℕ → List ℕ → ℕ
times id [] = 0
times id (n ∷ ns) = (if n == id then 1 else 0) + times id ns

pub total-append :
    (p : Functor → ℕ) (xs ys : List Functor) → total p (xs ++ ys) ≡ total p xs + total p ys
total-append p [] ys = omega arith
total-append p (x ∷ xs) ys = omega (arith, total-append p xs ys)

pub total-replicate : (p : Functor → ℕ) (n : ℕ) (f : Functor) → total p (replicate n f) ≡ n * p f
total-replicate p zero f = omega arith
total-replicate p (suc n) f = grind (arith, total-replicate p n f)

pub update_all {ℓ κ} :
    {A : Type ℓ} (P : ℕ → A → Type κ) (f : ℕ → A) (k : ℕ) (v : A)
    → P k v
    → ((j : ℕ) → (j == k) ≡ false → P j (f j))
    → (j : ℕ) → P j (update f k v j)
update_all P f k v at_k elsewhere j = elim (Bool-cases (j == k)) [
  | inl same ↦ rw same (subst (λ i. P i v) (sym ((==_iff j k).0 same)) at_k)
  | inr other ↦ rw other (elsewhere j other)
]

-- Every connection of the server is established at most once, and not before it was made; its owner
-- asks for its removal once for each time that it is told of the close; what was removed is destroyed
-- once; and the poller has the channel from when the connection is established until then.
pub record Orderly {L : Type 0} (w : World L) : Type 0 where
  pub valid : IsValid w.server
  pub lived : (id : ℕ) → Lived (w.conns id)
  pub rests : (id : ℕ) → Rests (w.conns id)
  pub there :
      (id : ℕ)
      → times id w.ended ≡ 0
      → is_connecting (w.conns id).state ≡ false
      → (w.conns id).registered ≡ true
  pub made :
      (id : ℕ)
      → total (establishing id) w.waiting + (if is_connecting (w.conns id).state then 0 else 1)
        ≡ established id w.server.log
  pub told :
      (id : ℕ) → total (removing id) w.waiting + destroyed id w.server.log ≡ closed (w.conns id)
  pub over :
      (id : ℕ) → total (destroying id) w.waiting + times id w.ended ≡ destroyed id w.server.log

-- What the parts of a connection's life say of each other.
pub connecting-closed : (c : Connection) → Lived c → is_connecting c.state ≡ true → closed c ≡ 0
connecting-closed c v h = ground (arith, v)

pub closed-disconnected : (c : Connection) → Lived c → 0 < closed c → is_disconnected c.state ≡ true
closed-disconnected c v h = ground (arith, v)

pub closed-le-one : (c : Connection) → Lived c → closed c ≤ 1
closed-le-one c v = ground (arith, v)

pub established_goes :
    (c d : Connection)
    → connect_established c ≡ ok d
    → (is_connecting c.state ≡ true)
      × (is_connecting d.state ≡ false)
      × Rests d
      × (closed d ≡ closed c)
      × (d.registered ≡ true)
unfolding connect_established
established_goes c d e =
    (ground (arith, e), ground (arith, e), ground (arith, e), ground (arith, e), ground (arith, e))

pub destroyed_goes :
    (c d : Connection)
    → is_disconnected c.state ≡ true
    → Rests c
    → connect_destroyed c ≡ ok d
    → (is_connecting d.state ≡ is_connecting c.state) × Rests d × (closed d ≡ closed c)
unfolding connect_destroyed
destroyed_goes c d gone r e = (ground (arith, e), ground (arith, r, e), ground (arith, e))

pub Lived-step : (c d : Connection) (o : Operation) → Lived c → step o c ≡ ok d → Lived d
Lived-step c d o v e = (reaches_lem v (Connection_operation.more Connection_operation.start o e)).0

module _ (p : Functor → ℕ) (f : Functor) (front rest : List Functor) where
  -- A functor that has been taken out.
  pub total_taken :
      (waiting : List Functor)
      → waiting ≡ front ++ (f ∷ rest)
      → total p waiting ≡ p f + total p (front ++ rest)
  total_taken waiting e =
      rw e (omega (arith, total-append p front (f ∷ rest), total-append p front rest))
