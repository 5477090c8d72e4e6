-- ===== src/Timers/Invariant.antt =====
-- LuxPolaris/src/TimerQueue.cc: the two sets hold the same timers, and an insertion or a cancellation
-- keeps it so.
use lux_polaris.Prelude.{
  ◌⊎◌, ℕ, ◌≡◌, Bool, true, false, ◌||◌, List, Option, some, ==_self, arith, length,
}
use lux_polaris.Timers.{Timer, Queue}
use lux_polaris.Timers.Sets.{Key, contains}
use lux_polaris.Timers.Order.{Sorted, same}

-- An address with a timer of the given expiration and sequence that is alive.
abbrev pub Alive : Queue → ℕ → (Timer → Type 0) → Type 0
Alive q a P = (t : Timer) × (q.store a ≡ some t) × P t

pub record IsValid (q : Queue) : Type 0 where
  pub timers_sorted : Sorted q.timers
  pub active_sorted : Sorted q.active
  pub sizes : length q.timers ≡ length q.active
  pub filed :
      (w a : ℕ)
      → contains (w, a) q.timers ≡ true
      → Alive q a (λ t. (t.expiration ≡ w) × (contains (a, t.sequence) q.active ≡ true))
  pub listed :
      (a s : ℕ)
      → contains (a, s) q.active ≡ true
      → Alive q a (λ t. (t.sequence ≡ s) × (contains (t.expiration, a) q.timers ≡ true))

-- What stands beside the sets and the store does not matter.
pub beside-IsValid :
    {q : Queue} (calling : Bool) (canceling : List Key) (armed : Option ℕ)
    → IsValid q
    → IsValid (record q { calling_expired_timers = calling; canceling = canceling; armed = armed })
beside-IsValid calling canceling armed v = record {
  timers_sorted = v.timers_sorted;
  active_sorted = v.active_sorted;
  sizes = v.sizes;
  filed = v.filed;
  listed = v.listed;
}

-- The timer at an address is in neither set.
abbrev pub IsIdle : ℕ → Queue → Type 0
IsIdle a q =
    ((w : ℕ) → contains (w, a) q.timers ≡ false) × ((s : ℕ) → contains (a, s) q.active ≡ false)

pub same-true : (a b c d : ℕ) → same (a, b) (c, d) ≡ true → (a ≡ c) × (b ≡ d)
same-true a b c d h = (ground arith, ground arith)

pub same_self : (k : Key) → same k k ≡ true
same_self (a, b) = ground (arith, ==_self a, ==_self b)

pub or-cases : (b c : Bool) → (b || c) ≡ true → (b ≡ true) ⊎ (c ≡ true)
or-cases b c h = ground arith

pub either_right : (b c : Bool) → c ≡ true → (b || c) ≡ true
either_right b c h = ground arith

pub either_left : (b c : Bool) → b ≡ true → (b || c) ≡ true
either_left b c h = ground arith

pub same_pair : {a b c d : ℕ} → a ≡ c → b ≡ d → same (a, b) (c, d) ≡ true
same_pair {a} {b} {c} {d} e e' = ground (arith, ==_self c, ==_self d)

-- Both sets with an element more.
abbrev pub both : Queue → List Key → List Key → Queue
both q timers active = record q { timers = timers; active = active }

abbrev pub Adds : Key → List Key → List Key → Type 0
Adds k ks r = (j : Key) → contains j r ≡ (same j k || contains j ks)
