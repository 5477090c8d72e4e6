-- ===== src/Timers/Ending.antt =====
-- LuxPolaris/src/TimerQueue.cc: the destructor, which deletes the timers.
use lux_polaris.Prelude.{
  ℕ, ◌≡◌, refl, ap, ◌∙◌, Bool, true, false, ◌||◌, List, [], ◌∷◌, Option, none, some, Outcome, ok,
  ◌>>=◌, arith, if◌then◌else◌, ◌==◌, update, All, Bool-cases, inl, inr,
}
use lux_polaris.Timers.{Timer, Queue, deref, delete, present}
use lux_polaris.Timers.Sets.{Key, before, contains}
use lux_polaris.Timers.Order.{Sorted, contains_below}
use lux_polaris.Timers.Invariant.{IsValid}

-- The for loop of the destructor; a timer that is deleted already must not be deleted again.
abbrev pub delete_all : List Key → Queue → Outcome Queue
delete_all [] q = ok q
delete_all ((when, a) ∷ ks) q = do t ← deref a q; delete_all ks (delete a q)

unfoldable pub destruct : Queue → Outcome Queue
destruct q = delete_all q.timers q

abbrev pub has_address : ℕ → List Key → Bool
has_address a [] = false
has_address a ((when, b) ∷ ks) = (a == b) || has_address a ks

-- The timers of the entries are alive, with the expiration that the entry has.
abbrev AreAlive : List Key → (ℕ → Option Timer) → Type 0
AreAlive ks store =
    (w a : ℕ) → contains (w, a) ks ≡ true → (t : Timer) × (store a ≡ some t) × (t.expiration ≡ w)

contains_first : (w a : ℕ) (ks : List Key) → contains (w, a) ((w, a) ∷ ks) ≡ true
contains_first w a ks = ground arith

before_self : (w a : ℕ) → before (w, a) (w, a) ≡ false
before_self w a = ground arith

contains_behind :
    (k j : Key) (ks : List Key)
    → All (λ y. before k y ≡ true) ks
    → contains j ks ≡ true
    → contains j (k ∷ ks) ≡ true
contains_behind (u, b) (w, a) ks least h = elim (Bool-cases (before (u, b) (w, a))) [
  | inl behind ↦ ground (arith, behind, h)
  | inr not_behind ↦ absurd (ground (arith, contains_below (u, b) (w, a) ks least not_behind, h))
]

-- The other entries are of other timers.
AreAlive-deleted :
    (w a : ℕ) (ks : List Key) (store : ℕ → Option Timer)
    → Sorted ((w, a) ∷ ks)
    → AreAlive ((w, a) ∷ ks) store
    → AreAlive ks (update store a none)
AreAlive-deleted w a ks store (least, sorted) alive w' a' h =
    let (t, at, e) = alive w' a' (contains_behind (w, a) (w', a') ks least h) in
    let (t', at', e') = alive w a (contains_first w a ks) in
    (
      t,
      ground (arith, at, at', e, e', h, contains_below (w, a) (w, a) ks least (before_self w a)),
      e,
    )

-- The timers of the entries are gone, and no others.
abbrev pub Deletes : List Key → Queue → Outcome Queue → Type 0
Deletes ks q o =
    (r : Queue) × (o ≡ ok r)
    × ((a : ℕ) → r.store a ≡ (if has_address a ks then none else q.store a))

delete_all_lem :
    (ks : List Key) (q : Queue) → Sorted ks → AreAlive ks q.store → Deletes ks q (delete_all ks q)
delete_all_lem [] q sorted alive = (q, refl, λ a. refl)
delete_all_lem ((w, a) ∷ ks) q (least, sorted) alive =
    let (t, at, e) = alive w a (contains_first w a ks) in
    let (r, returns, gone) =
      delete_all_lem ks (delete a q) sorted
        (AreAlive-deleted w a ks q.store (least, sorted) alive) in
    (
      r,
      ap (λ o. present o >>= λ t. delete_all ks (delete a q)) at ∙ returns,
      λ b. gone b ∙ deleted b,
    )
  where
    deleted :
        (b : ℕ)
        → (if has_address b ks then none else update q.store a none b)
          ≡ (if (b == a) || has_address b ks then none else q.store b)
    deleted b = ground arith

-- The destructor of a valid queue deletes each of its timers once, in the order of the set, and no
-- other: none of the pointers that it follows is to a timer that is gone.
pub destruct_lem : (q : Queue) → IsValid q → Deletes q.timers q (destruct q)
unfolding destruct
destruct_lem q v = delete_all_lem q.timers q v.timers_sorted alive
  where
    alive : AreAlive q.timers q.store
    alive w a h = let (t, at, (e, listed)) = v.filed w a h in (t, at, e)
