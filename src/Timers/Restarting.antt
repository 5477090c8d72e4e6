-- ===== src/Timers/Restarting.antt =====
-- `TimerQueue::reset` of LuxPolaris/src/TimerQueue.cc on one timer: it starts again, or is deleted.
use lux_polaris.Prelude.{
  ℕ, ◌≡◌, refl, ap, ◌∙◌, Bool, true, false, not, ◌&&◌, ◌||◌, List, Option, none, some, Outcome, ok,
  ◌>>=◌, arith, ◌==◌, update, update_self, Bool-cases, inl, inr,
}
use lux_polaris.Timers.{Timer, Queue, restart, delete, insert, reset_one}
use lux_polaris.Timers.Sets.{Key, contains}
use lux_polaris.Timers.Invariant.{IsValid, IsIdle, both, Adds, same_self, either_right, either_left}
use lux_polaris.Timers.Inserting.{Inserted, insert_lem}

-- The queue with another timer, or none, at an address.
abbrev pub with_timer : ℕ → Option Timer → Queue → Queue
with_timer a o q = record q { store = update q.store a o }

-- A timer in the sets is not at the address of an idle one.
not_idle : (a b : ℕ) (p : ℕ → Bool) → p a ≡ false → p b ≡ true → (b == a) ≡ false
not_idle a b p h k = elim (Bool-cases (b == a)) [
  | inl here ↦ absurd (ground (arith, ap p (same_place here)))
  | inr there ↦ there
]
  where
    same_place : (b == a) ≡ true → b ≡ a
    same_place e = ground arith

-- The timer of an idle address may be changed or deleted.
pub idle-IsValid :
    {q : Queue} → IsValid q → (a : ℕ) → IsIdle a q → (o : Option Timer) → IsValid (with_timer a o q)
idle-IsValid {q} v a (none_filed, none_listed) o = record {
  timers_sorted = v.timers_sorted;
  active_sorted = v.active_sorted;
  sizes = v.sizes;
  filed = λ w b h.
      let (t, alive, facts) = v.filed w b h in
      (t, rw (not_idle a b (λ x. contains (w, x) q.timers) (none_filed w) h) alive, facts);
  listed = λ b s h.
      let (t, alive, facts) = v.listed b s h in
      (t, rw (not_idle a b (λ x. contains (x, s) q.active) (none_listed s) h) alive, facts);
}

neither_of : (b c : Bool) → b ≡ false → c ≡ false → (b || c) ≡ false
neither_of b c h k = ground arith

-- A timer added to both sets leaves those at other addresses idle.
pub idle_after :
    (q : Queue) (a e s : ℕ) (timers active : List Key)
    → Adds (e, a) q.timers timers
    → Adds (a, s) q.active active
    → (b : ℕ) → (b == a) ≡ false
    → IsIdle b q
    → ((w : ℕ) → contains (w, b) timers ≡ false) × ((n : ℕ) → contains (b, n) active ≡ false)
idle_after q a e s timers active adds adds' b far (none_filed, none_listed) = (
  λ w. adds (w, b) ∙ neither_of _ _ (ground arith) (none_filed w),
  λ n. adds' (b, n) ∙ neither_of _ _ (ground arith) (none_listed n),
)

-- `q` becomes `r`, and only what concerns the address changes.
pub record Settles (a : ℕ) (q r : Queue) : Type 0 where
  pub valid : IsValid r
  pub others : (b : ℕ) → (b == a) ≡ false → r.store b ≡ q.store b
  pub kept : (k : Key) → contains k q.timers ≡ true → contains k r.timers ≡ true
  pub idle : (b : ℕ) → (b == a) ≡ false → IsIdle b q → IsIdle b r
  pub canceling : r.canceling ≡ q.canceling

-- Whether `reset` starts a timer again.
abbrev pub goes_on : ℕ → Timer → List Key → Bool
goes_on a t canceling = t.repeats && not (contains (a, t.sequence) canceling)

-- The timer waits with its next expiration, or is deleted.
pub record Fate (add_time : ℕ → ℕ → ℕ) (now a : ℕ) (t : Timer) (canceling : List Key) (r : Queue)
    : Type 0 where
  pub restarted :
      goes_on a t canceling ≡ true
      → (r.store a ≡ some (restart add_time now t))
        × (contains ((restart add_time now t).expiration, a) r.timers ≡ true)
  pub deleted : goes_on a t canceling ≡ false → r.store a ≡ none

module _ (add_time : ℕ → ℕ → ℕ) (now : ℕ) {q : Queue} (v : IsValid q) (a : ℕ) (t : Timer)
    (alive : q.store a ≡ some t) (idle : IsIdle a q) where
  abbrev ResetOne : Outcome Queue → Type 0
  ResetOne o = (r : Queue) × (o ≡ ok r) × Settles a q r × Fate add_time now a t q.canceling r

  abbrev next : Timer
  next = restart add_time now t

  chosen :
      goes_on a t q.canceling ≡ true
      → reset_one add_time now a q ≡ (insert a (with_timer a (some next) q) >>= λ p. ok p.1)
  unfolding reset_one
  chosen on = rw alive (rw on refl)

  insert_again :
      goes_on a t q.canceling ≡ true
      → Inserted a next (with_timer a (some next) q) (insert a (with_timer a (some next) q))
      → ResetOne (reset_one add_time now a q)
  insert_again on (timers, active, e, w, adds, adds') = (
    both (with_timer a (some next) q) timers active,
    chosen on ∙ ap (λ o. o >>= λ p. ok p.1) e,
    record {
      valid = w;
      others = λ b far. rw far refl;
      kept = λ k h. adds k ∙ either_right _ _ h;
      idle = λ b far i.
          idle_after (with_timer a (some next) q) a next.expiration next.sequence timers active adds
            adds' b far i;
      canceling = refl;
    },
    record {
      restarted = λ h. (
        update_self q.store a (some next),
        adds (next.expiration, a) ∙ either_left _ _ (same_self (next.expiration, a)),
      );
      deleted = λ h. absurd (ground (arith, on));
    },
  )

  deleted_now : goes_on a t q.canceling ≡ false → ResetOne (reset_one add_time now a q)
  unfolding reset_one
  deleted_now off = (
    delete a q,
    rw alive (rw off refl),
    record {
      valid = idle-IsValid v a idle none;
      others = λ b far. rw far refl;
      kept = λ k h. h;
      idle = λ b far i. i;
      canceling = refl;
    },
    record {
      restarted = λ h. absurd (ground (arith, off));
      deleted = λ h. update_self q.store a none;
    },
  )

  pub reset_one_lem : ResetOne (reset_one add_time now a q)
  reset_one_lem = elim (Bool-cases (goes_on a t q.canceling)) [
    | inl on ↦
        insert_again on (
          insert_lem (idle-IsValid v a idle (some next)) a (update_self q.store a (some next)) idle)
    | inr off ↦ deleted_now off
  ]
