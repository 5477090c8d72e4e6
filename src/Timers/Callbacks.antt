-- ===== src/Timers/Callbacks.antt =====
-- LuxPolaris/src/TimerQueue.cc: what the callbacks of the timers do to the queue that runs them.
use lux_polaris.Prelude.{
  ℕ, ◌≡◌, refl, ap, ◌∙◌, Bool, true, false, List, [], ◌∷◌, Option, none, some, Outcome, ok, ◌>>=◌,
  arith, if◌then◌else◌, ◌==◌, update_self, All, Bool-cases, inl, inr,
}
use lux_polaris.Timers.{
  Timer, Queue, new_timer, insert, add_timer, add_timer_in_loop, cancel_in_loop, deref,
  reset_timerfd, is_earliest,
}
use lux_polaris.Timers.Sets.{Key, contains}
use lux_polaris.Timers.Invariant.{IsValid, IsIdle, beside-IsValid, both, Adds}
use lux_polaris.Timers.Inserting.{Inserted, insert_lem}
use lux_polaris.Timers.Restarting.{with_timer, idle-IsValid, idle_after}
use lux_polaris.Timers.Resetting.{Ran}

-- What a callback asks of the queue: a new timer at the address that `new` returned, due at a time,
-- with an interval, as the so many-th that was made; or the end of a timer.
pub data Request : Type 0 where
  adds : ℕ → ℕ → ℕ → ℕ → Request
  cancels : Key → Request

abbrev pub request : Request → Queue → Outcome Queue
request (adds a when interval created) q = add_timer a when interval created q
request (cancels k) q = cancel_in_loop k q

abbrev pub perform : List Request → Queue → Outcome Queue
perform [] q = ok q
perform (x ∷ xs) q = request x q >>= perform xs

-- `new` returns an address where no timer is.
abbrev pub FreshFor : Request → Queue → Type 0
FreshFor (adds a when interval created) q = q.store a ≡ none
FreshFor (cancels k) q = Unit {0}

abbrev pub Fresh : List Request → Queue → Type 0
Fresh [] q = Unit {0}
Fresh (x ∷ xs) q = FreshFor x q × ((r : Queue) → request x q ≡ ok r → Fresh xs r)

-- The entries of timers that run or have run.
abbrev pub Between : List Key → Queue → Type 0
Between ks q = IsValid q × All (Ran q) ks

abbrev pub Serves : List Key → Outcome Queue → Type 0
Serves ks o = (r : Queue) × (o ≡ ok r) × Between ks r

pub free-IsIdle : {q : Queue} → IsValid q → (a : ℕ) → q.store a ≡ none → IsIdle a q
free-IsIdle {q} v a free = (
  λ w. no (contains (w, a) q.timers) (λ h. let (t, alive, _) = v.filed w a h in (t, alive)),
  λ s. no (contains (a, s) q.active) (λ h. let (t, alive, _) = v.listed a s h in (t, alive)),
)
  where
    no : (b : Bool) → (b ≡ true → (t : Timer) × (q.store a ≡ some t)) → b ≡ false
    no false h = refl
    no true h = let (t, alive) = h refl in absurd (ground (arith, alive))

ran_elsewhere :
    (q : Queue) (a b : ℕ)
    → q.store a ≡ none
    → ((t : Timer) × (q.store b ≡ some t))
    → (b == a) ≡ false
ran_elsewhere q a b free (t, alive) = elim (Bool-cases (b == a)) [
  | inl here ↦ absurd (ground (arith, ap q.store (same_place here)))
  | inr there ↦ there
]
  where
    same_place : (b == a) ≡ true → b ≡ a
    same_place e = ground arith

module _ {q : Queue} (v : IsValid q) (a when interval created : ℕ) (free : q.store a ≡ none) where
  abbrev pub fresh_timer : Timer
  fresh_timer = new_timer when interval created

  added_Ran :
      (timers active : List Key)
      → Adds (when, a) q.timers timers
      → Adds (a, fresh_timer.sequence) q.active active
      → (armed : Option ℕ) (ks : List Key) → All (Ran q) ks
      → All
          (Ran (record (both (with_timer a (some fresh_timer) q) timers active) { armed = armed }))
          ks
  added_Ran timers active m m' armed [] ran = tt
  added_Ran timers active m m' armed (k ∷ ks) ((live, idle), ran) =
      let far = ran_elsewhere q a k.1 free live in
      (
        (
          (live.0, rw far live.1),
          idle_after q a when fresh_timer.sequence timers active m m' k.1 far idle,
        ),
        added_Ran timers active m m' armed ks ran,
      )

  abbrev pub filed : List Key → List Key → Queue
  filed timers active = both (with_timer a (some fresh_timer) q) timers active

  abbrev pub first : Bool
  first = is_earliest when q.timers

  abbrev pub set_to : Option ℕ
  set_to = if first then some when else q.armed

  armed_by :
      (timers active : List Key)
      → insert a (with_timer a (some fresh_timer) q) ≡ ok (first, filed timers active)
      → add_timer a when interval created q ≡ ok (record (filed timers active) { armed = set_to })
  unfolding add_timer add_timer_in_loop
  armed_by timers active e = ap go e ∙ rw (update_self q.store a (some fresh_timer)) both_ways
    where
      go : Outcome (Bool × Queue) → Outcome Queue
      go o =
          o >>= λ p. deref a p.1 >>= λ t. ok (if p.0 then reset_timerfd t.expiration p.1 else p.1)

      both_ways :
          ok (if first then reset_timerfd when (filed timers active) else filed timers active)
          ≡ ok (record (filed timers active) { armed = set_to })
      both_ways = elim (Bool-cases first) [ inl h ↦ rw h refl | inr h ↦ rw h refl ]

  add_timer_done :
      Inserted a fresh_timer
        (with_timer a (some fresh_timer) q)
        (insert a (with_timer a (some fresh_timer) q))
      → (ks : List Key) → All (Ran q) ks
      → Serves ks (add_timer a when interval created q)
  add_timer_done (timers, active, e, w, m, m') ks ran = (
    record (filed timers active) { armed = set_to },
    armed_by timers active e,
    (
      beside-IsValid q.calling_expired_timers q.canceling set_to w,
      added_Ran timers active m m' set_to ks ran,
    ),
  )

  pub add_timer-Serves :
      (ks : List Key) → All (Ran q) ks → Serves ks (add_timer a when interval created q)
  add_timer-Serves ks ran =
      let idle = free-IsIdle v a free in
      add_timer_done
        (insert_lem (idle-IsValid v a idle (some fresh_timer)) a
          (update_self q.store a (some fresh_timer)) idle)
        ks ran

  -- The timer is filed in both sets, and the timerfd is set to it if it is the first.
  pub add_timer_lem :
      (timers : List Key) × (active : List Key) × (add_timer a when interval created q
        ≡ ok (record (filed timers active) { armed = set_to }))
      × IsValid (record (filed timers active) { armed = set_to })
      × Adds (when, a) q.timers timers
      × Adds (a, fresh_timer.sequence) q.active active
  add_timer_lem =
      let idle = free-IsIdle v a free in
      let (timers, active, e, w, m, m') =
        insert_lem (idle-IsValid v a idle (some fresh_timer)) a
          (update_self q.store a (some fresh_timer)) idle in
      (
        timers,
        active,
        armed_by timers active e,
        beside-IsValid q.calling_expired_timers q.canceling set_to w,
        m,
        m',
      )
