-- ===== src/Timers/Rounds.antt =====
-- LuxPolaris/src/TimerQueue.cc: one round of `handleRead`, from the expired timers over their
-- callbacks to the reset.
use lux_polaris.Prelude.{
  ℕ, ◌<◌, ◌≤◌, ◌≡◌, refl, sym, ap, ◌∙◌, true, false, List, [], ◌∷◌, ◌++◌, Option, some, Outcome, ok,
  ◌>>=◌, arith, if◌then◌else◌, ltb, All, Bool-cases, inl, inr,
}
use lux_polaris.Timers.{
  Timer, Queue, get_expired, run_all, reset, reset_all, rearm, reset_timerfd, handle_read,
  max_address, deref, present,
}
use lux_polaris.Timers.Sets.{Key, contains}
use lux_polaris.Timers.Invariant.{Alive, IsValid, beside-IsValid}
use lux_polaris.Timers.Split.{All-contains, contains_first}
use lux_polaris.Timers.Expiry.{Expires, get_expired_lem}
use lux_polaris.Timers.Resetting.{Ran, Fates, SettlesAll, reset_all_lem, armed-Fates}
use lux_polaris.Timers.Callbacks.{Request, perform, Fresh, Serves}
use lux_polaris.Timers.Serving.{perform-Serves}

-- `requests` are those of the callback of the timer at an address.
abbrev pub FreshAll : (ℕ → List Request) → List Key → Queue → Type 0
FreshAll requests [] q = Unit {0}
FreshAll requests ((w, a) ∷ ks) q =
    Fresh (requests a) q × ((r : Queue) → perform (requests a) q ≡ ok r → FreshAll requests ks r)

same_expiration :
    {o : Option Timer} {t u : Timer} → o ≡ some t → o ≡ some u → t.expiration ≡ u.expiration
same_expiration e f = of_some (sym e ∙ f)
  where
    of_some : {t u : Timer} → some t ≡ some u → t.expiration ≡ u.expiration
    of_some p = ground arith

-- The timers that `getExpired` took out are idle.
module _ (now : ℕ) {r : Queue} (v : IsValid r) (undue : All (λ k. now < k.0) r.timers) where
  not_filed :
      (k : Key)
      → k.0 ≤ now
      → Alive r k.1 (λ t. t.expiration ≡ k.0)
      → (w : ℕ) → contains (w, k.1) r.timers ≡ false
  not_filed k due (t, alive, e) w = elim (Bool-cases (contains (w, k.1) r.timers)) [
    | inl there ↦
        let (u, alive', (e', m)) = v.filed w k.1 there in
        absurd (
          omega (
            arith,
            same_expiration alive alive',
            All-contains (λ k. now < k.0) (w, k.1) r.timers there undue,
          ))
    | inr absent ↦ absent
  ]

  not_listed :
      (k : Key)
      → k.0 ≤ now
      → Alive r k.1 (λ t. t.expiration ≡ k.0)
      → (s : ℕ) → contains (k.1, s) r.active ≡ false
  not_listed k due h s = elim (Bool-cases (contains (k.1, s) r.active)) [
    | inl there ↦
        let (u, alive, (e, m)) = v.listed k.1 s there in
        absurd (ground (arith, m, not_filed k due h u.expiration))
    | inr absent ↦ absent
  ]

  expired-Ran :
      (store : ℕ → Option Timer)
      → r.store ≡ store
      → (ks : List Key) → All (λ k. k.0 ≤ now) ks
      → All (λ k. (t : Timer) × (store k.1 ≡ some t) × (t.expiration ≡ k.0)) ks
      → All (Ran r) ks
  expired-Ran store same [] due alive = tt
  expired-Ran store same (k ∷ ks) (d, due) ((t, a, e), alive) =
      let here = ap (λ s. s k.1) same ∙ a in
      (
        ((t, here), (not_filed k d (t, here, e), not_listed k d (t, here, e))),
        expired-Ran store same ks due alive,
      )

-- The callbacks all run; `ks` are the last of `all`.
run_all-Serves :
    (requests : ℕ → List Request) (all ks : List Key) (q : Queue)
    → IsValid q
    → FreshAll requests ks q
    → All (Ran q) all
    → ((P : Key → Type 0) → All P all → All P ks)
    → Serves all (run_all (λ a. perform (requests a)) ks q)
run_all-Serves requests all [] q v fresh ran last = (q, refl, (v, ran))
run_all-Serves requests all ((w, a) ∷ ks) q v (fresh, later) ran last =
    let ((t, alive), idle) = (last (Ran q) ran).0 in
    let (r, e, (v', ran')) = perform-Serves (requests a) q v fresh all ran in
    let (end, e', facts) =
      run_all-Serves requests all ks r v' (later r e) ran' (λ P h. (last P h).1) in
    (
      end,
      ap go (ap present alive) ∙ ap (λ o. o >>= run_all (λ x. perform (requests x)) ks) e ∙ e',
      facts,
    )
  where
    go : Outcome Timer → Outcome Queue
    go o = o >>= λ t. perform (requests a) q >>= run_all (λ x. perform (requests x)) ks

-- The timerfd is set to the first timer that waits.
abbrev pub IsArmed : Queue → Type 0
IsArmed q = (w a : ℕ) (ks : List Key) → q.timers ≡ (w, a) ∷ ks → 0 < w → q.armed ≡ some w

abbrev Rearmed : Queue → Outcome Queue → Type 0
Rearmed q o =
    (armed : Option ℕ) × (o ≡ ok (record q { armed = armed }))
    × IsArmed (record q { armed = armed })

abbrev rearm_by : Queue → List Key → Outcome Queue
rearm_by q ks = elim ks [
  | [] ↦ ok q
  | ((when, a) ∷ ks) ↦
      deref a q >>= λ t. ok (if ltb 0 t.expiration then reset_timerfd t.expiration q else q)
]

rearm_first :
    (q : Queue) (w a : ℕ) (ks : List Key)
    → Alive q a (λ t. (t.expiration ≡ w) × (contains (a, t.sequence) q.active ≡ true))
    → rearm_by q ((w, a) ∷ ks) ≡ ok (record q { armed = if ltb 0 w then some w else q.armed })
rearm_first q w a ks (t, alive, (e, m)) =
    ap (λ o. present o >>= λ t. ok (if ltb 0 t.expiration then reset_timerfd t.expiration q else q))
      alive
    ∙ ap (λ n. ok (if ltb 0 n then reset_timerfd n q else q)) e
    ∙ elim (Bool-cases (ltb 0 w)) [ inl h ↦ rw h refl | inr h ↦ rw h refl ]

rearm_on : (q : Queue) → IsValid q → (ks : List Key) → q.timers ≡ ks → Rearmed q (rearm q)
unfolding rearm
rearm_on q v [] e = (q.armed, ap (rearm_by q) e, λ w a ks h. absurd (ground (arith, e)))
rearm_on q v ((w, a) ∷ ks) e = (
  if ltb 0 w then some w else q.armed,
  ap (rearm_by q) e
      ∙ rearm_first q w a ks (v.filed w a (ap (contains (w, a)) e ∙ contains_first (w, a) ks)),
  λ w' a' ks' h some_time. ground (arith, e, h),
)

-- The queue when the callbacks begin.
abbrev pub called : Queue → Queue
called r = record r { calling_expired_timers = true; canceling = [] }

-- `getExpired` gives the timers that are due, their callbacks run, and each of the timers then waits
-- with its next expiration or is deleted, by what the callbacks left in `canceling`. The queue is
-- valid and the timerfd set to the first timer.
abbrev pub Rounds : (ℕ → ℕ → ℕ) → ℕ → (ℕ → List Request) → Queue → Outcome Queue → Type 0
Rounds add_time now requests q o =
    (expired : List Key) × (taken : Queue) × (ran : Queue) × (r : Queue) × (get_expired now q
      ≡ ok (expired, taken))
    × (expired ++ taken.timers ≡ q.timers)
    × All (λ k. k.0 ≤ now) expired
    × All (λ k. now < k.0) taken.timers
    × (run_all (λ a. perform (requests a)) expired (called taken) ≡ ok ran)
    × (o ≡ ok r)
    × IsValid r
    × IsArmed r
    × Fates add_time now ran expired r

module _ (add_time : ℕ → ℕ → ℕ) (now : ℕ) where
  abbrev Resets : List Key → Queue → Outcome Queue → Type 0
  Resets ks m o = (r : Queue) × (o ≡ ok r) × IsValid r × IsArmed r × Fates add_time now m ks r

  reset_done :
      (ks : List Key) (m : Queue)
      → SettlesAll add_time now ks m (reset_all add_time now ks m)
      → Resets ks m (reset add_time ks now m)
  unfolding reset
  reset_done ks m (r, e, v, others, kept, fates) =
      let (armed, e', is_armed) = rearm_on r v r.timers refl in
      (
        record r { armed = armed },
        ap (λ o. o >>= rearm) e ∙ e',
        beside-IsValid r.calling_expired_timers r.canceling armed v,
        is_armed,
        armed-Fates add_time now m ks r armed fates,
      )

  module _ (requests : ℕ → List Request) (q : Queue) where
    round_done :
        Expires now q (get_expired now q)
        → ((expired : List Key) (r : Queue)
            → get_expired now q ≡ ok (expired, r)
            → FreshAll requests expired (called r))
        → Rounds add_time now requests q (handle_read add_time (λ a. perform (requests a)) now q)
    unfolding handle_read
    round_done (expired, r, e, v, all, due, undue, same, apart, alive) fresh =
        let (m, e1, (v1, ran)) =
          run_all-Serves requests expired expired (called r) (beside-IsValid true [] r.armed v)
            (fresh expired r e) (all_ran_called) (λ P h. h) in
        let (last, e2, v2, armed, fates) =
          reset_done expired (record m { calling_expired_timers = false })
            (reset_all_lem add_time now expired apart (record m { calling_expired_timers = false })
              (beside-IsValid false m.canceling m.armed v1) ran) in
        (expired, r, m, last, e, all, due, undue, e1, ap go e ∙ ap go_on e1 ∙ e2, v2, armed, fates)
      where
        all_ran_called : All (Ran (called r)) expired
        all_ran_called =
            expired-Ran now (beside-IsValid true [] r.armed v) undue q.store same expired due alive

        go : Outcome (List Key × Queue) → Outcome Queue
        go o = o >>= λ p. run_all (λ a. perform (requests a)) p.0 (called p.1) >>= λ m.
            reset add_time p.0 now (record m { calling_expired_timers = false })

        go_on : Outcome Queue → Outcome Queue
        go_on o =
            o >>= λ m. reset add_time expired now (record m { calling_expired_timers = false })

    -- A round on a valid queue returns, whatever timers its callbacks add and cancel, themselves and
    -- each other included: no assertion fails and no deleted timer is followed. Exactly the timers
    -- that were due have run, in order; each then waits with its next expiration if it repeats and
    -- does not stand in `cancelingTimers_`, and is deleted otherwise. The queue is valid, and the timerfd is
    -- set to the first timer that waits. An address is less than UINTPTR_MAX, and `new` returns one
    -- where no timer is.
    pub handle_read-Rounds :
        IsValid q
        → All (λ k. k.1 < max_address) q.timers
        → ((expired : List Key) (r : Queue)
            → get_expired now q ≡ ok (expired, r)
            → FreshAll requests expired (called r))
        → Rounds add_time now requests q (handle_read add_time (λ a. perform (requests a)) now q)
    handle_read-Rounds v bounded fresh = round_done (get_expired_lem now v bounded) fresh
