-- ===== src/EventLoop/Scheduling.antt =====
-- `runAt`, `runAfter`, `runEvery` and `cancel` of LuxPolaris/src/EventLoop.cc, with `addTimer` and
-- `cancel` of TimerQueue.cc, which give the work to the loop where another thread calls them.
use lux_polaris.Prelude.{
  ℕ, suc, ◌≡◌, ap, ◌∙◌, Bool, true, false, ◌||◌, List, [], ◌∷◌, ◌++◌, none, some, Outcome, ok,
  ◌>>=◌, arith, update_self, update, subst,
}
use lux_polaris.EventLoop.{Loop, queue_in_loop, swap_pending, called}
use lux_polaris.Timers.{Queue, cancel_in_loop, new_timer, delete}
use lux_polaris.Timers.Sets.{Key, contains}
use lux_polaris.Timers.Invariant.{IsValid, Adds, both, same_self}
use lux_polaris.Timers.Canceling.{Drops, cancel_in_loop_lem}
use lux_polaris.Timers.Callbacks.{
  Request, adds, cancels, request, perform, free-IsIdle, add_timer_lem, set_to, filed,
}

-- A loop and its timer queue.
pub record Timed : Type 0 where
  pub loop : Loop Request
  pub queue : Queue

-- `loop_->runInLoop` of the request, and the TimerId that names the timer.
unfoldable pub give_request : Bool → Request → Timed → Outcome Timed
give_request true r t = do queue ← request r t.queue; ok (record t { queue = queue })
give_request false r t = ok (record t { loop = queue_in_loop false r t.loop })

-- The address is that which `new` returned, and `created` the number of timers made before.
abbrev pub run_at : Bool → ℕ → ℕ → ℕ → Timed → Outcome (Key × Timed)
run_at in_loop a created time t =
    give_request in_loop (adds a time 0 created) t >>= λ u. ok ((a, suc created), u)

-- `add_time` and the clock are those of the logging library.
abbrev pub run_after : (ℕ → ℕ → ℕ) → Bool → ℕ → ℕ → ℕ → ℕ → Timed → Outcome (Key × Timed)
run_after add_time in_loop a created now delay = run_at in_loop a created (add_time now delay)

abbrev pub run_every : (ℕ → ℕ → ℕ) → Bool → ℕ → ℕ → ℕ → ℕ → Timed → Outcome (Key × Timed)
run_every add_time in_loop a created now interval t =
    give_request in_loop (adds a (add_time now interval) interval created) t >>= λ u.
    ok ((a, suc created), u)

abbrev pub cancel : Bool → Key → Timed → Outcome Timed
cancel in_loop timer_id = give_request in_loop (cancels timer_id)

-- `doPendingFunctors`, where the functors are requests.
unfoldable pub run_pending : Timed → Outcome Timed
run_pending t =
    let (functors, swapped) = swap_pending t.loop in
    perform functors t.queue >>= λ queue. ok (record t { loop = called swapped; queue = queue })

-- Both sets are as they were, and the address is free again.
abbrev pub Restored : ℕ → Queue → Outcome Timed → Type 0
Restored a q o =
    (t : Timed) × (o ≡ ok t)
    × IsValid t.queue
    × ((k : Key) → contains k t.queue.timers ≡ contains k q.timers)
    × ((k : Key) → contains k t.queue.active ≡ contains k q.active)
    × (t.queue.store a ≡ none)

-- Put in and taken out.
restored :
    (j k : Key) (ks added dropped : List Key)
    → contains k ks ≡ false
    → Adds k ks added
    → Drops k added dropped
    → contains j dropped ≡ contains j ks
restored (w, b) (u, a) ks added dropped new m d = ground (arith, new, m (w, b), d (w, b))

-- The queue behind the two requests.
abbrev Undone : ℕ → Queue → Outcome Queue → Type 0
Undone a q o =
    (r : Queue) × (o ≡ ok r)
    × IsValid r
    × ((k : Key) → contains k r.timers ≡ contains k q.timers)
    × ((k : Key) → contains k r.active ≡ contains k q.active)
    × (r.store a ≡ none)

module _ {q : Queue} (v : IsValid q) (a created time interval : ℕ) (free : q.store a ≡ none) where
  undone : Undone a q (perform (adds a time interval created ∷ cancels (a, suc created) ∷ []) q)
  undone =
      let (timers, active, e, w, m, m') = add_timer_lem v a time interval created free in
      let (t, timers', active', alive, e', w', d, d') = cancel_in_loop_lem w a (suc created) (
        m' (a, suc created)
        ∙ ap (λ b. b || contains (a, suc created) q.active) (same_self (a, suc created))) in
      let (none_filed, none_listed) = free-IsIdle v a free in
      let due : t.expiration ≡ time =
        ground (arith, alive, update_self q.store a (some (new_timer time interval created))) in
      (
        delete a (
            both
              (record (filed v a time interval created free timers active) {
                armed = set_to v a time interval created free;
              })
              timers' active'),
        ap (λ o. o >>= λ r. cancel_in_loop (a, suc created) r >>= perform []) e
            ∙ ap (λ o. o >>= perform []) e',
        w',
        λ k.
            restored k (time, a) q.timers timers timers' (none_filed time) m
              (subst (λ x. Drops (x, a) timers timers') due d),
        λ k. restored k (a, suc created) q.active active active' (none_listed (suc created)) m' d',
        update_self (update q.store a (some (new_timer time interval created))) a none,
      )

runs_both :
    (t : Timed) (a created time interval : ℕ)
    → t.loop.pending ≡ []
    → Undone a t.queue
        (perform (adds a time interval created ∷ cancels (a, suc created) ∷ []) t.queue)
    → Restored a t.queue (
        give_request false (adds a time interval created) t >>= λ u.
        cancel false (a, suc created) u >>= run_pending)
unfolding give_request run_pending queue_in_loop
runs_both t a created time interval idle (r, e, v, timers, active, free) = (
  record { loop = called (swap_pending given).1; queue = r },
  ap (λ o. o >>= λ queue. ok (record { loop = called (swap_pending given).1; queue = queue }))
      (both_wait t.loop.pending idle ∙ e),
  v,
  timers,
  active,
  free,
)
  where
    given : Loop Request
    given =
        queue_in_loop false (cancels (a, suc created))
          (queue_in_loop false (adds a time interval created) t.loop)

    both_wait :
        (waiting : List Request)
        → waiting ≡ []
        → perform
            ((waiting ++ adds a time interval created ∷ []) ++ cancels (a, suc created) ∷ [])
            t.queue
          ≡ perform (adds a time interval created ∷ cancels (a, suc created) ∷ []) t.queue
    both_wait waiting h =
        ap
          (λ rs.
            perform ((rs ++ adds a time interval created ∷ []) ++ cancels (a, suc created) ∷ [])
              t.queue)
          h

-- A timer that another thread schedules and then cancels, both before the loop runs what waits, is
-- gone when it has: no assertion fails, both sets are as they were, the queue is valid, and the
-- timer's address is free. Nothing waited before, and `new` returned an address where no timer is.
pub schedule_then_cancel :
    (t : Timed) (a created time interval : ℕ)
    → IsValid t.queue
    → t.loop.pending ≡ []
    → t.queue.store a ≡ none
    → Restored a t.queue (
        give_request false (adds a time interval created) t >>= λ u.
        cancel false (a, suc created) u >>= run_pending)
schedule_then_cancel t a created time interval v idle free =
    runs_both t a created time interval idle (undone v a created time interval free)
