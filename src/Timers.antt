-- ===== src/Timers.antt =====
-- LuxPolaris/src/TimerQueue.cc, Timer.cc and include/Timer.h: the timers of a loop. The two sets of
-- the source are lists in ascending order, and a Timer* is an address in `store`, where its timer is
-- while it is not deleted. A Timestamp counts microseconds; `addTime` of the logging library, and what
-- a timer's callback does to the queue, are arguments.
pub mod Sets
pub mod Order
pub mod Invariant
pub mod Inserting
pub mod Canceling
pub mod Split
pub mod Erasing
pub mod Expiry
pub mod Delay
pub mod Restarting
pub mod Resetting
pub mod Callbacks
pub mod Serving
pub mod Rounds
pub mod Ending
use lux_polaris.Prelude.{
  ℕ, suc, ◌+◌, ◌-◌, ◌*◌, ◌/◌, ◌%◌, ◌^◌, Bool, true, false, not, ◌&&◌, ◌||◌, List, [], ◌∷◌, ◌++◌,
  Option, none, some, Outcome, ok, fault, assertion_failed, null_pointer, ◌>>=◌, ◌>>◌, assert,
  if◌then◌else◌, ltb, ◌==◌, length, update,
}
use lux_polaris.Timers.Sets.{Key, insert_in, erase_from, contains, split_below}

-- `interval` is 0 for a timer that runs once.
pub record Timer : Type 0 where
  pub expiration : ℕ
  pub interval : ℕ
  pub repeats : Bool
  pub sequence : ℕ

-- The constructor; `s_numCreated_` counts up.
abbrev pub new_timer : ℕ → ℕ → ℕ → Timer
new_timer when interval created = record {
  expiration = when;
  interval = interval;
  repeats = ltb 0 interval;
  sequence = suc created;
}

-- `restart`; `Timestamp::invalid()` is 0.
abbrev pub restart : (ℕ → ℕ → ℕ) → ℕ → Timer → Timer
restart add_time now t =
    if t.repeats
    then record t { expiration = add_time now t.interval }
    else record t { expiration = 0 }

-- `timers` holds (expiration, address), `active` and `canceling` hold (address, sequence). `armed` is
-- the expiration that the timerfd was last set to.
pub record Queue : Type 0 where
  pub timers : List Key
  pub active : List Key
  pub calling_expired_timers : Bool
  pub canceling : List Key
  pub store : ℕ → Option Timer
  pub armed : Option ℕ

abbrev pub new_queue : Queue
new_queue = record {
  timers = [];
  active = [];
  calling_expired_timers = false;
  canceling = [];
  store = λ a. none;
  armed = none;
}

abbrev pub present : Option Timer → Outcome Timer
present none = fault null_pointer
present (some t) = ok t

-- A pointer is followed; to a deleted timer it must not be.
abbrev pub deref : ℕ → Queue → Outcome Timer
deref a q = present (q.store a)

abbrev pub delete : ℕ → Queue → Queue
delete a q = record q { store = update q.store a none }

abbrev pub same_size : Queue → Bool
same_size q = length q.timers == length q.active

abbrev pub reset_timerfd : ℕ → Queue → Queue
reset_timerfd expiration q = record q { armed = some expiration }

-- `howMuchTimeFromNow`: seconds and nanoseconds.
abbrev pub how_much_time_from_now : ℕ → ℕ → ℕ × ℕ
how_much_time_from_now expiration now =
    let microseconds = if ltb (expiration - now) 100 then 100 else expiration - now in
    (microseconds / 1000000, (microseconds % 1000000) * 1000)

-- `it == timers_.end() || when < it->first`, at the begin of the set.
abbrev pub is_earliest : ℕ → List Key → Bool
is_earliest when [] = true
is_earliest when (k ∷ ks) = ltb when k.0

-- What `std::set::insert` did, asserted to have put in a new element.
abbrev pub inserted : Option (List Key) → Outcome (List Key)
inserted none = fault assertion_failed
inserted (some ks) = ok ks

unfoldable pub insert : ℕ → Queue → Outcome (Bool × Queue)
insert a q = do
  assert (same_size q)
  t ← deref a q
  let earliest_changed = is_earliest t.expiration q.timers
  timers ← inserted (insert_in (t.expiration, a) q.timers)
  active ← inserted (insert_in (a, t.sequence) q.active)
  let q' : Queue = record q { timers = timers; active = active }
  assert (same_size q')
  ok (earliest_changed, q')

-- `addTimerInLoop`, of the timer that `addTimer` made at the address `a`.
unfoldable pub add_timer_in_loop : ℕ → Queue → Outcome Queue
unfolding insert
add_timer_in_loop a q = do
  (earliest_changed, q') ← insert a q
  t ← deref a q'
  ok (if earliest_changed then reset_timerfd t.expiration q' else q')

-- `addTimer` in the loop's thread; `a` is the address that `new` returned.
unfoldable pub add_timer : ℕ → ℕ → ℕ → ℕ → Queue → Outcome Queue
unfolding add_timer_in_loop
add_timer a when interval created q =
    add_timer_in_loop a
      (record q { store = update q.store a (some (new_timer when interval created)) })

-- What `erase` did, asserted to have taken out one element.
abbrev pub erased : Option (List Key) → Outcome (List Key)
erased none = fault assertion_failed
erased (some ks) = ok ks

-- The timer is still active.
unfoldable pub cancel_active : Key → Queue → Outcome Queue
cancel_active (a, s) q = do
  t ← deref a q
  timers ← erased (erase_from (t.expiration, a) q.timers)
  active ← erased (erase_from (a, s) q.active)
  ok (delete a (record q { timers = timers; active = active }))

unfoldable pub cancel_in_loop : Key → Queue → Outcome Queue
unfolding cancel_active
cancel_in_loop timer q = do
  assert (same_size q)
  q' ←
      if contains timer q.active
      then cancel_active timer q
      else if q.calling_expired_timers
      then ok (record q {
        canceling = elim (insert_in timer q.canceling) [ none ↦ q.canceling | some ks ↦ ks ];
      })
      else ok q
  assert (same_size q')
  ok q'

-- UINTPTR_MAX
abbrev pub max_address : ℕ
max_address = 2 ^ 64 - 1

-- `end == timers_.end() || now < end->first`
abbrev pub is_later : ℕ → List Key → Bool
is_later now [] = true
is_later now (k ∷ ks) = ltb now k.0

-- The for loop of `getExpired`.
abbrev pub erase_active : List Key → Queue → Outcome Queue
erase_active [] q = ok q
erase_active ((when, a) ∷ expired) q = do
  t ← deref a q
  active ← erased (erase_from (a, t.sequence) q.active)
  erase_active expired (record q { active = active })

unfoldable pub get_expired : ℕ → Queue → Outcome (List Key × Queue)
get_expired now q = do
  assert (same_size q)
  let (expired, rest) = split_below (now, max_address) q.timers
  assert (is_later now rest)
  q' ← erase_active expired (record q { timers = rest })
  assert (same_size q')
  ok (expired, q')

-- One turn of the for loop of `reset`.
unfoldable pub reset_one : (ℕ → ℕ → ℕ) → ℕ → ℕ → Queue → Outcome Queue
unfolding insert
reset_one add_time now a q = do
  t ← deref a q
  if t.repeats && not (contains (a, t.sequence) q.canceling)
      then (do
        (earliest_changed, q') ←
            insert a (record q { store = update q.store a (some (restart add_time now t)) })
        ok q')
      else ok (delete a q)

abbrev pub reset_all : (ℕ → ℕ → ℕ) → ℕ → List Key → Queue → Outcome Queue
reset_all add_time now [] q = ok q
reset_all add_time now ((when, a) ∷ expired) q = do
  q' ← reset_one add_time now a q
  reset_all add_time now expired q'

-- The timerfd is set to the first timer that is left; an expiration of 0 is not valid.
unfoldable pub rearm : Queue → Outcome Queue
rearm q = elim q.timers [
  | [] ↦ ok q
  | ((when, a) ∷ ks) ↦ (do
    t ← deref a q
    ok (if ltb 0 t.expiration then reset_timerfd t.expiration q else q))
]

unfoldable pub reset : (ℕ → ℕ → ℕ) → List Key → ℕ → Queue → Outcome Queue
unfolding rearm
reset add_time expired now q = do q' ← reset_all add_time now expired q; rearm q'

-- `run` is the callback of the timer at an address.
abbrev pub run_all : (ℕ → Queue → Outcome Queue) → List Key → Queue → Outcome Queue
run_all run [] q = ok q
run_all run ((when, a) ∷ expired) q = do t ← deref a q; q' ← run a q; run_all run expired q'

unfoldable pub handle_read : (ℕ → ℕ → ℕ) → (ℕ → Queue → Outcome Queue) → ℕ → Queue → Outcome Queue
unfolding get_expired reset
handle_read add_time run now q = do
  (expired, q') ← get_expired now q
  ran ← run_all run expired (record q' { calling_expired_timers = true; canceling = [] })
  reset add_time expired now (record ran { calling_expired_timers = false })
