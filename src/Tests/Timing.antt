-- ===== src/Tests/Timing.antt =====
-- Runs of LuxPolaris/src/TimerQueue.cc and Connector.cc.
use lux_polaris.Prelude.{
  ℕ, ◌+◌, ◌-◌, ◌*◌, ◌^◌, ◌≤◌, ◌<◌, ◌≡◌, ◌>>=◌, min, refl, sym, ap, subst, List, ok, ok_injective,
  true, false, [], ◌∷◌, some, arith, length, update,
}
use lux_polaris.Timers.{
  Queue, new_queue, new_timer, handle_read, cancel_in_loop, get_expired, how_much_time_from_now,
}
use lux_polaris.Timers.Invariant.{IsValid}
use lux_polaris.Timers.Canceling.{Canceled, cancel_in_loop_lem}
use lux_polaris.Timers.Expiry.{Expires, get_expired_lem}
use lux_polaris.Timers.Sets.{Key}
use lux_polaris.EventLoop.{new_loop}
use lux_polaris.EventLoop.Scheduling.{
  Timed, Restored, give_request, cancel, run_pending, schedule_then_cancel,
}
use lux_polaris.Timers.Callbacks.{Request, adds, cancels, perform}
use lux_polaris.Timers.Rounds.{FreshAll, called, Rounds, handle_read-Rounds}
use lux_polaris.Timers.Delay.{how_much_time_from_now_lem}
use lux_polaris.Connector.{Connector, new_connector, opens, connecting}
use lux_polaris.Connector.Sockets.{Accounted, Accounts, step, fails, step-Accounts}
use lux_polaris.Connector.Delay.{retries, retries_lem}

-- Timer 16 is due at 500, and is the only one.
abbrev one : Queue
one = record new_queue {
  timers = (500, 16) ∷ [];
  active = (16, 1) ∷ [];
  store =
      update (update new_queue.store 16 (some (new_timer 500 0 0))) 32 (some (new_timer 300 7 1));
}

one-IsValid : IsValid one
one-IsValid = record {
  timers_sorted = (tt, tt);
  active_sorted = (tt, tt);
  sizes = refl;
  filed = λ w a h. (new_timer 500 0 0, ground arith, (ground arith, ground arith));
  listed = λ a s h. (new_timer 500 0 0, ground arith, (ground arith, ground arith));
}

cancel_in_loop_example : Canceled (16, 1) one (cancel_in_loop (16, 1) one)
cancel_in_loop_example = cancel_in_loop_lem one-IsValid 16 1 refl

get_expired_example : Expires 600 one (get_expired 600 one)
get_expired_example = get_expired_lem 600 one-IsValid (omega arith, tt)

-- The callback of timer 16 cancels its own timer and adds another.
abbrev asked : ℕ → List Request
asked a = cancels (16, 1) ∷ adds 48 900 0 2 ∷ []

abbrev empty : Queue
empty = record one { timers = []; active = [] }

all_fresh :
    (expired : List Key) (r : Queue)
    → get_expired 600 one ≡ ok (expired, r)
    → FreshAll asked expired (called r)
unfolding get_expired cancel_in_loop
all_fresh expired r e =
    subst {A = List Key × Queue} (λ p. FreshAll asked p.0 (called p.1))
      (ok_injective {a = ((500, 16) ∷ [], empty)} e)
      ((tt, λ s f. (ap (λ x. x.store 48) (sym (ok_injective f)), λ s' f'. tt)), λ s f. tt)

handle_read-Rounds_example :
    Rounds
      (λ now n. now + n)
      600
      asked
      one
      (handle_read (λ now n. now + n) (λ a. perform (asked a)) 600 one)
handle_read-Rounds_example =
    handle_read-Rounds (λ now n. now + n) 600 asked one one-IsValid (omega arith, tt) all_fresh

how_much_time_from_now_example :
    ((how_much_time_from_now 5000000 10).1 < 1000000000)
    × (100000
        ≤ (how_much_time_from_now 5000000 10).0 * 1000000000
          + (how_much_time_from_now 5000000 10).1)
    × ((5000000 - 10) * 1000
        ≤ (how_much_time_from_now 5000000 10).0 * 1000000000
          + (how_much_time_from_now 5000000 10).1)
how_much_time_from_now_example = how_much_time_from_now_lem 5000000 10

-- A connection is awaited on descriptor 5.
abbrev awaiting : Connector
awaiting = record new_connector {
  connect = true;
  state = connecting;
  channel = some 5;
  watching = true;
  log = opens 5 ∷ [];
}

awaiting-Accounted : Accounted awaiting
awaiting-Accounted n = record { sockets = ground arith; watched = refl; channelled = λ h. refl }

step_example : Accounts (step fails awaiting)
step_example = step-Accounts fails awaiting-Accounted tt

retries_example :
    (retries (8 ∷ 7 ∷ 6 ∷ []) awaiting).retry_delay_ms
    ≡ min (500 * 2 ^ length {A = ℕ} (8 ∷ 7 ∷ 6 ∷ [])) (30 * 1000)
retries_example = retries_lem (8 ∷ 7 ∷ 6 ∷ []) awaiting refl refl

abbrev two_timers : Timed
two_timers = record { loop = new_loop; queue = one }

schedule_then_cancel_example : Restored 48 one (
    give_request false (adds 48 900 0 2) two_timers >>= λ u. cancel false (48, 3) u >>= run_pending)
schedule_then_cancel_example = schedule_then_cancel two_timers 48 2 900 0 one-IsValid refl refl
