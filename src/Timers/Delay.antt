-- ===== src/Timers/Delay.antt =====
-- LuxPolaris/src/TimerQueue.cc: the time that the timerfd is set to.
use lux_polaris.Prelude.{ℕ, ◌+◌, ◌-◌, ◌*◌, ◌/◌, ◌%◌, ◌≤◌, ◌<◌, arith, if◌then◌else◌, ltb}
use lux_polaris.Timers.{how_much_time_from_now}

-- A time in microseconds that is long enough.
Split : ℕ → ℕ → Type 0
Split d m =
    ((m % 1000000) * 1000 < 1000000000)
    × (100000 ≤ (m / 1000000) * 1000000000 + (m % 1000000) * 1000)
    × (d * 1000 ≤ (m / 1000000) * 1000000000 + (m % 1000000) * 1000)

long_enough : (d m : ℕ) → 100 ≤ m → d ≤ m → Split d m
unfolding Split
long_enough d m h k = (omega arith, omega arith, omega arith)

clamped : (d : ℕ) → (100 ≤ (if ltb d 100 then 100 else d)) × (d ≤ (if ltb d 100 then 100 else d))
clamped d = (ground arith, ground arith)

-- The time that the timerfd is set to is a valid one of at least 100 microseconds, so that it is
-- never disarmed, and not shorter than the time that is left until the expiration.
pub how_much_time_from_now_lem :
    (expiration now : ℕ)
    → ((how_much_time_from_now expiration now).1 < 1000000000)
      × (100000
          ≤ (how_much_time_from_now expiration now).0 * 1000000000
            + (how_much_time_from_now expiration now).1)
      × ((expiration - now) * 1000
          ≤ (how_much_time_from_now expiration now).0 * 1000000000
            + (how_much_time_from_now expiration now).1)
unfolding Split
how_much_time_from_now_lem expiration now =
    long_enough (expiration - now) _ (clamped (expiration - now)).0 (clamped (expiration - now)).1
