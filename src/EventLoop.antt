-- ===== src/EventLoop.antt =====
-- LuxPolaris/src/EventLoop.cc: the loop's flags, the functors that other threads give it, and the
-- eventfd that wakes it. `F` stands for Functor; what a functor does to the loop is an argument.
pub mod Thread
pub mod Wakeup
pub mod Quitting
pub mod Removing
pub mod Updating
pub mod Retiring
pub mod Owner
pub mod Scheduling
use lux_polaris.Prelude.{
  ℕ, suc, ◌+◌, Bool, true, false, not, ◌||◌, List, [], ◌∷◌, ◌++◌, Outcome, ok, ◌>>=◌, ◌>>◌, assert,
  if◌then◌else◌,
}

-- `wakeups` is the counter of the eventfd `wakeupFd_`.
pub record Loop (F : Type 0) : Type 0 where
  pub looping : Bool
  pub quits : Bool
  pub event_handling : Bool
  pub calling_pending_functors : Bool
  pub iteration : ℕ
  pub pending : List F
  pub wakeups : ℕ

module _ {F : Type 0} where
  abbrev pub new_loop : Loop F
  new_loop = record {
    looping = false;
    quits = false;
    event_handling = false;
    calling_pending_functors = false;
    iteration = 0;
    pending = [];
    wakeups = 0;
  }

  abbrev pub wakeup : Loop F → Loop F
  wakeup l = record l { wakeups = suc l.wakeups }

  -- The read callback of the eventfd's channel: a read(2) takes the whole count.
  abbrev pub handle_read : Loop F → Loop F
  handle_read l = record l { wakeups = 0 }

  -- The part of `queueInLoop` under the mutex.
  abbrev pub push : F → Loop F → Loop F
  push cb l = record l { pending = l.pending ++ cb ∷ [] }

  -- The part of `queueInLoop` behind it; `in_loop` is `isInLoopThread()`.
  abbrev pub wake_after : Bool → Loop F → Loop F
  wake_after in_loop l = if not in_loop || l.calling_pending_functors then wakeup l else l

  -- The whole of `queueInLoop`, where nobody comes between.
  unfoldable pub queue_in_loop : Bool → F → Loop F → Loop F
  queue_in_loop in_loop cb l = wake_after in_loop (push cb l)

  unfoldable pub run_in_loop : (F → Loop F → Loop F) → Bool → F → Loop F → Loop F
  unfolding queue_in_loop
  run_in_loop run in_loop cb l = if in_loop then run cb l else queue_in_loop in_loop cb l

  unfoldable pub quit : Bool → Loop F → Loop F
  quit in_loop l =
      if not l.looping
      then record l { quits = false }
      else (let quitting : Loop F = record l { quits = true } in
          if not in_loop then wakeup quitting else quitting)

  -- `loop`, up to its while.
  unfoldable pub enter : Loop F → Outcome (Loop F)
  enter l = do assert (not l.looping); ok (record l { looping = true; quits = false })

  -- poll(2) has returned.
  abbrev pub polled : Loop F → Loop F
  polled l = record l { iteration = suc l.iteration; event_handling = true }

  abbrev pub handled : Loop F → Loop F
  handled l = record l { event_handling = false }

  -- `doPendingFunctors` up to the swap: the functors that it is going to call, and the loop.
  abbrev pub swap_pending : Loop F → List F × Loop F
  swap_pending l = (l.pending, record l { calling_pending_functors = true; pending = [] })

  abbrev pub called : Loop F → Loop F
  called l = record l { calling_pending_functors = false }

  -- The for loop of `doPendingFunctors`.
  abbrev pub call_all : (F → Loop F → Loop F) → List F → Loop F → Loop F
  call_all run [] l = l
  call_all run (f ∷ fs) l = call_all run fs (run f l)

  unfoldable pub do_pending_functors : (F → Loop F → Loop F) → Loop F → Loop F
  do_pending_functors run l =
      let (functors, swapped) = swap_pending l in called (call_all run functors swapped)
