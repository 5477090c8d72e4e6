-- ===== src/EventLoop/Thread.antt =====
-- LuxPolaris/src/EventLoop.cc: a running loop beside the other threads, as single steps. Between two
-- of them any thread may do a step of its own: `queueInLoop` is two steps, the one under the mutex and
-- the wakeup, and so is `quit` of another thread.
use lux_polaris.Prelude.{ℕ, suc, ◌-◌, ◌<◌, ◌≡◌, true, false, List, [], ◌∷◌, ◌++◌}
use lux_polaris.EventLoop.{
  Loop, push, wake_after, quit, handle_read, polled, handled, swap_pending, called,
}

-- Where the loop's thread is: at `poll`, among the active channels, in `doPendingFunctors` with the
-- functors that are still to be called, or in `queueInLoop` behind the mutex, called in one of these.
pub data Phase (F : Type 0) : Type 0 where
  polling handling stopped : Phase F
  calling : List F → Phase F
  in_queue : Phase F → Phase F

-- `waking` is the number of other threads that stand in `queueInLoop` or `quit` before `wakeup`.
-- `queued` are the functors in the order in which they were given, `ran` in the order of the calls.
pub record Machine (F : Type 0) : Type 0 where
  pub loop : Loop F
  pub phase : Phase F
  pub waking : ℕ
  pub queued : List F
  pub ran : List F

module _ {F : Type 0} where
  -- A loop that has just been entered.
  abbrev pub begins : Loop F → Machine F
  begins l = record { loop = l; phase = polling; waking = 0; queued = []; ran = [] }

  abbrev pub give : F → Machine F → Machine F
  give f m = record m { loop = push f m.loop; queued = m.queued ++ f ∷ [] }

  abbrev pub other_gives : F → Machine F → Machine F
  other_gives f m = record (give f m) { waking = suc m.waking }

  abbrev pub at_phase : Phase F → Loop F → Machine F → Machine F
  at_phase p l m = record m { phase = p; loop = l }

  pub data Step (m : Machine F) : Machine F → Type 0 where
    other_pushes : (f : F) → Step m (other_gives f m)
    other_quits :
        m.loop.looping ≡ true → Step m (record m { loop = quit true m.loop; waking = suc m.waking })
    other_quits_in_vain : m.loop.looping ≡ false → Step m (record m { loop = quit false m.loop })
    other_wakes :
        0 < m.waking → Step m (record m { loop = wake_after false m.loop; waking = m.waking - 1 })
    poll_returns : m.phase ≡ polling → Step m (at_phase handling (polled m.loop) m)
    reads_eventfd : m.phase ≡ handling → Step m (record m { loop = handle_read m.loop })
    callback_pushes :
        (f : F) → m.phase ≡ handling → Step m (record (give f m) { phase = in_queue handling })
    callback_quits : m.phase ≡ handling → Step m (record m { loop = quit true m.loop })
    events_done :
        m.phase ≡ handling
        → Step m (
            at_phase
              (calling (swap_pending (handled m.loop)).0)
              (swap_pending (handled m.loop)).1
              m)
    functor_pushes :
        {fs : List F} (f : F)
        → m.phase ≡ calling fs
        → Step m (record (give f m) { phase = in_queue (calling fs) })
    queue_returns :
        {p : Phase F} → m.phase ≡ in_queue p → Step m (at_phase p (wake_after true m.loop) m)
    functor_quits :
        {fs : List F} → m.phase ≡ calling fs → Step m (record m { loop = quit true m.loop })
    functor_returns :
        {f : F} {fs : List F}
        → m.phase ≡ calling (f ∷ fs)
        → Step m (record m { phase = calling fs; ran = m.ran ++ f ∷ [] })
    polls_again :
        m.phase ≡ calling [] → m.loop.quits ≡ false → Step m (at_phase polling (called m.loop) m)
    leaves :
        m.phase ≡ calling []
        → m.loop.quits ≡ true
        → Step m (at_phase stopped (record (called m.loop) { looping = false }) m)

  pub data Reaches (m : Machine F) : Machine F → Type 0 where
    start : Reaches m m
    more : {n o : Machine F} → Reaches m n → Step n o → Reaches m o
