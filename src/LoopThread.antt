-- ===== src/LoopThread.antt =====
-- LuxPolaris/src/EventLoopThread.cc: a thread that makes a loop, hands it to its owner and runs it.
-- The owner and the thread are two parties that share `loop_`; each step is what one of them does
-- under the mutex, or between two uses of it.
pub mod Handshake
pub mod Joining
use lux_polaris.Prelude.{◌≡◌, Bool, true, false, Outcome, ok, if◌then◌else◌}
use lux_polaris.EventLoop.{Loop, new_loop, enter, quit}

-- Where `threadFunc` is: before its start, before the callback, before `loop_` is set, before
-- `loop.loop()`, in it, behind it, and at its end.
pub data Place : Type 0 where
  not_started initialising set_up published looping leaving finished : Place

-- Where the owner is: before `startLoop`, in its wait, with the loop that it returned, in the join of
-- the destructor, and at the destructor's end.
pub data Owner : Type 0 where
  constructed waiting has_loop joining destructed : Owner

-- `loop_set` is `loop_ != nullptr`, `has_callback` whether `callback_` is set, and `called_back` whether
-- it has run.
pub record LoopThread (F : Type 0) : Type 0 where
  pub owner : Owner
  pub place : Place
  pub loop_set : Bool
  pub exiting : Bool
  pub has_callback : Bool
  pub called_back : Bool
  pub loop : Loop F

module _ {F : Type 0} where
  -- The constructor.
  abbrev pub make : Bool → LoopThread F
  make has_callback = record {
    owner = constructed;
    place = not_started;
    loop_set = false;
    exiting = false;
    has_callback = has_callback;
    called_back = false;
    loop = new_loop;
  }

  -- `startLoop` up to its wait, and when the wait is over.
  abbrev pub starts : LoopThread F → LoopThread F
  starts t = record t { owner = waiting; place = initialising }

  abbrev pub returns_loop : LoopThread F → LoopThread F
  returns_loop t = record t { owner = has_loop }

  -- `threadFunc`: the callback runs, if there is one; the loop is handed over; it is entered; it ends;
  -- the pointer is cleared.
  abbrev pub calls_back : LoopThread F → LoopThread F
  calls_back t =
      if t.has_callback
      then record t { place = set_up; called_back = true }
      else record t { place = set_up }

  abbrev pub publishes : LoopThread F → LoopThread F
  publishes t = record t { place = published; loop_set = true }

  abbrev pub enters : Loop F → LoopThread F → LoopThread F
  enters entered t = record t { place = looping; loop = entered }

  abbrev pub leaves_loop : LoopThread F → LoopThread F
  leaves_loop t = record t { place = leaving; loop = record t.loop { looping = false } }

  abbrev pub clears : LoopThread F → LoopThread F
  clears t = record t { place = finished; loop_set = false }

  -- The destructor, where there is a loop and where there is none.
  abbrev pub quits_to_join : LoopThread F → LoopThread F
  quits_to_join t = record t { owner = joining; exiting = true; loop = quit false t.loop }

  abbrev pub goes : LoopThread F → LoopThread F
  goes t = record t { owner = destructed; exiting = true }

  abbrev pub joins : LoopThread F → LoopThread F
  joins t = record t { owner = destructed }

  -- Whether a step is a `quit` of someone else, a callback or a thread that has the loop.
  pub data Step (t : LoopThread F) : Bool → LoopThread F → Type 0 where
    start_loop : t.place ≡ not_started → t.owner ≡ constructed → Step t false (starts t)
    loop_returned : t.owner ≡ waiting → t.loop_set ≡ true → Step t false (returns_loop t)
    call_back : t.place ≡ initialising → Step t false (calls_back t)
    publish : t.place ≡ set_up → Step t false (publishes t)
    enter_loop :
        {entered : Loop F}
        → t.place ≡ published
        → enter t.loop ≡ ok entered
        → Step t false (enters entered t)
    leave_loop : t.place ≡ looping → t.loop.quits ≡ true → Step t false (leaves_loop t)
    clear : t.place ≡ leaving → Step t false (clears t)
    destruct_loop : t.owner ≡ has_loop → t.loop_set ≡ true → Step t false (quits_to_join t)
    destruct_none : t.owner ≡ has_loop → t.loop_set ≡ false → Step t false (goes t)
    destruct_unstarted : t.owner ≡ constructed → t.loop_set ≡ false → Step t false (goes t)
    join : t.owner ≡ joining → t.place ≡ finished → Step t false (joins t)
    quit_elsewhere : t.loop_set ≡ true → Step t true (record t { loop = quit false t.loop })

  pub data Reaches (t : LoopThread F) : LoopThread F → Type 0 where
    start : Reaches t t
    more : {u w : LoopThread F} {by_other : Bool} → Reaches t u → Step u by_other w → Reaches t w

  -- Without a `quit` of someone else.
  pub data ReachesAlone (t : LoopThread F) : LoopThread F → Type 0 where
    start_alone : ReachesAlone t t
    more_alone : {u w : LoopThread F} → ReachesAlone t u → Step u false w → ReachesAlone t w
