-- ===== src/LoopThread/Joining.antt =====
-- LuxPolaris/src/EventLoopThread.cc: the join in the destructor, which comes back if the loop was
-- running when it was told to quit, and does not if it was about to run.
use lux_polaris.Prelude.{◌≡◌, refl, Bool, true, false, not, ◌&&◌, ◌||◌, arith}
use lux_polaris.EventLoop.{enter, quit}
use lux_polaris.LoopThread.{
  LoopThread, Place, not_started, initialising, set_up, published, looping, leaving, finished,
  Owner, constructed, waiting, has_loop, joining, destructed, Step, Reaches, start, more,
  ReachesAlone, start_alone, more_alone, start_loop, loop_returned, call_back, publish, enter_loop,
  leave_loop, clear, destruct_loop, destruct_none, destruct_unstarted, join, quit_elsewhere,
  quits_to_join, leaves_loop, clears, joins,
}
use lux_polaris.LoopThread.Handshake.{IsValid}

abbrev is_published : Place → Bool
is_published published = true
is_published _ = false

abbrev is_looping : Place → Bool
is_looping looping = true
is_looping _ = false

-- The loop has ended.
abbrev is_past : Place → Bool
is_past leaving = true
is_past finished = true
is_past _ = false

abbrev is_joining : Owner → Bool
is_joining joining = true
is_joining _ = false

abbrev is_destructed : Owner → Bool
is_destructed destructed = true
is_destructed _ = false

module _ {F : Type 0} where
  -- The destructor joins, or has joined, a thread whose loop was running when it was told to quit.
  abbrev ends : LoopThread F → Bool
  ends t =
      (is_joining t.owner
        && ((is_looping t.place && t.loop.looping && t.loop.quits) || is_past t.place))
      || is_destructed t.owner

  -- It joins a thread whose loop forgot that it was told.
  abbrev hangs : LoopThread F → Bool
  hangs t =
      is_joining t.owner
      && ((is_published t.place && not t.loop.looping) || (is_looping t.place && not t.loop.quits))

  Step-ends : {t u : LoopThread F} {b : Bool} → ends t ≡ true → Step t b u → ends u ≡ true
  unfolding quit enter
  Step-ends h (start_loop p o) = ground arith
  Step-ends h (loop_returned o s) = ground arith
  Step-ends h (call_back p) = ground arith
  Step-ends h (publish p) = ground arith
  Step-ends h (enter_loop p e) = ground arith
  Step-ends h (leave_loop p q) = ground arith
  Step-ends h (clear p) = ground arith
  Step-ends h (destruct_loop o s) = ground arith
  Step-ends h (destruct_none o s) = ground arith
  Step-ends h (destruct_unstarted o s) = ground arith
  Step-ends h (join o p) = ground arith
  Step-ends h (quit_elsewhere s) = ground arith

  Step-hangs : {t u : LoopThread F} → hangs t ≡ true → Step t false u → hangs u ≡ true
  unfolding quit enter
  Step-hangs h (start_loop p o) = ground arith
  Step-hangs h (loop_returned o s) = ground arith
  Step-hangs h (call_back p) = ground arith
  Step-hangs h (publish p) = ground arith
  Step-hangs h (enter_loop p e) = ground arith
  Step-hangs h (leave_loop p q) = ground arith
  Step-hangs h (clear p) = ground arith
  Step-hangs h (destruct_loop o s) = ground arith
  Step-hangs h (destruct_none o s) = ground arith
  Step-hangs h (destruct_unstarted o s) = ground arith
  Step-hangs h (join o p) = ground arith

  later_ends : {t u : LoopThread F} → ends t ≡ true → Reaches t u → ends u ≡ true
  later_ends h start = h
  later_ends h (more before step) = Step-ends (later_ends h before) step

  later_hangs : {t u : LoopThread F} → hangs t ≡ true → ReachesAlone t u → hangs u ≡ true
  later_hangs h start_alone = h
  later_hangs h (more_alone before step) = Step-hangs (later_hangs h before) step

  -- The join comes back by steps of the owner and the thread.
  abbrev pub Returns : LoopThread F → Type 0
  Returns t = (w : LoopThread F) × ReachesAlone t w × (w.owner ≡ destructed)

  ends-Returns :
      (t : LoopThread F) (o : Owner) (p : Place)
      → t.owner ≡ o
      → t.place ≡ p
      → ends t ≡ true
      → Returns t
  ends-Returns t destructed p e f h = (t, start_alone, e)
  ends-Returns t joining looping e f h = (
    joins (clears (leaves_loop t)),
    more_alone
        (more_alone (more_alone start_alone (leave_loop f (ground (arith, h, e, f)))) (clear refl))
        (join e refl),
    refl,
  )
  ends-Returns t joining leaving e f h =
      (joins (clears t), more_alone (more_alone start_alone (clear f)) (join e refl), refl)
  ends-Returns t joining finished e f h = (joins t, more_alone start_alone (join e f), refl)
  ends-Returns t joining not_started e f h = absurd (ground (arith, h, e, f))
  ends-Returns t joining initialising e f h = absurd (ground (arith, h, e, f))
  ends-Returns t joining set_up e f h = absurd (ground (arith, h, e, f))
  ends-Returns t joining published e f h = absurd (ground (arith, h, e, f))
  ends-Returns t constructed p e f h = absurd (ground (arith, h, e))
  ends-Returns t waiting p e f h = absurd (ground (arith, h, e))
  ends-Returns t has_loop p e f h = absurd (ground (arith, h, e))

  told-ends : (t : LoopThread F) → IsValid t → t.place ≡ looping → ends (quits_to_join t) ≡ true
  unfolding quit
  told-ends t v p = ground (arith, v.in_loop_runs p)

  -- A destructor that finds the loop running joins a thread that ends: whatever the owner, the thread
  -- and others do after `quit`, the join can still come back, by steps of the owner and the thread
  -- alone.
  pub join-Returns :
      (t : LoopThread F)
      → IsValid t
      → t.place ≡ looping
      → (u : LoopThread F) → Reaches (quits_to_join t) u
      → Returns u
  join-Returns t v p u reached =
      ends-Returns u u.owner u.place refl refl (later_ends (told-ends t v p) reached)

  told-hangs : (t : LoopThread F) → IsValid t → t.place ≡ published → hangs (quits_to_join t) ≡ true
  unfolding quit
  told-hangs t v p = ground (arith, v.runs_in_loop, p)

  still_joining : (u : LoopThread F) → hangs u ≡ true → u.owner ≡ joining
  still_joining u h = ground (arith, h)

  -- A destructor that comes between the hand-over of the loop and its `loop()` joins for ever, if
  -- nobody else tells the loop to quit: the loop forgets what it was told.
  pub join_hangs :
      (t : LoopThread F)
      → IsValid t
      → t.place ≡ published
      → (u : LoopThread F) → ReachesAlone (quits_to_join t) u
      → u.owner ≡ joining
  join_hangs t v p u reached = still_joining u (later_hangs (told-hangs t v p) reached)
