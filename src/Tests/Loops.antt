-- ===== src/Tests/Loops.antt =====
-- Runs of LuxPolaris/src/EventLoop.cc and EventLoopThreadPool.cc.
use lux_polaris.Prelude.{
  ℕ, ◌+◌, ◌<◌, ◌≡◌, ◌⊎◌, refl, true, false, [], ◌∷◌, ◌++◌, none, some, is_some, ok, arith, update,
  if◌then◌else◌,
}
use lux_polaris.EventLoop.Owner as Owner
use lux_polaris.EventLoop.{new_loop, enter, quit, push, wake_after}
use lux_polaris.EventLoop.Thread.{
  Machine, Reaches, start, more, begins, other_gives, other_pushes, other_wakes, stopped,
}
use lux_polaris.EventLoop.Wakeup.{no_lost_wakeup, runs_in_order, rest}
use lux_polaris.EventLoop.Quitting.{quit_lem, polls}
use lux_polaris.LoopThread.{
  LoopThread, make, starts, publishes, returns_loop, enters, quits_to_join, published, joining,
  start_loop, calls_back, call_back, publish, loop_returned, enter_loop, ReachesAlone, start_alone,
  more_alone,
}
use lux_polaris.LoopThread as Loop_thread
use lux_polaris.LoopThread.Handshake as Handshake
use lux_polaris.LoopThread.Handshake.{handshake_lem}
use lux_polaris.LoopThread.Joining.{Returns, join-Returns, join_hangs}
use lux_polaris.LoopPool.{Pool}
use lux_polaris.LoopPool.RoundRobin.{IsValid}

-- Another thread queues two functors while the loop is about to poll, and writes to the eventfd.
abbrev queued_two : Machine ℕ
queued_two = other_gives 8 (record (other_gives 7 (begins new_loop)) {
  loop = wake_after false (push 7 new_loop);
  waking = 0;
})

two_queued : Reaches (begins new_loop) queued_two
two_queued = more (more (more start (other_pushes 7)) (other_wakes (omega arith))) (other_pushes 8)

no_lost_wakeup_example :
    (queued_two.loop.pending ≡ []) ⊎ (0 < queued_two.loop.wakeups + queued_two.waking)
no_lost_wakeup_example = no_lost_wakeup new_loop refl refl two_queued refl

runs_in_order_example :
    queued_two.queued ≡ queued_two.ran ++ (rest queued_two.phase ++ queued_two.loop.pending)
runs_in_order_example = runs_in_order new_loop refl refl two_queued

abbrev three : Pool ℕ
three = record {
  base_loop = 100;
  started = true;
  num_threads = 3;
  next = 2;
  loops = 101 ∷ 102 ∷ 103 ∷ [];
}

three-IsValid : IsValid three
three-IsValid = record { has_started = refl; all_there = refl; in_range = λ h. omega arith }

abbrev running : Machine ℕ
running = begins (record new_loop { looping = true })

abbrev told : Machine ℕ
told = record running { loop = quit false running.loop }

told_then_queued : Reaches told (other_gives 7 told)
told_then_queued = more start (other_pushes 7)

quit_example :
    (((other_gives 7 told).phase ≡ stopped) ⊎ ((other_gives 7 told).loop.quits ≡ true))
    × (polls (other_gives 7 told) ≡ polls running)
quit_example = quit_lem false running refl told_then_queued

-- The thread has handed over its loop, and the owner has it.
abbrev handed_over : LoopThread ℕ
handed_over = returns_loop (publishes (calls_back (starts (make true))))

is_handed_over : Loop_thread.Reaches (make true) handed_over
is_handed_over =
    Loop_thread.more
      (Loop_thread.more
        (Loop_thread.more (Loop_thread.more Loop_thread.start (start_loop refl refl))
          (call_back refl))
        (publish refl))
      (loop_returned refl refl)

handshake_example :
    Handshake.IsValid handed_over
    × (handed_over.place ≡ published
        → enter handed_over.loop ≡ ok (record handed_over.loop { looping = true; quits = false }))
handshake_example = handshake_lem true handed_over is_handed_over

abbrev in_loop : LoopThread ℕ
in_loop = enters (record new_loop { looping = true }) handed_over

in_loop-IsValid : Handshake.IsValid in_loop
in_loop-IsValid = record {
  set_while_there = refl;
  has_been_set_up = λ h. refl;
  callback_ran = λ h. refl;
  callback_runs = λ h. absurd (ground (arith, h));
  callback_once = λ h. absurd (ground (arith, h));
  not_before_start = λ h. absurd (ground (arith, h));
  none_called = λ h. absurd (ground (arith, h));
  runs_in_loop = λ h. refl;
  in_loop_runs = λ h. refl;
}

join-Returns_example : Returns (quits_to_join in_loop)
join-Returns_example =
    join-Returns in_loop in_loop-IsValid refl (quits_to_join in_loop) Loop_thread.start

-- The thread enters its loop behind the destructor's `quit`.
abbrev entered_late : LoopThread ℕ
entered_late = enters (record new_loop { looping = true }) (quits_to_join handed_over)

enters_late : ReachesAlone (quits_to_join handed_over) entered_late
unfolding quit enter
enters_late = more_alone start_alone (enter_loop refl refl)

join_hangs_example : entered_late.owner ≡ joining
join_hangs_example = join_hangs handed_over handshake_example.0 refl entered_late enters_late

abbrev works : Owner.Descriptors
works = record { epollfd = true; timerfd = true; eventfd = true }

abbrev one_thread : Owner.Threads
one_thread = record { loop_in_this_thread = update (λ tid. none) 1 (some 7); live = (1, 7) ∷ [] }

eight-IsFresh : Owner.IsFresh 8 one_thread
eight-IsFresh tid = ground arith

-- Two threads make a loop each, and the first destructs its own.
abbrev two_threads : (t : Owner.Threads) × Owner.Reaches Owner.no_loops t
unfolding Owner.construct
two_threads = (
  _,
  Owner.gone
      (Owner.made (Owner.made Owner.start 1 7 works (λ tid. refl) refl) 2 8 works eight-IsFresh
        refl)
      1 7 refl,
)

one_loop_example :
    Owner.loops_of 2 two_threads.0.live
    ≡ (if is_some (Owner.get_event_loop_of_current_thread 2 two_threads.0) then 1 else 0)
one_loop_example = Owner.one_loop_per_thread 2 two_threads.1
