-- ===== src/LoopThread/Handshake.antt =====
-- LuxPolaris/src/EventLoopThread.cc: `startLoop` returns a loop that is there and has been set up.
use lux_polaris.Prelude.{◌≡◌, refl, Bool, true, false, ok, arith}
use lux_polaris.EventLoop.{enter, quit}
use lux_polaris.LoopThread.{
  LoopThread, Place, not_started, initialising, set_up, published, looping, leaving, Owner,
  constructed, has_loop, joining, make, Step, Reaches, start, more, start_loop, loop_returned,
  call_back, publish, enter_loop, leave_loop, clear, destruct_loop, destruct_none,
  destruct_unstarted, join, quit_elsewhere,
}

-- The loop is published and not yet gone.
abbrev pub is_there : Place → Bool
is_there published = true
is_there looping = true
is_there leaving = true
is_there _ = false

-- The thread has handed over its loop.
abbrev pub is_up : Place → Bool
is_up not_started = false
is_up initialising = false
is_up set_up = false
is_up _ = true

abbrev pub is_started : Place → Bool
is_started not_started = false
is_started _ = true

abbrev pub needs_loop : Owner → Bool
needs_loop has_loop = true
needs_loop joining = true
needs_loop _ = false

abbrev pub is_constructed : Owner → Bool
is_constructed constructed = true
is_constructed _ = false

module _ {F : Type 0} where
  -- `loop_` is set exactly while the loop is there; whoever has a loop has one that was handed over,
  -- and that came behind the callback; a thread runs only behind `startLoop`; and the loop runs exactly while the thread is in `loop()`.
  pub record IsValid (t : LoopThread F) : Type 0 where
    pub set_while_there : t.loop_set ≡ is_there t.place
    pub has_been_set_up : needs_loop t.owner ≡ true → is_up t.place ≡ true
    pub callback_ran : is_up t.place ≡ true → t.called_back ≡ t.has_callback
    pub callback_runs : t.place ≡ set_up → t.called_back ≡ t.has_callback
    pub callback_once : t.place ≡ initialising → t.called_back ≡ false
    pub not_before_start : t.owner ≡ constructed → t.place ≡ not_started
    pub none_called : t.place ≡ not_started → t.called_back ≡ false
    pub runs_in_loop : t.loop.looping ≡ true → t.place ≡ looping
    pub in_loop_runs : t.place ≡ looping → t.loop.looping ≡ true

  Step-IsValid : {t u : LoopThread F} {b : Bool} → IsValid t → Step t b u → IsValid u
  unfolding quit enter
  Step-IsValid v (start_loop p o) = ground (arith, v)
  Step-IsValid v (loop_returned o s) = ground (arith, v)
  Step-IsValid v (call_back p) = ground (arith, v)
  Step-IsValid v (publish p) = ground (arith, v)
  Step-IsValid v (enter_loop p e) = ground (arith, v)
  Step-IsValid v (leave_loop p q) = ground (arith, v)
  Step-IsValid v (clear p) = ground (arith, v)
  Step-IsValid v (destruct_loop o s) = ground (arith, v)
  Step-IsValid v (destruct_none o s) = ground (arith, v)
  Step-IsValid v (destruct_unstarted o s) = ground (arith, v)
  Step-IsValid v (join o p) = ground (arith, v)
  Step-IsValid v (quit_elsewhere s) = ground (arith, v)

  make-IsValid : (has_callback : Bool) → IsValid (make has_callback)
  make-IsValid has_callback = record {
    set_while_there = refl;
    has_been_set_up = λ h. ground (arith, h);
    callback_ran = λ h. ground (arith, h);
    callback_runs = λ h. ground (arith, h);
    callback_once = λ h. refl;
    not_before_start = λ h. refl;
    none_called = λ h. refl;
    runs_in_loop = λ h. ground (arith, h);
    in_loop_runs = λ h. ground (arith, h);
  }

  valid_lem : {t u : LoopThread F} → IsValid t → Reaches t u → IsValid u
  valid_lem v start = v
  valid_lem v (more before step) = Step-IsValid (valid_lem v before) step

  can_enter :
      (t : LoopThread F)
      → IsValid t
      → t.place ≡ published
      → enter t.loop ≡ ok (record t.loop { looping = true; quits = false })
  unfolding enter
  can_enter t v p = ground (arith, v)

  -- In every interleaving of owner, thread and others, `loop_` is set exactly while the loop is there;
  -- `startLoop` has returned, and the destructor has a loop to tell, only when the callback, if there is
  -- one, has run and then the loop was handed over; the loop runs exactly while the thread is in
  -- `loop()`; and the assertion that it is not running yet holds when the thread enters it.
  pub handshake_lem :
      (has_callback : Bool) (t : LoopThread F)
      → Reaches (make has_callback) t
      → IsValid t
        × (t.place ≡ published
            → enter t.loop ≡ ok (record t.loop { looping = true; quits = false }))
  handshake_lem has_callback t reached =
      let v = valid_lem (make-IsValid has_callback) reached in (v, can_enter t v)
