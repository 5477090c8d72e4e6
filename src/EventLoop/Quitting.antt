-- ===== src/EventLoop/Quitting.antt =====
-- LuxPolaris/src/EventLoop.cc: how a loop is told to end.
use lux_polaris.Prelude.{
  ℕ, ◌+◌, ◌≡◌, ◌⊎◌, inl, inr, refl, ap, ◌∙◌, Bool, true, false, [], ok, arith, if◌then◌else◌,
}
use lux_polaris.EventLoop.{Loop, enter, quit, wake_after}
use lux_polaris.EventLoop.Thread.{
  Phase, polling, stopped, calling, in_queue, Machine, Step, other_pushes, other_quits,
  other_quits_in_vain, other_wakes, poll_returns, reads_eventfd, callback_pushes, callback_quits,
  events_done, functor_pushes, queue_returns, functor_quits, functor_returns, polls_again, leaves,
  Reaches, start, more,
}

module _ {F : Type 0} where
  -- A loop that is not running forgets a `quit`: when it is entered afterwards it runs.
  pub quit_too_early :
      (in_loop : Bool) (l : Loop F)
      → l.looping ≡ false
      → (r : Loop F) × (enter (quit in_loop l) ≡ ok r) × (r.looping ≡ true) × (r.quits ≡ false)
  unfolding enter quit
  quit_too_early in_loop l h =
      (record l { looping = true; quits = false }, ground (arith, h), refl, refl)

  -- Told to quit, or over.
  abbrev pub Quitting : Machine F → Type 0
  Quitting m = (m.phase ≡ stopped) ⊎ ((m.loop.looping ≡ true) × (m.loop.quits ≡ true))

  quit-quits :
      (in_loop : Bool) (l : Loop F)
      → l.looping ≡ true
      → ((quit in_loop l).looping ≡ true) × ((quit in_loop l).quits ≡ true)
  unfolding quit
  quit-quits in_loop l h = (ground arith, ground arith)

  -- Whether the thread is in `poll`, and the calls of `poll` that have begun so far.
  abbrev pub is_polling : Phase F → Bool
  is_polling polling = true
  is_polling (in_queue p) = is_polling p
  is_polling _ = false

  abbrev pub polls : Machine F → ℕ
  polls m = m.loop.iteration + (if is_polling m.phase then 1 else 0)

  quit-iteration : (in_loop : Bool) (l : Loop F) → (quit in_loop l).iteration ≡ l.iteration
  unfolding quit
  quit-iteration in_loop l = ground arith

  wake_after-flags :
      (in_loop : Bool) (l : Loop F)
      → ((wake_after in_loop l).looping ≡ l.looping)
        × ((wake_after in_loop l).quits ≡ l.quits)
        × ((wake_after in_loop l).iteration ≡ l.iteration)
  wake_after-flags in_loop l = (ground arith, ground arith, ground arith)

  Step-Quitting : {m n : Machine F} → Quitting m → Step m n → Quitting n
  Step-Quitting (inl e) (other_pushes f) = inl e
  Step-Quitting (inl e) (other_quits l) = inl e
  Step-Quitting (inl e) (other_quits_in_vain l) = inl e
  Step-Quitting (inl e) (other_wakes w) = inl e
  Step-Quitting (inl e) (poll_returns i) = absurd (ground (arith, e, i))
  Step-Quitting (inl e) (reads_eventfd i) = inl e
  Step-Quitting (inl e) (callback_pushes f i) = absurd (ground (arith, e, i))
  Step-Quitting (inl e) (callback_quits i) = inl e
  Step-Quitting (inl e) (events_done i) = absurd (ground (arith, e, i))
  Step-Quitting (inl e) (functor_pushes f i) = absurd (ground (arith, e, i))
  Step-Quitting (inl e) (queue_returns i) = absurd (ground (arith, e, i))
  Step-Quitting (inl e) (functor_quits i) = inl e
  Step-Quitting (inl e) (functor_returns i) = absurd (ground (arith, e, i))
  Step-Quitting (inl e) (polls_again i q) = absurd (ground (arith, e, i))
  Step-Quitting (inl e) (leaves i q) = inl refl
  Step-Quitting (inr h) (other_pushes f) = inr h
  Step-Quitting {m} (inr h) (other_quits l) = inr (quit-quits true m.loop h.0)
  Step-Quitting {m} (inr h) (other_quits_in_vain l) = inr (quit-quits false m.loop h.0)
  Step-Quitting (inr h) (other_wakes w) = inr h
  Step-Quitting (inr h) (poll_returns i) = inr h
  Step-Quitting (inr h) (reads_eventfd i) = inr h
  Step-Quitting (inr h) (callback_pushes f i) = inr h
  Step-Quitting {m} (inr h) (callback_quits i) = inr (quit-quits true m.loop h.0)
  Step-Quitting (inr h) (events_done i) = inr h
  Step-Quitting (inr h) (functor_pushes f i) = inr h
  Step-Quitting {m} (inr h) (queue_returns i) =
      let (a, b, c) = wake_after-flags true m.loop in inr (a ∙ h.0, b ∙ h.1)
  Step-Quitting {m} (inr h) (functor_quits i) = inr (quit-quits true m.loop h.0)
  Step-Quitting (inr h) (functor_returns i) = inr h
  Step-Quitting (inr h) (polls_again i q) = absurd (ground (arith, h.1, q))
  Step-Quitting (inr h) (leaves i q) = inl refl

  not_again : (m : Machine F) → Quitting m → m.phase ≡ calling [] → m.loop.quits ≡ false → ⊥
  not_again m (inl e) i q = ground (arith, e, i)
  not_again m (inr h) i q = ground (arith, h.1, q)

  Step-polls : {m n : Machine F} → Quitting m → Step m n → polls n ≡ polls m
  Step-polls h (other_pushes f) = refl
  Step-polls {m} h (other_quits l) =
      ap (λ k. k + (if is_polling m.phase then 1 else 0)) (quit-iteration true m.loop)
  Step-polls {m} h (other_quits_in_vain l) =
      ap (λ k. k + (if is_polling m.phase then 1 else 0)) (quit-iteration false m.loop)
  Step-polls h (other_wakes w) = refl
  Step-polls h (poll_returns i) = rw i (omega arith)
  Step-polls h (reads_eventfd i) = refl
  Step-polls h (callback_pushes f i) = rw i refl
  Step-polls {m} h (callback_quits i) =
      ap (λ k. k + (if is_polling m.phase then 1 else 0)) (quit-iteration true m.loop)
  Step-polls h (events_done i) = rw i refl
  Step-polls h (functor_pushes f i) = rw i refl
  Step-polls {m} h (queue_returns {p} i) =
      let (a, b, c) = wake_after-flags true m.loop in
      rw i (ap (λ k. k + (if is_polling p then 1 else 0)) c)
  Step-polls {m} h (functor_quits i) =
      ap (λ k. k + (if is_polling m.phase then 1 else 0)) (quit-iteration true m.loop)
  Step-polls h (functor_returns i) = rw i refl
  Step-polls {m} h (polls_again i q) = absurd (not_again m h i q)
  Step-polls h (leaves i q) = rw i refl

  quits_lem : {m n : Machine F} → Quitting m → Reaches m n → Quitting n × (polls n ≡ polls m)
  quits_lem h start = (h, refl)
  quits_lem h (more before step) =
      let (told, same) = quits_lem h before in
      (Step-Quitting told step, Step-polls told step ∙ same)

  -- A running loop that is told to quit does not forget it and never polls again, whatever the threads
  -- do: the flag is set until it has ended, and no call of `poll` begins after the one that it is in or
  -- has made last.
  pub quit_lem :
      (in_loop : Bool) (m : Machine F)
      → m.loop.looping ≡ true
      → {n : Machine F} → Reaches (record m { loop = quit in_loop m.loop }) n
      → ((n.phase ≡ stopped) ⊎ (n.loop.quits ≡ true)) × (polls n ≡ polls m)
  quit_lem in_loop m h {n} reached =
      let (told, same) = quits_lem (inr (quit-quits in_loop m.loop h)) reached in
      (
        flag n told,
        same ∙ ap (λ k. k + (if is_polling m.phase then 1 else 0)) (quit-iteration in_loop m.loop),
      )
    where
      flag : (d : Machine F) → Quitting d → (d.phase ≡ stopped) ⊎ (d.loop.quits ≡ true)
      flag d (inl e) = inl e
      flag d (inr e) = inr e.1
