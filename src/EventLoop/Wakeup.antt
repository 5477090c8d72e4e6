-- ===== src/EventLoop/Wakeup.antt =====
-- No functor that is given to a running loop is lost, forgotten or called out of turn.
use lux_polaris.Prelude.{
  ℕ, suc, ◌+◌, ◌-◌, subst, ◌<◌, ◌≡◌, refl, sym, ap, ◌∙◌, ◌⊎◌, inl, inr, Bool, true, false, List, [],
  ◌∷◌, ◌++◌, arith, append_assoc, append-nil,
}
use lux_polaris.EventLoop.{Loop, handle_read, push, wake_after, quit}
use lux_polaris.EventLoop.Thread.{
  Phase, polling, handling, stopped, calling, in_queue, Machine, begins, Step, other_pushes,
  other_quits, other_quits_in_vain, other_wakes, poll_returns, reads_eventfd, callback_pushes,
  callback_quits, events_done, functor_pushes, queue_returns, functor_quits, functor_returns,
  polls_again, leaves, Reaches, start, more,
}

module _ {F : Type 0} where
  abbrev pub rest : Phase F → List F
  rest (calling fs) = fs
  rest (in_queue p) = rest p
  rest _ = []

  -- If functors wait, the eventfd is up, or one of `waking` threads is about to write to it.
  abbrev Woken : ℕ → Loop F → Type 0
  Woken waking l = (l.pending ≡ []) ⊎ (0 < l.wakeups + waking)

  -- Functors that wait keep the loop from sleeping in `poll`, from the swap on; while it handles
  -- events it will come to them by itself.
  abbrev Awake : ℕ → Phase F → Loop F → Type 0
  Awake n polling l = Woken n l × (l.calling_pending_functors ≡ false)
  Awake n handling l = l.calling_pending_functors ≡ false
  Awake n (calling fs) l = Woken n l × (l.calling_pending_functors ≡ true)
  Awake n (in_queue handling) l = l.calling_pending_functors ≡ false
  Awake n (in_queue (calling fs)) l = l.calling_pending_functors ≡ true
  Awake n (in_queue _) l = ⊥
  Awake n stopped l = Unit {0}

  record IsValid (m : Machine F) : Type 0 where
    awake : Awake m.waking m.phase m.loop
    in_order : m.queued ≡ m.ran ++ (rest m.phase ++ m.loop.pending)

  -- What another thread does leaves the loop awake, if it leaves it woken.
  others-Awake :
      (n k : ℕ) (p : Phase F) (l r : Loop F)
      → (Woken n l → Woken k r)
      → r.calling_pending_functors ≡ l.calling_pending_functors
      → Awake n p l
      → Awake k p r
  others-Awake n k polling l r w e (a, c) = (w a, e ∙ c)
  others-Awake n k handling l r w e c = e ∙ c
  others-Awake n k (calling fs) l r w e (a, c) = (w a, e ∙ c)
  others-Awake n k (in_queue handling) l r w e c = e ∙ c
  others-Awake n k (in_queue (calling fs)) l r w e c = e ∙ c
  others-Awake n k (in_queue polling) l r w e c = absurd c
  others-Awake n k (in_queue stopped) l r w e c = absurd c
  others-Awake n k (in_queue (in_queue p)) l r w e c = absurd c
  others-Awake n k stopped l r w e c = tt

  wake-Awake :
      (n : ℕ) (p : Phase F) (l : Loop F) → Awake n (in_queue p) l → Awake n p (wake_after true l)
  wake-Awake n handling l c = ground (arith, c)
  wake-Awake n (calling fs) l c = (inr (ground (arith, c)), ground (arith, c))
  wake-Awake n polling l c = absurd c
  wake-Awake n stopped l c = absurd c
  wake-Awake n (in_queue p) l c = absurd c

  quit-pending : (in_loop : Bool) (l : Loop F) → (quit in_loop l).pending ≡ l.pending
  unfolding quit
  quit-pending in_loop l = ground arith

  quit-Woken :
      (in_loop : Bool) (n k : ℕ) (l : Loop F)
      → n ≡ k ⊎ suc n ≡ k
      → Woken n l
      → Woken k (quit in_loop l)
  unfolding quit
  quit-Woken in_loop n k l s (inl e) = inl (ground (arith, e))
  quit-Woken in_loop n k l (inl s) (inr w) = inr (ground (arith, w, s))
  quit-Woken in_loop n k l (inr s) (inr w) = inr (ground (arith, w, s))

  quit-calling :
      (in_loop : Bool) (l : Loop F)
      → (quit in_loop l).calling_pending_functors ≡ l.calling_pending_functors
  unfolding quit
  quit-calling in_loop l = ground arith

  quit-IsValid :
      {m : Machine F} (in_loop : Bool) (k : ℕ)
      → m.waking ≡ k ⊎ suc m.waking ≡ k
      → IsValid m
      → IsValid (record m { loop = quit in_loop m.loop; waking = k })
  quit-IsValid {m} in_loop k s v = record {
    awake =
        others-Awake m.waking k m.phase m.loop (quit in_loop m.loop)
          (quit-Woken in_loop m.waking k m.loop s) (quit-calling in_loop m.loop) v.awake;
    in_order =
        v.in_order ∙ ap (λ q. m.ran ++ (rest m.phase ++ q)) (sym (quit-pending in_loop m.loop));
  }

  push-in_order :
      (m : Machine F) (f : F)
      → m.queued ≡ m.ran ++ (rest m.phase ++ m.loop.pending)
      → m.queued ++ f ∷ [] ≡ m.ran ++ (rest m.phase ++ (push f m.loop).pending)
  push-in_order m f e =
      ap (λ q. q ++ f ∷ []) e
      ∙ append_assoc m.ran (rest m.phase ++ m.loop.pending) (f ∷ [])
      ∙ ap (λ q. m.ran ++ q) (append_assoc (rest m.phase) m.loop.pending (f ∷ []))

  wake-pending : (in_loop : Bool) (l : Loop F) → (wake_after in_loop l).pending ≡ l.pending
  wake-pending in_loop l = ground arith

  -- In a known phase.
  module _ {m : Machine F} (v : IsValid m) {p : Phase F} (e : m.phase ≡ p) where
    awake_in : Awake m.waking p m.loop
    awake_in = subst (λ q. Awake m.waking q m.loop) e v.awake

    order_in : m.queued ≡ m.ran ++ (rest p ++ m.loop.pending)
    order_in = subst (λ q. m.queued ≡ m.ran ++ (rest q ++ m.loop.pending)) e v.in_order

    pushed_in : (f : F) → m.queued ++ f ∷ [] ≡ m.ran ++ (rest p ++ (push f m.loop).pending)
    pushed_in f = push-in_order (record m { phase = p }) f order_in

  Step-IsValid : {m n : Machine F} → IsValid m → Step m n → IsValid n
  Step-IsValid {m} v (other_pushes f) = record {
    awake =
        others-Awake m.waking (suc m.waking) m.phase m.loop (push f m.loop) (λ w. inr (omega arith))
          refl v.awake;
    in_order = push-in_order m f v.in_order;
  }
  Step-IsValid {m} v (other_quits h) = quit-IsValid true (suc m.waking) (inr refl) v
  Step-IsValid {m} v (other_quits_in_vain h) = quit-IsValid false m.waking (inl refl) v
  Step-IsValid {m} v (other_wakes h) = record {
    awake =
        others-Awake m.waking (m.waking - 1) m.phase m.loop (wake_after false m.loop)
          (λ w. inr (omega arith)) refl v.awake;
    in_order = v.in_order;
  }
  Step-IsValid v (poll_returns e) = record { awake = (awake_in v e).1; in_order = order_in v e }
  Step-IsValid {m} v (reads_eventfd e) = record {
    awake = subst (λ q. Awake m.waking q (handle_read m.loop)) (sym e) (awake_in v e);
    in_order = v.in_order;
  }
  Step-IsValid v (callback_pushes f e) = record { awake = awake_in v e; in_order = pushed_in v e f }
  Step-IsValid {m} v (callback_quits e) = quit-IsValid true m.waking (inl refl) v
  Step-IsValid {m} v (events_done e) = record {
    awake = (inl refl, refl);
    in_order = order_in v e ∙ ap (λ q. m.ran ++ q) (sym (append-nil m.loop.pending));
  }
  Step-IsValid v (functor_pushes f e) = record {
    awake = (awake_in v e).1;
    in_order = pushed_in v e f;
  }
  Step-IsValid {m} v (queue_returns {p} e) = record {
    awake = wake-Awake m.waking p m.loop (awake_in v e);
    in_order = order_in v e ∙ ap (λ q. m.ran ++ (rest p ++ q)) (sym (wake-pending true m.loop));
  }
  Step-IsValid {m} v (functor_quits e) = quit-IsValid true m.waking (inl refl) v
  Step-IsValid {m} v (functor_returns {f} {fs} e) = record {
    awake = awake_in v e;
    in_order = order_in v e ∙ sym (append_assoc m.ran (f ∷ []) (fs ++ m.loop.pending));
  }
  Step-IsValid v (polls_again e q) = record {
    awake = ((awake_in v e).0, refl);
    in_order = order_in v e;
  }
  Step-IsValid v (leaves e q) = record { awake = tt; in_order = order_in v e }

  Reaches-IsValid : {m n : Machine F} → IsValid m → Reaches m n → IsValid n
  Reaches-IsValid v start = v
  Reaches-IsValid v (more before step) = Step-IsValid (Reaches-IsValid v before) step

  begins-IsValid :
      (l : Loop F) → l.pending ≡ [] → l.calling_pending_functors ≡ false → IsValid (begins l)
  begins-IsValid l none_yet c = record { awake = (inl none_yet, c); in_order = sym none_yet }

  -- In a loop that was entered with no functor queued, whatever the threads do: whenever its thread
  -- is about to sleep in poll(2) while functors wait, the eventfd is readable, so that poll returns
  -- at once, or another thread has come past the mutex of `queueInLoop`, or past the flag in `quit`,
  -- and is about to write to the eventfd.
  pub no_lost_wakeup :
      (l : Loop F)
      → l.pending ≡ []
      → l.calling_pending_functors ≡ false
      → {m : Machine F} → Reaches (begins l) m
      → m.phase ≡ polling
      → (m.loop.pending ≡ []) ⊎ (0 < m.loop.wakeups + m.waking)
  no_lost_wakeup l none_yet c reached e =
      (awake_in (Reaches-IsValid (begins-IsValid l none_yet c) reached) e).0

  -- In such a loop the functors run once each, in the order in which they were queued: those that ran,
  -- those that the current call of `doPendingFunctors` has taken, and those that wait make up the
  -- sequence of all that were ever queued.
  pub runs_in_order :
      (l : Loop F)
      → l.pending ≡ []
      → l.calling_pending_functors ≡ false
      → {m : Machine F} → Reaches (begins l) m
      → m.queued ≡ m.ran ++ (rest m.phase ++ m.loop.pending)
  runs_in_order l none_yet c reached =
      (Reaches-IsValid (begins-IsValid l none_yet c) reached).in_order
