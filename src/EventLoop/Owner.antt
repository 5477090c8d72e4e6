-- ===== src/EventLoop/Owner.antt =====
-- LuxPolaris/src/EventLoop.cc: the constructor and the destructor of a loop, and the thread that it
-- belongs to. `t_loopInThisThread` is a map from threads; a pointer to a loop is a number.
use lux_polaris.Prelude.{
  ℕ, ◌+◌, ◌≡◌, refl, Bool, false, List, [], ◌∷◌, Option, none, some, is_some, Outcome, ok, fault,
  fatal_log, ◌>>◌, arith, if◌then◌else◌, ◌==◌, update, Bool-cases, inl, inr, subst, holds, All, sym,
  Option-cases, update_self,
}

-- `live` are the loops that exist, each behind the `threadId_` of its thread.
pub record Threads : Type 0 where
  pub loop_in_this_thread : ℕ → Option ℕ
  pub live : List (ℕ × ℕ)

abbrev pub no_loops : Threads
no_loops = record { loop_in_this_thread = λ tid. none; live = [] }

-- `getEventLoopOfCurrentThread`
abbrev pub get_event_loop_of_current_thread : ℕ → Threads → Option ℕ
get_event_loop_of_current_thread tid t = t.loop_in_this_thread tid

-- What epoll_create1(2), timerfd_create(2) and eventfd(2) answer.
pub record Descriptors : Type 0 where
  pub epollfd : Bool
  pub timerfd : Bool
  pub eventfd : Bool

-- `createEventfd`, `createTimerfd` and the poller's constructor end the program when they fail.
abbrev pub created : Bool → Outcome (Unit {0})
created b = if b then ok tt else fault fatal_log

-- The constructor of the loop `this`, called in the thread `tid`.
unfoldable pub construct : ℕ → ℕ → Descriptors → Threads → Outcome Threads
construct tid this fds t = do
  created fds.epollfd
  created fds.timerfd
  created fds.eventfd
  if is_some (t.loop_in_this_thread tid)
      then fault fatal_log
      else ok (record {
        loop_in_this_thread = update t.loop_in_this_thread tid (some this);
        live = (tid, this) ∷ t.live;
      })

abbrev pub without : ℕ → List (ℕ × ℕ) → List (ℕ × ℕ)
without this [] = []
without this ((tid, loop) ∷ live) =
    if loop == this then without this live else (tid, loop) ∷ without this live

-- The destructor, which clears the pointer of the thread that it is called in.
unfoldable pub destruct : ℕ → ℕ → Threads → Threads
destruct tid this t = record {
  loop_in_this_thread = update t.loop_in_this_thread tid none;
  live = without this t.live;
}

-- `new` returned a pointer that no loop has.
abbrev pub IsFresh : ℕ → Threads → Type 0
IsFresh this t = (tid : ℕ) → holds (t.loop_in_this_thread tid) this ≡ false

-- A loop is destructed in its own thread.
pub data Reaches (t : Threads) : Threads → Type 0 where
  start : Reaches t t
  made :
      {u v : Threads}
      → Reaches t u
      → (tid this : ℕ) (fds : Descriptors) → IsFresh this u
      → construct tid this fds u ≡ ok v
      → Reaches t v
  gone :
      {u : Threads}
      → Reaches t u
      → (tid this : ℕ) → get_event_loop_of_current_thread tid u ≡ some this
      → Reaches t (destruct tid this u)

-- How many loops of a thread there are.
abbrev pub loops_of : ℕ → List (ℕ × ℕ) → ℕ
loops_of tid [] = 0
loops_of tid ((n, loop) ∷ live) = (if n == tid then 1 else 0) + loops_of tid live

abbrev Belongs : (ℕ → Option ℕ) → ℕ × ℕ → Type 0
Belongs slot e = slot e.0 ≡ some e.1

-- Every loop is that of its thread, no loop is that of two threads, and a thread has one loop or none.
record Owned (t : Threads) : Type 0 where
  belong : All (Belongs t.loop_in_this_thread) t.live
  apart : (m n l : ℕ) → t.loop_in_this_thread m ≡ some l → t.loop_in_this_thread n ≡ some l → m ≡ n
  count : (tid : ℕ) → loops_of tid t.live ≡ (if is_some (t.loop_in_this_thread tid) then 1 else 0)

module _ (slot : ℕ → Option ℕ) (tid this : ℕ) where
  Belongs-made :
      (live : List (ℕ × ℕ))
      → slot tid ≡ none
      → All (Belongs slot) live
      → All (Belongs (update slot tid (some this))) live
  Belongs-made [] free all = tt
  Belongs-made ((n, l) ∷ live) free (b, all) = (ground (arith, b, free), Belongs-made live free all)

  module _ (own : slot tid ≡ some this)
      (apart : (m n l : ℕ) → slot m ≡ some l → slot n ≡ some l → m ≡ n) where
    Belongs-gone :
        (live : List (ℕ × ℕ))
        → All (Belongs slot) live
        → All (Belongs (update slot tid none)) (without this live)
    Belongs-gone [] all = tt
    Belongs-gone ((n, l) ∷ live) (b, all) = elim (Bool-cases (l == this)) [
      | inl same ↦ rw same (Belongs-gone live all)
      | inr other ↦ rw other (ground (arith, b, own, other), Belongs-gone live all)
    ]

    loops_of-without :
        (m : ℕ) (live : List (ℕ × ℕ))
        → All (Belongs slot) live
        → loops_of m (without this live) ≡ (if m == tid then 0 else loops_of m live)
    loops_of-without m [] all = ground arith
    loops_of-without m ((n, l) ∷ live) (b, all) = elim (Bool-cases (l == this)) [
      | inl same ↦
          rw same (ground (arith, loops_of-without m live all, apart n tid this, b, own, same))
      | inr other ↦ rw other (ground (arith, loops_of-without m live all, b, own, other))
    ]

construct_as :
    (tid this : ℕ) (fds : Descriptors) (t u : Threads)
    → construct tid this fds t ≡ ok u
    → (t.loop_in_this_thread tid ≡ none)
      × (u ≡ record {
        loop_in_this_thread = update t.loop_in_this_thread tid (some this);
        live = (tid, this) ∷ t.live;
      })
unfolding construct
construct_as tid this fds t u e = elim (Option-cases (t.loop_in_this_thread tid)) [
  | inl free ↦ (free, ground (arith, e, free))
  | inr (l, taken) ↦ absurd (ground (arith, e, taken))
]

construct-Owned :
    (tid this : ℕ) (t : Threads)
    → t.loop_in_this_thread tid ≡ none
    → IsFresh this t
    → Owned t
    → Owned (record {
      loop_in_this_thread = update t.loop_in_this_thread tid (some this);
      live = (tid, this) ∷ t.live;
    })
construct-Owned tid this t free fresh o = record {
  belong = (
    update_self t.loop_in_this_thread tid (some this),
    Belongs-made t.loop_in_this_thread tid this t.live free o.belong,
  );
  apart = λ m n l h k. ground (arith, o.apart m n l, h, k, fresh m, fresh n);
  count = λ m. ground (arith, o.count m, free);
}

destruct-Owned :
    (tid this : ℕ) (t : Threads)
    → t.loop_in_this_thread tid ≡ some this
    → Owned t
    → Owned (destruct tid this t)
unfolding destruct
destruct-Owned tid this t own o = record {
  belong = Belongs-gone t.loop_in_this_thread tid this own o.apart t.live o.belong;
  apart = λ m n l h k. ground (arith, o.apart m n l, h, k);
  count = λ m. ground (
    arith,
    o.count m,
    loops_of-without t.loop_in_this_thread tid this own o.apart m t.live o.belong,
  );
}

Reaches-Owned : {t : Threads} → Reaches no_loops t → Owned t
Reaches-Owned start = record { belong = tt; apart = λ m n l h k. absurd (cc); count = λ tid. refl }
Reaches-Owned (made {u} {v} before tid this fds fresh e) =
    let (free, same) = construct_as tid this fds u v e in
    subst Owned (sym same) (construct-Owned tid this u free fresh (Reaches-Owned before))
Reaches-Owned (gone {u} before tid this own) = destruct-Owned tid this u own (Reaches-Owned before)

-- However loops are constructed and destructed, each in its own thread, a thread has at most one: it
-- has one exactly while `getEventLoopOfCurrentThread` returns a loop in it.
pub one_loop_per_thread :
    {t : Threads} (tid : ℕ)
    → Reaches no_loops t
    → loops_of tid t.live ≡ (if is_some (get_event_loop_of_current_thread tid t) then 1 else 0)
one_loop_per_thread tid reached = (Reaches-Owned reached).count tid
