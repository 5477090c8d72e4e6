-- ===== src/LoopPool.antt =====
-- LuxPolaris/src/EventLoopThreadPool.cc: the loops that the connections of a server are given to.
-- `L` stands for EventLoop*; what EventLoopThread::startLoop returns for the i-th thread is an
-- argument.
pub mod RoundRobin
use lux_polaris.Prelude.{
  ℕ, zero, suc, ◌+◌, ◌%◌, Bool, true, false, not, List, [], ◌∷◌, ◌++◌, Option, none, some, Outcome,
  ok, fault, out_of_bounds, ◌>>=◌, ◌>>◌, assert, if◌then◌else◌, leb, ◌==◌, length, get_elem?,
}

module _ {ℓ} {L : Type ℓ} where
  abbrev pub found : Option L → Outcome L
  found none = fault out_of_bounds
  found (some loop) = ok loop

  -- `loops_[i]`
  abbrev pub at : ℕ → List L → Outcome L
  at i loops = found (get_elem? loops i)

pub record Pool {ℓ} (L : Type ℓ) : Type ℓ where
  pub base_loop : L
  pub started : Bool
  pub num_threads : ℕ
  pub next : ℕ
  pub loops : List L

module _ {ℓ} {L : Type ℓ} where
  abbrev pub new_pool : L → Pool L
  new_pool base = record {
    base_loop = base;
    started = false;
    num_threads = 0;
    next = 0;
    loops = [];
  }

  abbrev pub set_thread_num : ℕ → Pool L → Pool L
  set_thread_num n p = record p { num_threads = n }

  -- The loop of `start`: `todo` threads are left, from the `i`-th on.
  abbrev pub start_threads : (ℕ → L) → ℕ → ℕ → List L → List L
  start_threads start_loop i zero loops = loops
  start_threads start_loop i (suc todo) loops =
      start_threads start_loop (suc i) todo (loops ++ start_loop i ∷ [])

  -- `start`; the Boolean says that the callback ran in the base loop.
  unfoldable pub start : (ℕ → L) → Bool → Pool L → Outcome (Bool × Pool L)
  start start_loop has_callback p = do
    assert (not p.started)
    let loops = start_threads start_loop 0 p.num_threads p.loops
    ok (
      if p.num_threads == 0 then has_callback else false,
      record p { started = true; loops = loops },
    )

  unfoldable pub get_next_loop : Pool L → Outcome (L × Pool L)
  get_next_loop p = do
    assert p.started
    if length p.loops == 0 then ok (p.base_loop, p) else (do
      loop ← at p.next p.loops
      let next = suc p.next
      ok (loop, record p { next = if leb (length p.loops) next then 0 else next }))

  unfoldable pub get_loop_for_hash : ℕ → Pool L → Outcome L
  get_loop_for_hash hash_code p =
      if length p.loops == 0 then ok p.base_loop else at (hash_code % length p.loops) p.loops

  unfoldable pub get_all_loops : Pool L → Outcome (List L)
  get_all_loops p = do
    assert p.started
    ok (if length p.loops == 0 then p.base_loop ∷ [] else p.loops)
