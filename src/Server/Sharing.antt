-- ===== src/Server/Sharing.antt =====
-- How a server spreads its connections: setThreadNum, start and newConnection of TCPServer.cc over
-- the pool of EventLoopThreadPool.cc.
use native.Mathlib.Nat.{mod-lt}
use lux_polaris.Prelude.{
  ℕ, zero, suc, ◌+◌, ◌%◌, ◌<◌, ◌≡◌, refl, sym, ap, ap₂, ◌∙◌, subst, Bool, true, List, [], ◌∷◌, ◌++◌,
  append-nil, append_assoc, some, none, Outcome, ok, fault, ◌>>=◌, arith, length, get_elem?,
}
use lux_polaris.LoopPool.{Pool, get_next_loop, start_threads}
use lux_polaris.LoopPool as LoopPool
use lux_polaris.LoopPool.RoundRobin.{turn, turn_lem, length-start_threads}
use lux_polaris.LoopPool.RoundRobin as RoundRobin
use lux_polaris.Server.{
  Server, Action, establishes, listens, new_server, set_thread_num, start, new_connection, pos,
}

some_injective {ℓ} : {A : Type ℓ} {a b : A} → some a ≡ some b → a ≡ b
some_injective {a = a} e = ap (λ o. elim o [ some x ↦ x | none ↦ a ]) e

module _ {L : Type 0} where
  -- So many calls of `newConnection`.
  abbrev pub accept : ℕ → Server L → Outcome (Server L)
  accept zero s = ok s
  accept (suc k) s = new_connection s >>= accept k

  -- The last of so many connections is in the loop, with the number.
  abbrev pub Puts : L → ℕ → Outcome (Server L) → Type 0
  Puts l id o =
      (r : Server L) × (o ≡ ok r) × (rest : List (Action L)) × (r.log ≡ establishes l id ∷ rest)

  abbrev behind : Server L → L → Pool L → Server L
  behind s l p = record s {
    thread_pool = p;
    next_conn_id = suc s.next_conn_id;
    connections = (s.next_conn_id, l) ∷ s.connections;
    log = establishes l s.next_conn_id ∷ s.log;
  }

  accepts_one :
      (s : Server L) (l : L) (p : Pool L)
      → get_next_loop s.thread_pool ≡ ok (l, p)
      → new_connection s ≡ ok (behind s l p)
  unfolding new_connection
  accepts_one s l p e = rw e refl

  -- The first connection goes where it goes, and the others follow.
  accept_on :
      (k : ℕ) (s : Server L) (l : L) (q : Pool L) (o : Outcome (L × Pool L))
      → get_next_loop s.thread_pool ≡ o
      → (o >>= λ answer. turn k answer.1) ≡ ok (l, q)
      → ((u : Server L)
          → turn k u.thread_pool ≡ ok (l, q)
          → Puts l (u.next_conn_id + k) (accept (suc k) u))
      → Puts l (s.next_conn_id + suc k) (accept (suc (suc k)) s)
  accept_on k s l q (ok (l', p)) e e' others =
      let (r, returns, rest, log) = others (behind s l' p) e' in
      (
        r,
        ap (λ o. o >>= accept (suc k)) (accepts_one s l' p e) ∙ returns,
        rest,
        log ∙ ap (λ n. establishes l n ∷ rest) (omega arith),
      )
  accept_on k s l q (fault f) e e' others = cc

  accept-turn :
      (k : ℕ) (s : Server L) (l : L) (q : Pool L)
      → turn k s.thread_pool ≡ ok (l, q)
      → Puts l (s.next_conn_id + k) (accept (suc k) s)
  accept-turn zero s l q e = (
    behind s l q,
    ap (λ o. o >>= accept 0) (accepts_one s l q e),
    s.log,
    ap (λ n. establishes l n ∷ s.log) (omega arith),
  )
  accept-turn (suc k) s l q e =
      accept_on k s l q (get_next_loop s.thread_pool) refl e (λ u. accept-turn k u l q)

  -- The loops that `start` makes.
  abbrev made : (ℕ → L) → ℕ → ℕ → List L
  made start_loop i zero = []
  made start_loop i (suc todo) = start_loop i ∷ made start_loop (suc i) todo

  start_threads-made :
      (start_loop : ℕ → L) (i todo : ℕ) (loops : List L)
      → start_threads start_loop i todo loops ≡ loops ++ made start_loop i todo
  start_threads-made start_loop i zero loops = sym (append-nil loops)
  start_threads-made start_loop i (suc todo) loops =
      start_threads-made start_loop (suc i) todo (loops ++ start_loop i ∷ [])
      ∙ append_assoc loops (start_loop i ∷ []) (made start_loop (suc i) todo)

  get_elem?-made :
      (start_loop : ℕ → L) (i todo j : ℕ)
      → j < todo
      → get_elem? (made start_loop i todo) j ≡ some (start_loop (i + j))
  get_elem?-made start_loop i zero j h = absurd (omega arith)
  get_elem?-made start_loop i (suc todo) zero h = ap (λ k. some (start_loop k)) (omega arith)
  get_elem?-made start_loop i (suc todo) (suc j) h =
      get_elem?-made start_loop (suc i) todo j (omega arith)
      ∙ ap (λ k. some (start_loop k)) (omega arith)

  -- A server with its threads, before the first connection.
  abbrev running : L → (ℕ → L) → ℕ → Server L
  running base start_loop n = record {
    started = true;
    thread_pool = record {
      base_loop = base;
      started = true;
      num_threads = n;
      next = 0;
      loops = start_threads start_loop 0 n [];
    };
    next_conn_id = 1;
    connections = [];
    log = listens ∷ [];
  }

  starts :
      (base : L) (start_loop : ℕ → L) (has_callback : Bool) (n : ℕ)
      → (set_thread_num (pos n) (new_server base) >>= start start_loop has_callback)
        ≡ ok (running base start_loop n)
  unfolding set_thread_num start LoopPool.start
  starts base start_loop has_callback n = refl

  running-IsValid :
      (base : L) (start_loop : ℕ → L) (n : ℕ)
      → RoundRobin.IsValid (running base start_loop n).thread_pool
  running-IsValid base start_loop n = record {
    has_started = refl;
    all_there = length-start_threads start_loop 0 n [] ∙ omega arith;
    in_range = λ h. h;
  }

  -- A server that was given `n` threads and started puts its connections into their loops in turn: the
  -- connection of number k + 1 is established in the loop of thread k modulo n.
  pub shares_lem :
      (base : L) (start_loop : ℕ → L) (has_callback : Bool) (n k : ℕ)
      → 0 < n
      → Puts (start_loop (k % n)) (suc k) (
          set_thread_num (pos n) (new_server base)
          >>= start start_loop has_callback
          >>= accept (suc k))
  shares_lem base start_loop has_callback n k h =
      let (l, q, returns, w, there) =
        turn_lem k run.thread_pool valid (omega (arith, valid.all_there)) in
      subst (Puts (start_loop (k % n)) (suc k))
        (sym (ap (λ o. o >>= accept (suc k)) (starts base start_loop has_callback n)))
        (numbered (same_loop l there) (accept-turn k run l q returns))
    where
      run : Server L
      run = running base start_loop n

      valid : RoundRobin.IsValid run.thread_pool
      valid = running-IsValid base start_loop n

      place :
          get_elem?
            (start_threads start_loop 0 n [])
            ((0 + k) % length (start_threads start_loop 0 n []))
          ≡ some (start_loop (k % n))
      place =
          ap (λ i. get_elem? (start_threads start_loop 0 n []) i)
            (ap (λ m. (0 + k) % m) valid.all_there ∙ ap (λ m. m % n) (omega arith))
          ∙ ap (λ ls. get_elem? ls (k % n)) (start_threads-made start_loop 0 n [])
          ∙ get_elem?-made start_loop 0 n (k % n) (mod-lt k h)
          ∙ ap (λ i. some (start_loop i)) (omega arith)

      same_loop :
          (l : L)
          → get_elem?
              (start_threads start_loop 0 n [])
              ((0 + k) % length (start_threads start_loop 0 n []))
            ≡ some l
          → l ≡ start_loop (k % n)
      same_loop l there = some_injective (sym there ∙ place)

      next_number : 1 + k ≡ suc k
      next_number = omega arith

      numbered :
          {l : L}
          → l ≡ start_loop (k % n)
          → Puts l (1 + k) (accept (suc k) run)
          → Puts (start_loop (k % n)) (suc k) (accept (suc k) run)
      numbered {l} same (r, e, rest, log) =
          (r, e, rest, log ∙ ap₂ (λ x m. establishes x m ∷ rest) same next_number)
