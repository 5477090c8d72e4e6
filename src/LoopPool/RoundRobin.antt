-- ===== src/LoopPool/RoundRobin.antt =====
-- How EventLoopThreadPool spreads the connections over its loops.
use native.Mathlib.Nat.{mod-lt, mod-eq_of_lt, mod_self, mod-add-mod}
use native.Mathlib.Decide.{dec_lt}
use lux_polaris.Prelude.{
  ◌⊎◌, inl, inr, ◌==◌, if◌then◌else◌, lt→leb_false, le→leb, ℕ, zero, suc, ◌+◌, ◌%◌, ◌<◌, ◌≡◌, refl,
  sym, ap, ◌∙◌, Bool, true, false, List, [], ◌∷◌, ◌++◌, some, Outcome, ok, ◌>>=◌, arith, length,
  get_elem?, length-append, leb,
}
use lux_polaris.LoopPool.{
  Pool, get_next_loop, new_pool, set_thread_num, get_loop_for_hash, start, start_threads, at, found,
}

wrapped : (i n : ℕ) → i < n → (if leb n (suc i) then 0 else suc i) ≡ suc i % n
wrapped i n h = elim (dec_lt (suc i) n) [
  | yes inside ↦ rw (lt→leb_false n (suc i) inside) (sym (mod-eq_of_lt inside))
  | no last ↦
      rw (le→leb n (suc i) (omega arith)) (sym (ap (λ k. k % n) (omega (arith, last)) ∙ mod_self n))
]

module _ {ℓ} {L : Type ℓ} where
  -- Once started, the pool has the loops that were asked for, and `next_` is the index of one of them.
  pub record IsValid (p : Pool L) : Type 0 where
    pub has_started : p.started ≡ true
    pub all_there : length p.loops ≡ p.num_threads
    pub in_range : 0 < length p.loops → p.next < length p.loops

  -- The `n`-th call of `getNextLoop` from here on, counted from 0.
  abbrev pub turn : ℕ → Pool L → Outcome (L × Pool L)
  turn zero p = get_next_loop p
  turn (suc n) p = get_next_loop p >>= λ answer. turn n answer.1

  got_at : (xs : List L) (i : ℕ) → i < length xs → (x : L) × (get_elem? xs i ≡ some x)
  got_at [] i h = absurd (omega arith)
  got_at (x ∷ xs) zero h = (x, refl)
  got_at (x ∷ xs) (suc i) h = got_at xs i (omega arith)

  at_lem : (xs : List L) (i : ℕ) {x : L} → get_elem? xs i ≡ some x → at i xs ≡ ok x
  at_lem xs i e = ap found e

  abbrev advanced : Pool L → Pool L
  advanced p = record p { next = suc p.next % length p.loops }

  module _ {p : Pool L} (v : IsValid p) (some_loops : 0 < length p.loops) where
    next_loop_lem :
        {l : L} → get_elem? p.loops p.next ≡ some l → get_next_loop p ≡ ok (l, advanced p)
    unfolding get_next_loop
    next_loop_lem {l} e = rw v.has_started (
        rw nonempty (
          rw (at_lem p.loops p.next e)
            (rw (wrapped p.next (length p.loops) (v.in_range some_loops)) refl)))
      where
        nonempty : (length p.loops == 0) ≡ false
        nonempty = ground arith

    advanced-IsValid : IsValid (advanced p)
    advanced-IsValid = record {
      has_started = v.has_started;
      all_there = v.all_there;
      in_range = λ h. mod-lt (suc p.next) h;
    }

  TurnAt : ℕ → Pool L → Type ℓ
  TurnAt n p =
      (l : L) × (q : Pool L) × (turn n p ≡ ok (l, q))
      × IsValid q
      × (get_elem? p.loops ((p.next + n) % length p.loops) ≡ some l)

  turn_on :
      (n : ℕ) (p : Pool L) {l : L}
      → get_next_loop p ≡ ok (l, advanced p)
      → 0 < length p.loops
      → TurnAt n (advanced p)
      → TurnAt (suc n) p
  unfolding TurnAt
  turn_on n p e h (l, q, returns, v, there) = (
    l,
    q,
    ap (λ o. o >>= λ answer. turn n answer.1) e ∙ returns,
    v,
    ap (get_elem? p.loops) (
          sym (
            mod-add-mod (suc p.next) (length p.loops) n
            ∙ ap (λ k. k % length p.loops) (omega arith)))
        ∙ there,
  )

  first_turn :
      (p : Pool L) (v : IsValid p) (h : 0 < length p.loops)
      → (l : L) × (get_elem? p.loops p.next ≡ some l)
      → TurnAt 0 p
  unfolding TurnAt
  first_turn p v h (l, there) = (
    l,
    advanced p,
    next_loop_lem v h there,
    advanced-IsValid v h,
    ap (get_elem? p.loops)
          (ap (λ k. k % length p.loops) (omega arith) ∙ mod-eq_of_lt (v.in_range h))
        ∙ there,
  )

  -- The calls of `getNextLoop` on a started pool go round: the `n`-th one from here on returns the
  -- loop `n` places behind `next_`, counted modulo the number of loops, if there are any.
  pub turn_lem :
      (n : ℕ) (p : Pool L)
      → IsValid p
      → 0 < length p.loops
      → (l : L) × (q : Pool L) × (turn n p ≡ ok (l, q))
        × IsValid q
        × (get_elem? p.loops ((p.next + n) % length p.loops) ≡ some l)
  unfolding TurnAt
  turn_lem zero p v h = first_turn p v h (got_at p.loops p.next (v.in_range h))
  turn_lem (suc n) p v h =
      turn_on n p (next_loop_lem v h (got_at p.loops p.next (v.in_range h)).1) h
        (turn_lem n (advanced p) (advanced-IsValid v h) h)

  pub length-start_threads :
      (start_loop : ℕ → L) (i todo : ℕ) (loops : List L)
      → length (start_threads start_loop i todo loops) ≡ length loops + todo
  length-start_threads start_loop i zero loops = omega arith
  length-start_threads start_loop i (suc todo) loops = omega (
    arith,
    length-start_threads start_loop (suc i) todo (loops ++ start_loop i ∷ []),
    length-append loops (start_loop i ∷ []),
  )

  -- `start` of a new pool makes as many loops as were asked for, and the pool is then valid; the
  -- callback runs in the base loop only if there are none.
  pub start_lem :
      (start_loop : ℕ → L) (has_callback : Bool) (base : L) (n : ℕ)
      → (called : Bool) × (p : Pool L) × (start start_loop has_callback
            (set_thread_num n (new_pool base))
          ≡ ok (called, p))
        × IsValid p
        × (called ≡ (if n == 0 then has_callback else false))
  unfolding start
  start_lem start_loop has_callback base n = (
    _,
    _,
    refl,
    record {
      has_started = refl;
      all_there = length-start_threads start_loop 0 n [] ∙ omega arith;
      in_range = λ h. h;
    },
    refl,
  )

  -- `getLoopForHash` returns one of the pool's loops, the same one for the same hash code, or the
  -- base loop if there are none.
  pub hash_lem :
      (hash_code : ℕ) (p : Pool L)
      → ((length p.loops ≡ 0) × (get_loop_for_hash hash_code p ≡ ok p.base_loop))
        ⊎ ((l : L) × (get_elem? p.loops (hash_code % length p.loops) ≡ some l)
            × (get_loop_for_hash hash_code p ≡ ok l))
  unfolding get_loop_for_hash
  hash_lem hash_code p = elim (dec_lt 0 (length p.loops)) [
    | yes h ↦
        let (l, e) = got_at p.loops (hash_code % length p.loops) (mod-lt hash_code h) in
        inr (l, e, rw (nonempty h) (at_lem p.loops _ e))
    | no h ↦ inl (omega arith, ground arith)
  ]
    where
      nonempty : 0 < length p.loops → (length p.loops == 0) ≡ false
      nonempty h = ground arith
