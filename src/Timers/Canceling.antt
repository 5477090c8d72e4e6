-- ===== src/Timers/Canceling.antt =====
-- LuxPolaris/src/TimerQueue.cc: the cancellation of a timer.
use lux_polaris.Prelude.{
  subst, ℕ, ◌≡◌, refl, sym, ap, ◌∙◌, Bool, true, false, not, ◌&&◌, List, Option, some, Outcome, ok,
  ◌==◌, arith, length, Bool-cases, inl, inr,
}
use lux_polaris.Timers.{Timer, Queue, cancel_active, cancel_in_loop, delete}
use lux_polaris.Timers.Sets.{Key, erase_from, contains}
use lux_polaris.Timers.Order.{same, Erases, erase_from_lem}
use lux_polaris.Timers.Invariant.{Alive, IsValid, same_pair, both}

abbrev pub Drops : Key → List Key → List Key → Type 0
Drops k ks r = (j : Key) → contains j r ≡ (not (same j k) && contains j ks)

both-left : (b c : Bool) → (not b && c) ≡ true → (b ≡ false) × (c ≡ true)
both-left b c h = (ground arith, ground arith)

neither : (b c : Bool) → b ≡ false → c ≡ true → (not b && c) ≡ true
neither b c h k = ground arith

same_timer :
    (store : ℕ → Option Timer) {a b : ℕ} {t u : Timer}
    → store a ≡ some t
    → store b ≡ some u
    → (b == a) ≡ true
    → u ≡ t
same_timer store {a} {b} {t} {u} e e' h = some_injective (sym e' ∙ ap store place ∙ e)
  where
    place : b ≡ a
    place = ground arith

    some_injective : some u ≡ some t → u ≡ t
    some_injective p = ground arith

module _ {q : Queue} (v : IsValid q) {a : ℕ} {t : Timer} (alive : q.store a ≡ some t)
    (timers active : List Key) (ms : Drops (t.expiration, a) q.timers timers)
    (ma : Drops (a, t.sequence) q.active active) where
  abbrev dropped : Queue
  dropped = delete a (both q timers active)

  -- What is still filed stands at another address.
  elsewhere_timer :
      (w b : ℕ) {u : Timer}
      → same (w, b) (t.expiration, a) ≡ false
      → q.store b ≡ some u
      → u.expiration ≡ w
      → (b == a) ≡ false
  elsewhere_timer w b {u} other e e' = elim (Bool-cases (b == a)) [
    | inl here ↦ ground (
      arith,
      same_pair {a = w} {b = b} {c = t.expiration} {d = a}
          (sym e' ∙ ap (λ x. x.expiration) (same_timer q.store alive e here)) (ground arith),
    )
    | inr there ↦ there
  ]

  elsewhere_active :
      (b s : ℕ) {u : Timer}
      → same (b, s) (a, t.sequence) ≡ false
      → q.store b ≡ some u
      → u.sequence ≡ s
      → (b == a) ≡ false
  elsewhere_active b s {u} other e e' = elim (Bool-cases (b == a)) [
    | inl here ↦ ground (
      arith,
      same_pair {a = b} {b = s} {c = a} {d = t.sequence} (ground arith)
          (sym e' ∙ ap (λ x. x.sequence) (same_timer q.store alive e here)),
    )
    | inr there ↦ there
  ]

  dropped-filed :
      (w b : ℕ)
      → contains (w, b) timers ≡ true
      → Alive dropped b (λ u. (u.expiration ≡ w) × (contains (b, u.sequence) active ≡ true))
  dropped-filed w b h =
      let (other, old) = both-left _ _ (sym (ms (w, b)) ∙ h) in
      let (u, e, (e', c)) = v.filed w b old in
      let there = elsewhere_timer w b other e e' in
      (u, rw there e, (e', ma (b, u.sequence) ∙ neither _ _ (ground arith) c))

  dropped-listed :
      (b s : ℕ)
      → contains (b, s) active ≡ true
      → Alive dropped b (λ u. (u.sequence ≡ s) × (contains (u.expiration, b) timers ≡ true))
  dropped-listed b s h =
      let (other, old) = both-left _ _ (sym (ma (b, s)) ∙ h) in
      let (u, e, (e', c)) = v.listed b s old in
      let there = elsewhere_active b s other e e' in
      (u, rw there e, (e', ms (u.expiration, b) ∙ neither _ _ (ground arith) c))

-- The timer is deleted, and in neither set; nothing else has changed.
abbrev pub Canceled : Key → Queue → Outcome Queue → Type 0
Canceled (a, s) q o =
    (t : Timer) × (timers : List Key) × (active : List Key) × (q.store a ≡ some t)
    × (o ≡ ok (delete a (both q timers active)))
    × IsValid (delete a (both q timers active))
    × Drops (t.expiration, a) q.timers timers
    × Drops (a, s) q.active active

cancel_both :
    {q : Queue} (v : IsValid q) (a : ℕ) {t : Timer}
    → q.store a ≡ some t
    → contains (a, t.sequence) q.active ≡ true
    → Erases (t.expiration, a) q.timers (erase_from (t.expiration, a) q.timers)
    → Erases (a, t.sequence) q.active (erase_from (a, t.sequence) q.active)
    → Canceled (a, t.sequence) q (cancel_in_loop (a, t.sequence) q)
unfolding cancel_in_loop cancel_active
cancel_both {q} v a {t} alive there (timers, e, n, w, ms, _) (active, e', n', w', ma, _) = (
  t,
  timers,
  active,
  alive,
  rw same_before (rw there (rw alive (rw e (rw e' (rw same_after refl))))),
  record {
    timers_sorted = w;
    active_sorted = w';
    sizes = omega (arith, v.sizes, n, n');
    filed = dropped-filed v alive timers active ms ma;
    listed = dropped-listed v alive timers active ms ma;
  },
  ms,
  ma,
)
  where
    same_before : (length q.timers == length q.active) ≡ true
    same_before = ground (arith, v.sizes)

    same_after : (length timers == length active) ≡ true
    same_after = ground (arith, v.sizes, n, n')

cancel_listed :
    {q : Queue} (v : IsValid q) (a s : ℕ)
    → contains (a, s) q.active ≡ true
    → Alive q a (λ u. (u.sequence ≡ s) × (contains (u.expiration, a) q.timers ≡ true))
    → Canceled (a, s) q (cancel_in_loop (a, s) q)
cancel_listed {q} v a s there (t, alive, (e, filed)) =
    subst (λ n. Canceled (a, n) q (cancel_in_loop (a, n) q)) e
      (cancel_both v a alive here (erase_from_lem (t.expiration, a) q.timers v.timers_sorted filed)
        (erase_from_lem (a, t.sequence) q.active v.active_sorted here))
  where
    here : contains (a, t.sequence) q.active ≡ true
    here = subst (λ n. contains (a, n) q.active ≡ true) (sym e) there

-- `cancelInLoop` of an active timer takes it out of both sets and deletes it, and changes nothing
-- else: the assertions hold and the queue stays valid.
pub cancel_in_loop_lem :
    {q : Queue}
    → IsValid q
    → (a s : ℕ) → contains (a, s) q.active ≡ true
    → Canceled (a, s) q (cancel_in_loop (a, s) q)
cancel_in_loop_lem v a s there = cancel_listed v a s there (v.listed a s there)
