-- ===== src/Timers/Inserting.antt =====
-- LuxPolaris/src/TimerQueue.cc: the insertion of a timer.
use lux_polaris.Prelude.{
  ℕ, suc, ◌≡◌, refl, sym, ap, ◌∙◌, Bool, true, List, some, Outcome, ok, ◌==◌, arith, length, inl,
  inr,
}
use lux_polaris.Timers.{Timer, Queue, insert, is_earliest}
use lux_polaris.Timers.Sets.{Key, insert_in, contains}
use lux_polaris.Timers.Order.{Inserts, insert_in_lem}
use lux_polaris.Timers.Invariant.{
  Alive, IsValid, IsIdle, same-true, or-cases, either_right, either_left, same_pair, both, Adds,
}

module _ {q : Queue} (v : IsValid q) {a : ℕ} {t : Timer} (alive : q.store a ≡ some t)
    (timers active : List Key) (ms : Adds (t.expiration, a) q.timers timers)
    (ma : Adds (a, t.sequence) q.active active) where
  added-filed :
      (w b : ℕ)
      → contains (w, b) timers ≡ true
      → Alive
          (both q timers active)
          b
          (λ u. (u.expiration ≡ w) × (contains (b, u.sequence) active ≡ true))
  added-filed w b h = elim (or-cases _ _ (sym (ms (w, b)) ∙ h)) [
    | inl new_one ↦
        let (e, e') = same-true w b t.expiration a new_one in
        (
          t,
          ap q.store e' ∙ alive,
          (sym e, ma (b, t.sequence) ∙ either_left _ _ (same_pair e' refl)),
        )
    | inr old ↦
        let (u, e, (e', c)) = v.filed w b old in
        (u, e, (e', ma (b, u.sequence) ∙ either_right _ _ c))
  ]

  added-listed :
      (b s : ℕ)
      → contains (b, s) active ≡ true
      → Alive
          (both q timers active)
          b
          (λ u. (u.sequence ≡ s) × (contains (u.expiration, b) timers ≡ true))
  added-listed b s h = elim (or-cases _ _ (sym (ma (b, s)) ∙ h)) [
    | inl new_one ↦
        let (e, e') = same-true b s a t.sequence new_one in
        (
          t,
          ap q.store e ∙ alive,
          (
            sym e',
            ms (t.expiration, b)
                ∙ either_left _ (contains (t.expiration, b) q.timers)
                    (same_pair {a = t.expiration} refl e),
          ),
        )
    | inr old ↦
        let (u, e, (e', c)) = v.listed b s old in
        (u, e, (e', ms (u.expiration, b) ∙ either_right _ _ c))
  ]

-- The timer is now in both sets, nothing else has changed, and the result says whether it comes
-- before all others.
abbrev pub Inserted : ℕ → Timer → Queue → Outcome (Bool × Queue) → Type 0
Inserted a t q o =
    (timers : List Key) × (active : List Key) × (o
      ≡ ok (is_earliest t.expiration q.timers, both q timers active))
    × IsValid (both q timers active)
    × Adds (t.expiration, a) q.timers timers
    × Adds (a, t.sequence) q.active active

insert_both :
    {q : Queue} (v : IsValid q) {a : ℕ} {t : Timer} (alive : q.store a ≡ some t)
    → Inserts (t.expiration, a) q.timers (insert_in (t.expiration, a) q.timers)
    → Inserts (a, t.sequence) q.active (insert_in (a, t.sequence) q.active)
    → Inserted a t q (insert a q)
unfolding insert
insert_both {q} v {a} {t} alive (timers, e, n, w, ms, _) (active, e', n', w', ma, _) = (
  timers,
  active,
  rw same_before (rw alive (rw e (rw e' (rw same_after refl)))),
  record {
    timers_sorted = w;
    active_sorted = w';
    sizes = n ∙ ap suc v.sizes ∙ sym n';
    filed = added-filed v alive timers active ms ma;
    listed = added-listed v alive timers active ms ma;
  },
  ms,
  ma,
)
  where
    same_before : (length q.timers == length q.active) ≡ true
    same_before = ground (arith, v.sizes)

    same_after : (length timers == length active) ≡ true
    same_after = ground (arith, v.sizes, n, n')

-- `insert` puts a timer that is alive and in neither set into both and changes nothing else: the
-- queue stays valid, the assertions hold, and it returns whether the timer comes before all others.
pub insert_lem :
    {q : Queue}
    → IsValid q
    → (a : ℕ) {t : Timer} → q.store a ≡ some t
    → IsIdle a q
    → Inserted a t q (insert a q)
insert_lem {q} v a {t} alive (none_filed, none_listed) =
    insert_both v alive
      (insert_in_lem (t.expiration, a) q.timers v.timers_sorted (none_filed t.expiration))
      (insert_in_lem (a, t.sequence) q.active v.active_sorted (none_listed t.sequence))
