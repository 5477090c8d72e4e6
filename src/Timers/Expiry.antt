-- ===== src/Timers/Expiry.antt =====
-- LuxPolaris/src/TimerQueue.cc: `getExpired` takes out exactly the timers that are due.
use lux_polaris.Prelude.{
  ℕ, ◌+◌, ◌≤◌, ◌<◌, ◌≡◌, refl, ap, ◌∙◌, true, false, List, [], ◌∷◌, ◌++◌, ◌==◌, some, Outcome, ok,
  arith, length, All, Bool-cases, inl, inr,
}
use lux_polaris.Timers.{Timer, Queue, get_expired, erase_active, max_address, is_later}
use lux_polaris.Timers.Sets.{Key, before, contains, split_below}
use lux_polaris.Timers.Order.{Sorted}
use lux_polaris.Timers.Invariant.{IsValid, Alive}
use lux_polaris.Timers.Split.{Splits, split_below_lem, All-contains, contains-All}
use lux_polaris.Timers.Erasing.{
  Covered, Apart, Others, Gone, ErasesAll, erase_active_lem, same_expiration, Covered-Apart,
  Covered-Alive,
}

is_due : (now : ℕ) (k : Key) → before k (now, max_address) ≡ true → k.0 ≤ now
is_due now (w, a) h = ground arith

is_not_due :
    (now : ℕ) (k : Key) → k.1 < max_address → before k (now, max_address) ≡ false → now < k.0
is_not_due now (w, a) b h = ground arith

each_due :
    (now : ℕ) (ks : List Key)
    → All (λ k. before k (now, max_address) ≡ true) ks
    → All (λ k. k.0 ≤ now) ks
each_due now [] a = tt
each_due now (k ∷ ks) (h, a) = (is_due now k h, each_due now ks a)

none_due :
    (now : ℕ) (ks : List Key)
    → All (λ k. k.1 < max_address) ks
    → All (λ k. before k (now, max_address) ≡ false) ks
    → All (λ k. now < k.0) ks
none_due now [] b a = tt
none_due now (k ∷ ks) (b, bs) (h, a) = (is_not_due now k b h, none_due now ks bs a)

later-is_later : (now : ℕ) (ks : List Key) → All (λ k. now < k.0) ks → is_later now ks ≡ true
later-is_later now [] a = refl
later-is_later now (k ∷ ks) (h, a) = ground arith

-- The call returns the entries that are due, of timers that are alive and no two the same; the others
-- stay, in a valid queue.
abbrev pub Expires : ℕ → Queue → Outcome (List Key × Queue) → Type 0
Expires now q o =
    (expired : List Key) × (r : Queue) × (o ≡ ok (expired, r))
    × IsValid r
    × (expired ++ r.timers ≡ q.timers)
    × All (λ k. k.0 ≤ now) expired
    × All (λ k. now < k.0) r.timers
    × (r.store ≡ q.store)
    × Apart expired
    × All (λ k. Alive q k.1 (λ t. t.expiration ≡ k.0)) expired

apart_if_later :
    (now : ℕ) (k : Key) (w a e : ℕ)
    → before k (now, max_address) ≡ true
    → before (w, a) (now, max_address) ≡ false
    → e ≡ k.0
    → ((k.1 == a) ≡ true → e ≡ w)
    → (k.1 == a) ≡ false
apart_if_later now (c, d) w a e h i f same_one = elim (Bool-cases (d == a)) [
  | inl here ↦ ground (arith, same_one here)
  | inr there ↦ there
]

others :
    (now : ℕ) (q : Queue) (w a : ℕ) {t : Timer}
    → q.store a ≡ some t
    → t.expiration ≡ w
    → before (w, a) (now, max_address) ≡ false
    → (ks : List Key) → All (λ k. before k (now, max_address) ≡ true) ks
    → Covered ks q
    → Others a ks
others now q w a alive e i [] b cov = tt
others now q w a alive e i (k ∷ ks) (h, b) ((u, f, (f', m)), cov) = (
  apart_if_later now k w a u.expiration h i f'
      (λ same_one. same_expiration q.store k.1 a f alive same_one ∙ e),
  others now q w a alive e i ks b cov,
)

module _ (now : ℕ) {q : Queue} (v : IsValid q) (expired later : List Key)
    (s : Splits (now, max_address) q.timers expired later) (cov : Covered expired q)
    (active : List Key) where
  abbrev left : Queue
  left = record q { timers = later; active = active }

  left-filed :
      ((a n : ℕ)
        → contains (a, n) q.active ≡ true
        → Others a expired
        → contains (a, n) active ≡ true)
      → (w a : ℕ) → contains (w, a) later ≡ true
      → Alive left a (λ t. (t.expiration ≡ w) × (contains (a, t.sequence) active ≡ true))
  left-filed kept w a h =
      let (t, alive, (e, m)) = v.filed w a (s.from_later (w, a) h) in
      (
        t,
        alive,
        (
          e,
          kept a t.sequence m (
              others now q w a alive e
                (All-contains (λ k. before k (now, max_address) ≡ false) (w, a) later h s.above)
                expired s.below cov),
        ),
      )

  in_later_of :
      (a : ℕ) {t : Timer}
      → Gone expired q.store active
      → q.store a ≡ some t
      → contains (a, t.sequence) active ≡ true
      → contains (t.expiration, a) q.timers ≡ true
      → contains (t.expiration, a) later ≡ true
  in_later_of a {t} gone alive h m =
      elim (Bool-cases (before (t.expiration, a) (now, max_address))) [
        | inl due ↦ ground (
          arith,
          All-contains
              (λ k. (u : Timer) → q.store k.1 ≡ some u → contains (k.1, u.sequence) active ≡ false)
              (t.expiration, a) expired (s.in_expired (t.expiration, a) m due) gone t alive,
        )
        | inr not_due ↦ s.in_later (t.expiration, a) m not_due
      ]

  left-listed :
      ((a n : ℕ) → contains (a, n) active ≡ true → contains (a, n) q.active ≡ true)
      → Gone expired q.store active
      → (a n : ℕ) → contains (a, n) active ≡ true
      → Alive left a (λ t. (t.sequence ≡ n) × (contains (t.expiration, a) later ≡ true))
  left-listed back gone a n h =
      let (t, alive, (e, m)) = v.listed a n (back a n h) in
      (t, alive, (e, in_later_of a gone alive (ap (λ x. contains (a, x) active) e ∙ h) m))

  returns :
      split_below (now, max_address) q.timers ≡ (expired, later)
      → All (λ k. now < k.0) later
      → erase_active expired (record q { timers = later }) ≡ ok left
      → length q.active ≡ length expired + length active
      → get_expired now q ≡ ok (expired, left)
  unfolding get_expired
  returns parts undue e n =
      rw same_before (rw parts (rw (later-is_later now later undue) (rw e (rw same_after refl))))
    where
      same_before : (length q.timers == length q.active) ≡ true
      same_before = ground (arith, v.sizes)

      same_after : (length later == length active) ≡ true
      same_after = ground (arith, v.sizes, n, s.sizes)

  expires :
      split_below (now, max_address) q.timers ≡ (expired, later)
      → All (λ k. now < k.0) later
      → erase_active expired (record q { timers = later }) ≡ ok left
      → Sorted active
      → length q.active ≡ length expired + length active
      → ((a n : ℕ)
          → contains (a, n) q.active ≡ true
          → Others a expired
          → contains (a, n) active ≡ true)
      → ((a n : ℕ) → contains (a, n) active ≡ true → contains (a, n) q.active ≡ true)
      → Gone expired q.store active
      → Expires now q (get_expired now q)
  expires parts undue e w n kept back gone = (
    expired,
    left,
    returns parts undue e n,
    record {
      timers_sorted = s.later_sorted;
      active_sorted = w;
      sizes = omega (arith, n, s.sizes, v.sizes);
      filed = left-filed kept;
      listed = left-listed back gone;
    },
    s.all_there,
    each_due now expired s.below,
    undue,
    refl,
    Covered-Apart q expired s.expired_sorted cov,
    Covered-Alive q expired cov,
  )

with_parts :
    (now : ℕ) {q : Queue} (v : IsValid q) (expired later : List Key)
    → split_below (now, max_address) q.timers ≡ (expired, later)
    → Splits (now, max_address) q.timers expired later
    → All (λ k. k.1 < max_address) q.timers
    → Covered expired q
    → ErasesAll expired
        (record q { timers = later })
        (erase_active expired (record q { timers = later }))
    → Expires now q (get_expired now q)
with_parts now v expired later parts s bounded cov (active, e, w, n, kept, back, gone) =
    expires now v expired later s cov active parts
      (none_due now later (s.later_all (λ k. k.1 < max_address) bounded) s.above) e w n kept back
      gone

-- `getExpired` on a valid queue returns the entries that are due, all of them and no other, in the
-- order of the set; they leave both sets, the assertions hold and the queue stays valid. An address
-- is less than UINTPTR_MAX.
pub get_expired_lem :
    (now : ℕ) {q : Queue}
    → IsValid q
    → All (λ k. k.1 < max_address) q.timers
    → Expires now q (get_expired now q)
get_expired_lem now {q} v bounded = with_parts now v expired later refl s bounded cov (
    erase_active_lem expired (record q { timers = later }) v.active_sorted
      (Covered-Apart q expired s.expired_sorted cov) cov)
  where
    expired : List Key
    expired = (split_below (now, max_address) q.timers).0

    later : List Key
    later = (split_below (now, max_address) q.timers).1

    s : Splits (now, max_address) q.timers expired later
    s = split_below_lem (now, max_address) q.timers v.timers_sorted

    cov : Covered expired q
    cov =
        s.expired_all
          (λ k.
            Alive q k.1 (λ t. (t.expiration ≡ k.0) × (contains (k.1, t.sequence) q.active ≡ true)))
          (contains-All _ q.timers v.timers_sorted (λ j m. v.filed j.0 j.1 m))
