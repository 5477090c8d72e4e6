-- ===== src/Timers/Erasing.antt =====
-- LuxPolaris/src/TimerQueue.cc: the for loop of `getExpired`, which takes the expired timers out of the
-- set of active ones.
use lux_polaris.Prelude.{
  ◌>>=◌, ==_self, ℕ, ◌+◌, ◌≡◌, refl, sym, ap, ◌∙◌, Bool, true, false, not, ◌&&◌, List, [], ◌∷◌,
  ◌==◌, Option, some, Outcome, ok, arith, length, All, Bool-cases, inl, inr,
}
use lux_polaris.Timers.{Timer, Queue, erase_active, present, erased}
use lux_polaris.Timers.Sets.{Key, before, contains, erase_from}
use lux_polaris.Timers.Order.{Sorted, same, Erases, erase_from_lem}
use lux_polaris.Timers.Invariant.{Alive}

-- Each entry is of a timer that is alive and active.
abbrev pub Covered : List Key → Queue → Type 0
Covered ks q =
    All
      (λ k. Alive q k.1 (λ t. (t.expiration ≡ k.0) × (contains (k.1, t.sequence) q.active ≡ true)))
      ks

-- No two entries have the same address.
abbrev pub Apart : List Key → Type 0
Apart [] = Unit {0}
Apart (x ∷ xs) = All (λ y. (x.1 == y.1) ≡ false) xs × Apart xs

abbrev pub Others : ℕ → List Key → Type 0
Others a ks = All (λ k. (k.1 == a) ≡ false) ks

-- No timer of an entry is active.
abbrev pub Gone : List Key → (ℕ → Option Timer) → List Key → Type 0
Gone ks store active =
    All (λ k. (t : Timer) → store k.1 ≡ some t → contains (k.1, t.sequence) active ≡ false) ks

-- The expired timers are no longer active; all others still are.
abbrev pub ErasesAll : List Key → Queue → Outcome Queue → Type 0
ErasesAll ks q o =
    (active : List Key) × (o ≡ ok (record q { active = active }))
    × Sorted active
    × (length q.active ≡ length ks + length active)
    × ((a s : ℕ) → contains (a, s) q.active ≡ true → Others a ks → contains (a, s) active ≡ true)
    × ((a s : ℕ) → contains (a, s) active ≡ true → contains (a, s) q.active ≡ true)
    × Gone ks q.store active

same_sequence : {t u : Timer} → some t ≡ some u → t.sequence ≡ u.sequence
same_sequence e = ground arith

absent : (b c : Bool) → (c ≡ true → b ≡ true) → b ≡ false → c ≡ false
absent b true h e = sym (h refl) ∙ e
absent b false h e = refl

both_true : (b c : Bool) → b ≡ false → c ≡ true → (not b && c) ≡ true
both_true b c h k = ground arith

right_true : (b c : Bool) → (not b && c) ≡ true → c ≡ true
right_true b c h = ground arith

same_far : (a b s u : ℕ) → (a == b) ≡ false → same (b, s) (a, u) ≡ false
same_far a b s u h = ground arith

same_self : (k : Key) → (not (same k k) && true) ≡ false
same_self (a, b) = ground (arith, ==_self a, ==_self b)

module _ (q : Queue) {a : ℕ} {t : Timer} (alive : q.store a ≡ some t) (active : List Key)
    (ma : (j : Key)
      → contains j active ≡ (not (same j (a, t.sequence)) && contains j q.active)) where
  still_there :
      (b s : ℕ) → (a == b) ≡ false → contains (b, s) q.active ≡ true → contains (b, s) active ≡ true
  still_there b s far m = ma (b, s) ∙ both_true _ _ (same_far a b s t.sequence far) m

  rest_alive :
      (ks : List Key)
      → All (λ y. (a == y.1) ≡ false) ks
      → Covered ks q
      → Covered ks (record q { active = active })
  rest_alive [] far cov = tt
  rest_alive (k ∷ ks) (f, far) ((u, e, (e', m)), cov) =
      ((u, e, (e', still_there k.1 u.sequence f m)), rest_alive ks far cov)

  head_gone :
      contains (a, t.sequence) q.active ≡ true
      → (u : Timer) → q.store a ≡ some u
      → contains (a, u.sequence) active ≡ false
  head_gone m u e =
      ap (λ s. contains (a, s) active) (same_sequence (sym e ∙ alive))
      ∙ ma (a, t.sequence)
      ∙ ap (λ c. not (same (a, t.sequence) (a, t.sequence)) && c) m
      ∙ same_self (a, t.sequence)

erase_next :
    (when a : ℕ) (ks : List Key) (q : Queue) {t : Timer}
    → q.store a ≡ some t
    → contains (a, t.sequence) q.active ≡ true
    → Erases (a, t.sequence) q.active (erase_from (a, t.sequence) q.active)
    → ((active : List Key)
        → Sorted active
        → ((j : Key) → contains j active ≡ (not (same j (a, t.sequence)) && contains j q.active))
        → ErasesAll ks
            (record q { active = active })
            (erase_active ks (record q { active = active })))
    → ErasesAll ((when, a) ∷ ks) q (erase_active ((when, a) ∷ ks) q)
erase_next when a ks q {t} alive m (active, e, n, w, ma, _) rest = after (rest active w ma)
  where
    after :
        ErasesAll ks (record q { active = active }) (erase_active ks (record q { active = active }))
        → ErasesAll ((when, a) ∷ ks) q (erase_active ((when, a) ∷ ks) q)
    after (last, e', w', n', kept, back, gone) = (
      last,
      ap present' (ap present alive) ∙ ap erased' (ap erased e) ∙ e',
      w',
      omega (arith, n, n'),
      λ b s h o. kept b s (still_there q alive active ma b s o.0 h) o.1,
      λ b s h. right_true _ _ (sym (ma (b, s)) ∙ back b s h),
      (λ u f. absent _ _ (back a u.sequence) (head_gone q alive active ma m u f), gone),
    )
      where
        present' : Outcome Timer → Outcome Queue
        present' o = o >>= λ u. erased (erase_from (a, u.sequence) q.active) >>= λ x.
            erase_active ks (record q { active = x })

        erased' : Outcome (List Key) → Outcome Queue
        erased' o = o >>= λ x. erase_active ks (record q { active = x })

pub erase_active_lem :
    (ks : List Key) (q : Queue)
    → Sorted q.active
    → Apart ks
    → Covered ks q
    → ErasesAll ks q (erase_active ks q)
erase_active_lem [] q w apart cov = (q.active, refl, w, omega arith, λ a s m o. m, λ a s m. m, tt)
erase_active_lem ((when, a) ∷ ks) q w (far, apart) ((t, alive, (at_when, m)), cov) =
    erase_next when a ks q alive m (erase_from_lem (a, t.sequence) q.active w m) (λ active w' ma.
      erase_active_lem ks (record q { active = active }) w' apart
        (rest_alive q alive active ma ks far cov))

covered_apart :
    (x y : Key) (e f : ℕ)
    → e ≡ x.0
    → f ≡ y.0
    → before x y ≡ true
    → ((x.1 == y.1) ≡ true → e ≡ f)
    → (x.1 == y.1) ≡ false
covered_apart (a, b) (c, d) e f h k i same_one = elim (Bool-cases (b == d)) [
  | inl here ↦ ground (arith, same_one here)
  | inr there ↦ there
]

pub same_expiration :
    (store : ℕ → Option Timer) (a b : ℕ) {t u : Timer}
    → store a ≡ some t
    → store b ≡ some u
    → (a == b) ≡ true
    → t.expiration ≡ u.expiration
same_expiration store a b e f h = of_some (sym e ∙ ap store place ∙ f)
  where
    place : a ≡ b
    place = ground arith

    of_some : {t u : Timer} → some t ≡ some u → t.expiration ≡ u.expiration
    of_some p = ground arith

far_from :
    (q : Queue) (x : Key) {t : Timer}
    → q.store x.1 ≡ some t
    → t.expiration ≡ x.0
    → (ks : List Key) → All (λ y. before x y ≡ true) ks
    → Covered ks q
    → All (λ y. (x.1 == y.1) ≡ false) ks
far_from q x alive e [] b cov = tt
far_from q x {t} alive e (y ∷ ks) (h, b) ((u, f, (f', m)), cov) = (
  covered_apart x y t.expiration u.expiration e f' h (same_expiration q.store x.1 y.1 alive f),
  far_from q x alive e ks b cov,
)

pub Covered-Apart : (q : Queue) (ks : List Key) → Sorted ks → Covered ks q → Apart ks
Covered-Apart q [] w cov = tt
Covered-Apart q (x ∷ ks) (b, w) ((t, alive, (e, m)), cov) =
    (far_from q x alive e ks b cov, Covered-Apart q ks w cov)

pub Covered-Alive :
    (q : Queue) (ks : List Key) → Covered ks q → All (λ k. Alive q k.1 (λ t. t.expiration ≡ k.0)) ks
Covered-Alive q [] cov = tt
Covered-Alive q (k ∷ ks) ((t, alive, (e, m)), cov) = ((t, alive, e), Covered-Alive q ks cov)
