-- ===== src/Timers/Resetting.antt =====
-- `TimerQueue::reset` of LuxPolaris/src/TimerQueue.cc on all the timers that have run.
use lux_polaris.Prelude.{
  ℕ, ◌≡◌, refl, ap, ◌∙◌, subst, true, false, List, [], ◌∷◌, Option, some, Outcome, ok, ◌>>=◌, arith,
  ◌==◌, All,
}
use lux_polaris.Timers.{Timer, Queue, reset_all}
use lux_polaris.Timers.Sets.{Key, contains}
use lux_polaris.Timers.Invariant.{IsValid, IsIdle}
use lux_polaris.Timers.Erasing.{Apart, Others}
use lux_polaris.Timers.Restarting.{Settles, Fate, reset_one_lem}

-- A timer that has run: it is alive and in neither set.
abbrev pub Ran : Queue → Key → Type 0
Ran q k = ((t : Timer) × (q.store k.1 ≡ some t)) × IsIdle k.1 q

-- What has become of the timers of the entries in `r`.
abbrev pub Fates : (ℕ → ℕ → ℕ) → ℕ → Queue → List Key → Queue → Type 0
Fates add_time now q ks r =
    All (λ k. (t : Timer) → q.store k.1 ≡ some t → Fate add_time now k.1 t q.canceling r) ks

abbrev pub SettlesAll : (ℕ → ℕ → ℕ) → ℕ → List Key → Queue → Outcome Queue → Type 0
SettlesAll add_time now ks q o =
    (r : Queue) × (o ≡ ok r)
    × IsValid r
    × ((b : ℕ) → Others b ks → r.store b ≡ q.store b)
    × ((k : Key) → contains k q.timers ≡ true → contains k r.timers ≡ true)
    × Fates add_time now q ks r

flipped : (a b : ℕ) → (a == b) ≡ false → (b == a) ≡ false
flipped a b h = ground arith

other_entries : (a : ℕ) (ks : List Key) → All (λ y. (a == y.1) ≡ false) ks → Others a ks
other_entries a [] far = tt
other_entries a (k ∷ ks) (f, far) = (flipped a k.1 f, other_entries a ks far)

same_timer : {o : Option Timer} {t u : Timer} → o ≡ some t → o ≡ some u → t ≡ u
same_timer e f = ground arith

module _ (add_time : ℕ → ℕ → ℕ) (now a : ℕ) {q r : Queue} (s : Settles a q r) where
  later-Ran : (ks : List Key) → Others a ks → All (Ran q) ks → All (Ran r) ks
  later-Ran [] far ran = tt
  later-Ran (k ∷ ks) (f, far) (((t, alive), idle), ran) =
      (((t, s.others k.1 f ∙ alive), s.idle k.1 f idle), later-Ran ks far ran)

  earlier_Fates :
      (ks : List Key)
      → Others a ks
      → (last : Queue) → Fates add_time now r ks last
      → Fates add_time now q ks last
  earlier_Fates [] far last fates = tt
  earlier_Fates (k ∷ ks) (f, far) last (fate, fates) = (
    λ t alive.
        subst (λ c. Fate add_time now k.1 t c last) s.canceling (fate t (s.others k.1 f ∙ alive)),
    earlier_Fates ks far last fates,
  )

later_Fate :
    (add_time : ℕ → ℕ → ℕ) (now a : ℕ) (t : Timer) (canceling : List Key) {r last : Queue}
    → last.store a ≡ r.store a
    → ((k : Key) → contains k r.timers ≡ true → contains k last.timers ≡ true)
    → Fate add_time now a t canceling r
    → Fate add_time now a t canceling last
later_Fate add_time now a t canceling e kept f = record {
  restarted = λ on. (e ∙ (f.restarted on).0, kept _ (f.restarted on).1);
  deleted = λ off. e ∙ f.deleted off;
}

-- What is set for the timerfd does not matter.
pub armed-Fates :
    (add_time : ℕ → ℕ → ℕ) (now : ℕ) (q : Queue) (ks : List Key) (r : Queue) (armed : Option ℕ)
    → Fates add_time now q ks r
    → Fates add_time now q ks (record r { armed = armed })
armed-Fates add_time now q [] r armed fates = tt
armed-Fates add_time now q (k ∷ ks) r armed (fate, fates) = (
  λ t alive. later_Fate add_time now k.1 t q.canceling refl (λ j h. h) (fate t alive),
  armed-Fates add_time now q ks r armed fates,
)

pub reset_all_lem :
    (add_time : ℕ → ℕ → ℕ) (now : ℕ) (ks : List Key)
    → Apart ks
    → (q : Queue) → IsValid q
    → All (Ran q) ks
    → SettlesAll add_time now ks q (reset_all add_time now ks q)
reset_all_lem add_time now [] apart q v ran = (q, refl, v, λ b o. refl, λ k h. h, tt)
reset_all_lem add_time now ((w, a) ∷ ks) (far, apart) q v (((t, alive), idle), ran) =
    let (r, e, s, f) = reset_one_lem add_time now v a t alive idle in
    let (last, e', w', others, kept, fates) =
      reset_all_lem add_time now ks apart r s.valid
        (later-Ran add_time now a s ks (other_entries a ks far) ran) in
    (
      last,
      ap (λ o. o >>= reset_all add_time now ks) e ∙ e',
      w',
      λ b o. others b o.1 ∙ s.others b (flipped a b o.0),
      λ k h. kept k (s.kept k h),
      (
        λ u alive'.
            subst (λ x. Fate add_time now a x q.canceling last) (same_timer alive alive')
              (later_Fate add_time now a t q.canceling (others a (other_entries a ks far)) kept f),
        earlier_Fates add_time now a s ks (other_entries a ks far) last fates,
      ),
    )
