-- ===== src/Timers/Serving.antt =====
-- LuxPolaris/src/TimerQueue.cc: the queue stays valid while it serves the requests of a callback.
use lux_polaris.Prelude.{
  ℕ, ◌≡◌, ◌⊎◌, length, refl, ap, ◌∙◌, Bool, true, false, not, ◌&&◌, List, [], ◌∷◌, none, some, ok,
  ◌>>=◌, arith, if◌then◌else◌, ◌==◌, All, Bool-cases, inl, inr,
}
use lux_polaris.Timers.{Timer, Queue, cancel_in_loop, delete}
use lux_polaris.Timers.Sets.{Key, contains, insert_in}
use lux_polaris.Timers.Invariant.{IsValid, IsIdle, beside-IsValid, both}
use lux_polaris.Timers.Canceling.{cancel_in_loop_lem, Drops}
use lux_polaris.Timers.Resetting.{Ran}
use lux_polaris.Timers.Callbacks.{
  Request, adds, cancels, request, perform, FreshFor, Fresh, Serves, add_timer-Serves,
}

-- A timer in the sets is not one that runs.
elsewhere :
    (q : Queue) (a s b : ℕ) → contains (a, s) q.active ≡ true → IsIdle b q → (b == a) ≡ false
elsewhere q a s b there idle = elim (Bool-cases (b == a)) [
  | inl here ↦
      absurd (ground (arith, idle.1 s, ap (λ x. contains (x, s) q.active) (same_place here)))
  | inr far ↦ far
]
  where
    same_place : (b == a) ≡ true → b ≡ a
    same_place e = ground arith

module _ {q : Queue} (v : IsValid q) where
  canceled_Ran :
      (a s : ℕ) (t : Timer) (timers active : List Key)
      → contains (a, s) q.active ≡ true
      → Drops (t.expiration, a) q.timers timers
      → Drops (a, s) q.active active
      → (ks : List Key) → All (Ran q) ks
      → All (Ran (delete a (both q timers active))) ks
  canceled_Ran a s t timers active there m m' [] ran = tt
  canceled_Ran a s t timers active there m m' (k ∷ ks) ((live, idle), ran) =
      let far = elsewhere q a s k.1 there idle in
      (
        (
          (live.0, rw far live.1),
          (λ w. m (w, k.1) ∙ dropped _ _ (idle.0 w), λ n. m' (k.1, n) ∙ dropped _ _ (idle.1 n)),
        ),
        canceled_Ran a s t timers active there m m' ks ran,
      )
    where
      dropped : (b c : Bool) → c ≡ false → (not b && c) ≡ false
      dropped b c h = ground arith

  canceling_Ran :
      (canceling : List Key) (ks : List Key)
      → All (Ran q) ks
      → All (Ran (record q { canceling = canceling })) ks
  canceling_Ran canceling [] ran = tt
  canceling_Ran canceling (k ∷ ks) (h, ran) = (h, canceling_Ran canceling ks ran)

  cancel_in_loop-Serves :
      (a s : ℕ) (ks : List Key) → All (Ran q) ks → Serves ks (cancel_in_loop (a, s) q)
  unfolding cancel_in_loop
  cancel_in_loop-Serves a s ks ran = elim (Bool-cases (contains (a, s) q.active)) [
    | inl there ↦
        let (t, timers, active, alive, e, w, m, m') = cancel_in_loop_lem v a s there in
        (
          delete a (both q timers active),
          e,
          (w, canceled_Ran a s t timers active there m m' ks ran),
        )
    | inr absent ↦ (
      record q { canceling = noted },
      not_active absent (Bool-cases q.calling_expired_timers),
      (beside-IsValid q.calling_expired_timers noted q.armed v, canceling_Ran noted ks ran),
    )
  ]
    where
      noted : List Key
      noted =
          if q.calling_expired_timers
          then (elim (insert_in (a, s) q.canceling) [ none ↦ q.canceling | some ks ↦ ks ])
          else q.canceling

      balanced : (length q.timers == length q.active) ≡ true
      balanced = ground (arith, v.sizes)

      not_active :
          contains (a, s) q.active ≡ false
          → (q.calling_expired_timers ≡ true) ⊎ (q.calling_expired_timers ≡ false)
          → cancel_in_loop (a, s) q ≡ ok (record q { canceling = noted })
      not_active absent (inl calling) = rw balanced (rw absent (rw calling (rw balanced refl)))
      not_active absent (inr idle) = rw balanced (rw absent (rw idle (rw balanced refl)))

request-Serves :
    (x : Request) {q : Queue}
    → IsValid q
    → FreshFor x q
    → (ks : List Key) → All (Ran q) ks
    → Serves ks (request x q)
request-Serves (adds a when interval created) v free ks ran =
    add_timer-Serves v a when interval created free ks ran
request-Serves (cancels (a, s)) v free ks ran = cancel_in_loop-Serves v a s ks ran

pub perform-Serves :
    (xs : List Request) (q : Queue)
    → IsValid q
    → Fresh xs q
    → (ks : List Key) → All (Ran q) ks
    → Serves ks (perform xs q)
perform-Serves [] q v fresh ks ran = (q, refl, (v, ran))
perform-Serves (x ∷ xs) q v (free, fresh) ks ran =
    let (r, e, (w, ran')) = request-Serves x v free ks ran in
    let (last, e', facts) = perform-Serves xs r w (fresh r e) ks ran' in
    (last, ap (λ o. o >>= perform xs) e ∙ e', facts)
