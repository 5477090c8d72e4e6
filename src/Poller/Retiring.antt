-- ===== src/Poller/Retiring.antt =====
-- `disableAll` of an added channel, in the poller.
use lux_polaris.Prelude.{
  ℕ, ◌≡◌, refl, subst, sym, true, some, Outcome, ok, arith, ==_self, update, update_self, inr,
}
use lux_polaris.Channel.{Channel, added, deleted, none_event, disable_all}
use lux_polaris.Poller.{Epoll, Poller, put, ctl_or_die, update_by, set_events}
use lux_polaris.Poller.Coherence.{Coherent, entered}

module _ (epoll : Epoll) where
  module _ {p : Poller epoll} (v : Coherent epoll p) (id : ℕ) (is : (p.heap id).index ≡ added) where
    abbrev cleared : Channel
    cleared = record (p.heap id) { events = none_event; added_to_loop = true }

    abbrev pub asleep : Channel
    asleep = record cleared { index = deleted }

    -- What `disableAll` makes of the poller: the deletion of a registered descriptor succeeds.
    abbrev pub Disables : Outcome (Poller epoll) → Type 0
    Disables o = (q : Poller epoll) × (o ≡ ok q) × Coherent epoll q × (q.heap id ≡ asleep)

    at : p.channels (p.heap id).fd ≡ some id
    at = v.listed id (ground (arith, is))

    unregisters : Disables (update_by epoll added id cleared (put epoll id cleared p))
    unfolding update_by ctl_or_die
    unregisters =
        let (s, e, gone) =
          epoll.ctl-delete (p.heap id).fd (id, none_event) p.kernel
            (ground (arith, v.watched (p.heap id).fd, at, is)) in
        (
          put epoll id asleep (record (put epoll id cleared p) { kernel = s }),
          rw (at, ==_self id) (rw (e, ctl_or_die)),
          entered epoll v id asleep refl refl (inr at) (λ j. ground (arith, at)) (λ j. ground arith)
              gone,
          update_self (update p.heap id cleared) id asleep,
        )

    pub disables : Disables (set_events epoll disable_all id p)
    unfolding set_events
    disables = rw (update_self p.heap id cleared) (
        subst (λ i. Disables (update_by epoll i id cleared (put epoll id cleared p))) (sym is)
          unregisters)
