-- ===== src/EventLoop/Retiring.antt =====
-- How a channel is given up before its owner closes the descriptor: `disableAll` and `remove`, in the
-- destructors of EventLoop.cc, TimerQueue.cc and Acceptor.cc, and then the channel's own destructor.
use lux_polaris.Prelude.{
  ℕ, ◌≡◌, refl, ap, ◌∙◌, Bool, true, false, not, ◌||◌, Outcome, ok, ◌>>=◌, if◌then◌else◌,
}
use lux_polaris.Channel.{added, new, disable_all, destruct}
use lux_polaris.Poller.{Epoll, Poller, has_channel}
use lux_polaris.Poller.Coherence.{Coherent}
use lux_polaris.Poller.Retiring.{asleep, disables}
use lux_polaris.Poller.Removal.{remove-Removed}
use lux_polaris.EventLoop.Removing as Removing
use lux_polaris.EventLoop.Removing.{Dispatch, may_remove, remove_in_loop}
use lux_polaris.EventLoop.Updating as Updating
use lux_polaris.EventLoop.Updating.{update_in_loop}

module _ (epoll : Epoll) where
  unfoldable pub retire : Bool → ℕ → Dispatch epoll → Outcome (Dispatch epoll)
  retire in_loop id d = do
    e ← update_in_loop epoll in_loop disable_all id d
    remove_in_loop epoll in_loop id e

  module _ (d : Dispatch epoll) (v : Coherent epoll d.poller) (id : ℕ)
      (is : (d.poller.heap id).index ≡ added) where
    abbrev returns : Outcome (Unit {0})
    returns = ok tt

    either_way : (b : Bool) → (if b then returns else returns) ≡ returns
    either_way true = refl
    either_way false = refl

    ends :
        (in_loop : Bool) (p q : Poller epoll)
        → (d.poller.heap id).event_handling ≡ false
        → p.heap id ≡ asleep epoll v id is
        → has_channel epoll id q ≡ false
        → q.heap id ≡ record (p.heap id) { index = new; added_to_loop = false }
        → destruct in_loop (has_channel epoll id q) (q.heap id) ≡ ok tt
    ends in_loop p q calm is_asleep gone out =
        unfold destruct in rw gone (rw out (rw is_asleep (rw calm (either_way in_loop))))

    -- In the loop's thread an added channel that handles no event is given up, unless the loop handles
    -- events and the channel is an active one that is not the current: neither the calls nor the
    -- assertions of the loop, the poller and the channel's destructor fail, the poller and the system
    -- have forgotten the channel, and they still agree.
    pub retire_lem :
        (in_loop : Bool)
        → (d.poller.heap id).event_handling ≡ false
        → (not d.event_handling || may_remove epoll id d) ≡ true
        → (q : Poller epoll) × (retire true id d ≡ ok (record d { poller = q }))
          × Coherent epoll q
          × (has_channel epoll id q ≡ false)
          × (destruct in_loop (has_channel epoll id q) (q.heap id) ≡ ok tt)
    unfolding retire
    retire_lem in_loop calm may =
        let (p, e, w, is_asleep) = disables epoll v id is in
        let (q, e', w', gone, out) =
          remove-Removed epoll w id (rw is_asleep refl) (rw is_asleep refl) in
        (
          q,
          ap (λ o. o >>= remove_in_loop epoll true id)
                (Updating.by_poller epoll disable_all id d
                  ∙ ap (λ o. o >>= λ q. ok (record d { poller = q })) e)
              ∙ Removing.by_poller epoll (record d { poller = p }) w id (rw is_asleep refl)
                  (rw is_asleep refl) may
              ∙ ap (λ o. o >>= λ q. ok (record d { poller = q })) e',
          w',
          gone,
          ends in_loop p q calm is_asleep gone out,
        )
