-- ===== src/EventLoop/Updating.antt =====
-- LuxPolaris/src/Channel.cc: `update`, through the loop to its poller.
use lux_polaris.Prelude.{ℕ, ◌≡◌, ◌⊎◌, refl, Bool, true, false, Outcome, ok, fault, fatal_log, ◌>>=◌}
use lux_polaris.Channel.{Channel, Change, change}
use lux_polaris.Poller.{Epoll, Poller, put, set_events}
use lux_polaris.Poller.Coherence.{Coherent, Fails}
use lux_polaris.EventLoop.Removing.{Dispatch, loop_update_channel}

module _ (epoll : Epoll) where
  -- `Channel::update` of a channel of this loop, behind the change of `events_` that calls it.
  unfoldable pub update_in_loop : Bool → Change → ℕ → Dispatch epoll → Outcome (Dispatch epoll)
  unfolding loop_update_channel
  update_in_loop in_loop ch id d =
      loop_update_channel epoll true in_loop id (record d { poller = put epoll id c' d.poller })
    where
      c' : Channel
      c' = record (d.poller.heap id) {
        events = change ch (d.poller.heap id).events;
        added_to_loop = true;
      }

  pub by_poller :
      (ch : Change) (id : ℕ) (d : Dispatch epoll)
      → update_in_loop true ch id d
        ≡ (set_events epoll ch id d.poller >>= λ q. ok (record d { poller = q }))
  unfolding update_in_loop loop_update_channel set_events
  by_poller ch id d = refl

  module _ (d : Dispatch epoll) (v : Coherent epoll d.poller) (id : ℕ) (ch : Change) where
    abbrev pub changed : Channel
    changed = record (d.poller.heap id) {
      events = change ch (d.poller.heap id).events;
      added_to_loop = true;
    }

    -- Outside the loop's thread the program ends; in it, it ends where epoll_ctl fails to add or
    -- modify the channel, and else the poller agrees with the system, for the new events.
    abbrev pub Updates : Bool → Outcome (Dispatch epoll) → Type 0
    Updates in_loop o =
        ((in_loop ≡ false) × (o ≡ fault fatal_log))
        ⊎ ((in_loop ≡ true)
            × (((o ≡ fault fatal_log) × Fails epoll v id changed)
                ⊎ ((q : Poller epoll) × (o ≡ ok (record d { poller = q }))
                    × Coherent epoll q
                    × ((q.heap id).events ≡ changed.events))))
