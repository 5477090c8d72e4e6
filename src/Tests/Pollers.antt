-- ===== src/Tests/Pollers.antt =====
-- Runs of LuxPolaris/src/EPollPoller.cc over an epoll that never fails, and of Channel.cc.
use lux_polaris.Prelude.{
  not, ◌||◌, fault, assertion_failed, ℕ, ◌*◌, ◌≡◌, refl, sym, ap, true, false, not, List, [], ◌∷◌,
  map, Option, none, some, ok, arith, length, update, if◌then◌else◌, ◌==◌,
}
use lux_polaris.Channel.{
  Channel, Mask, make, none_event, added, deleted, change, enable_reading, handle_event, Handlers,
  destruct,
}
use lux_polaris.Poller.{Epoll, Poller, add, modify, delete, Operation, has_channel}
use lux_polaris.EventLoop.Retiring.{retire, retire_lem}
use lux_polaris.Poller.Coherence.{Coherent}
use lux_polaris.EventLoop.Removing.{
  Dispatch, may_remove, RemovesHere, remove_in_loop, remove_in_loop_lem,
}
use lux_polaris.Poller.Waiting.{poll, poll_lem, ready, failed, Received, Silent}

abbrev plain_ctl :
    Operation → ℕ → ℕ × Mask → (ℕ → Option (ℕ × Mask)) → Option (ℕ → Option (ℕ × Mask))
plain_ctl add fd e s = some (update s fd (some e))
plain_ctl modify fd e s = some (update s fd (some e))
plain_ctl delete fd e s = some (update s fd none)

abbrev entry_in : Option (ℕ → Option (ℕ × Mask)) → ℕ → Option (ℕ × Mask)
entry_in none j = none
entry_in (some s) j = s j

abbrev plain : Epoll
plain = record {
  State = ℕ → Option (ℕ × Mask);
  registered = λ s. s;
  ctl = plain_ctl;
  ctl-add = λ fd e s h j. sym (ap (λ o. entry_in o j) h);
  ctl-modify = λ fd e s h j. sym (ap (λ o. entry_in o j) h);
  ctl-delete = λ fd e s h. (update s fd none, refl, λ j. refl);
}

-- Channel 0 is of descriptor 0 and not registered.
abbrev empty : Poller plain
empty = record { channels = λ fd. none; heap = λ i. make i; kernel = λ fd. none }

abbrev reading_channel : Channel
reading_channel = record (make 0) {
  events = change enable_reading none_event;
  added_to_loop = true;
}

-- The loop is about to poll.
abbrev about_to_poll : Poller plain → Dispatch plain
about_to_poll p = record {
  poller = p;
  event_handling = false;
  active_channels = [];
  current_active_channel = none;
}

-- Channel 0 was registered, and waits for nothing now.
abbrev resting : Poller plain
resting = record {
  channels = update (λ fd. none) 0 (some 0);
  heap = update (λ i. make i) 0 (record (make 0) { index = deleted });
  kernel = λ fd. none;
}

resting-Coherent : Coherent plain resting
resting-Coherent = record {
  filed = λ fd i h. ground arith;
  listed = λ i h. ground arith;
  watched = λ fd. ground arith;
}

-- The loop handles the events of channel 0, and channel 1 is to come.
abbrev handling : Dispatch plain
handling = record {
  poller = resting;
  event_handling = true;
  active_channels = 0 ∷ 1 ∷ [];
  current_active_channel = some 0;
}

remove_in_loop_example :
    ((not true || may_remove plain 0 handling) ≡ true
      → RemovesHere plain handling resting-Coherent 0 refl refl
          (remove_in_loop plain true 0 handling))
    × ((not true || may_remove plain 0 handling) ≡ false
        → remove_in_loop plain true 0 handling ≡ fault assertion_failed)
remove_in_loop_example = remove_in_loop_lem plain handling resting-Coherent 0 refl refl

-- Channel 0 waits for reading.
abbrev awake : Poller plain
awake = record {
  channels = update (λ fd. none) 0 (some 0);
  heap =
      update (λ i. make i) 0
        (record (make 0) { index = added; events = record none_event { pollin = true } });
  kernel = update (λ fd. none) 0 (some (0, record none_event { pollin = true }));
}

awake-Coherent : Coherent plain awake
awake-Coherent = record {
  filed = λ fd i h. ground arith;
  listed = λ i h. ground arith;
  watched = λ fd. ground arith;
}

abbrev reports : List (ℕ × Mask)
reports = (0, record none_event { pollin = true }) ∷ []

poll_example :
    (poll plain failed 16 awake ≡ ok ([], 16, awake))
    × ((q : Poller plain) × (poll plain (ready reports) 16 awake
          ≡ ok (map (λ e. e.0) reports, (if length reports == 16 then 16 * 2 else 16), q))
        × Coherent plain q
        × Received plain reports q
        × ((i : ℕ) → Silent plain i reports → q.heap i ≡ awake.heap i))
poll_example =
    poll_lem plain reports 16 awake awake-Coherent
      ((0, record none_event { pollin = true }, refl), tt) (tt, tt) (omega arith)

abbrev counting : Handlers (List ℕ)
counting = record {
  set_event_handling = λ b w. w;
  on_read = some (λ w. 1 ∷ w);
  on_write = some (λ w. 2 ∷ w);
  on_close = none;
  on_error = some (λ w. 4 ∷ w);
}

abbrev hung_up : Channel
hung_up = record (make 3) {
  revents = record none_event { pollhup = true; pollpri = true; pollout = true };
}

hung_up_lem : handle_event counting true hung_up [] ≡ 2 ∷ 1 ∷ []
unfolding handle_event
hung_up_lem = refl

-- Channel 0 is registered for reading.
abbrev watched : Poller plain
watched = record {
  channels = update (λ fd. none) 0 (some 0);
  heap = update (λ i. make i) 0 (record reading_channel { index = added });
  kernel = update (λ fd. none) 0 (some (0, reading_channel.events));
}

watched-Coherent : Coherent plain watched
watched-Coherent = record {
  filed = λ fd i h. ground arith;
  listed = λ i h. ground arith;
  watched = λ fd. ground arith;
}

retire_example :
    (q : Poller plain) × (retire plain true 0 (about_to_poll watched)
      ≡ ok (record (about_to_poll watched) { poller = q }))
    × Coherent plain q
    × (has_channel plain 0 q ≡ false)
    × (destruct true (has_channel plain 0 q) (q.heap 0) ≡ ok tt)
retire_example = retire_lem plain (about_to_poll watched) watched-Coherent 0 refl true refl refl
