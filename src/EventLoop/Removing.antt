-- ===== src/EventLoop/Removing.antt =====
-- `updateChannel`, `removeChannel` and `hasChannel` of LuxPolaris/src/EventLoop.cc: what a loop checks
-- before its poller adds, changes or removes a channel, also while it handles events.
use lux_polaris.Prelude.{
  ℕ, ◌≡◌, refl, ap, ◌∙◌, Bool, true, false, not, ◌||◌, List, [], ◌∷◌, Option, Outcome, ok, fault,
  fatal_log, assertion_failed, ◌>>=◌, ◌>>◌, assert, if◌then◌else◌, ◌==◌, holds, arith,
}
use lux_polaris.Channel.{is_none_event}
use lux_polaris.Poller.{Epoll, Poller, put, update_channel, remove_channel, has_channel, remove}
use lux_polaris.Poller.Coherence.{is_new, Coherent}
use lux_polaris.Poller.Removal.{remove-Removed}

abbrev pub member : ℕ → List ℕ → Bool
member id [] = false
member id (x ∷ xs) = (x == id) || member id xs

-- `assertInLoopThread`, which ends in `abortNotInLoopThread`.
abbrev pub assert_in_loop_thread : Bool → Outcome (Unit {0})
assert_in_loop_thread in_loop = if in_loop then ok tt else fault fatal_log

module _ (epoll : Epoll) where
  -- The loop with its poller: `eventHandling_`, `activeChannels_` and `currentActiveChannel_`.
  pub record Dispatch : Type 0 where
    pub poller : Poller epoll
    pub event_handling : Bool
    pub active_channels : List ℕ
    pub current_active_channel : Option ℕ

  -- `owned` is `channel->ownerLoop() == this`.
  unfoldable pub loop_update_channel : Bool → Bool → ℕ → Dispatch → Outcome Dispatch
  loop_update_channel owned in_loop id d = do
    assert owned
    assert_in_loop_thread in_loop
    p ← update_channel epoll id d.poller
    ok (record d { poller = p })

  -- The condition of the assertion in `removeChannel`.
  abbrev pub may_remove : ℕ → Dispatch → Bool
  may_remove id d = holds d.current_active_channel id || not (member id d.active_channels)

  abbrev pub checks_removal : ℕ → Dispatch → Outcome (Unit {0})
  checks_removal id d = if d.event_handling then assert (may_remove id d) else ok tt

  unfoldable pub loop_remove_channel : Bool → Bool → ℕ → Dispatch → Outcome Dispatch
  loop_remove_channel owned in_loop id d = do
    assert owned
    assert_in_loop_thread in_loop
    checks_removal id d
    p ← remove_channel epoll id d.poller
    ok (record d { poller = p })

  unfoldable pub loop_has_channel : Bool → Bool → ℕ → Dispatch → Outcome Bool
  loop_has_channel owned in_loop id d = do
    assert owned
    assert_in_loop_thread in_loop
    ok (has_channel epoll id d.poller)

  -- `Channel::remove` of a channel of this loop.
  unfoldable pub remove_in_loop : Bool → ℕ → Dispatch → Outcome Dispatch
  unfolding loop_remove_channel
  remove_in_loop in_loop id d = do
    assert (is_none_event (d.poller.heap id))
    loop_remove_channel true in_loop id (record d {
      poller = put epoll id (record (d.poller.heap id) { added_to_loop = false }) d.poller;
    })

  module _ (d : Dispatch) (v : Coherent epoll d.poller) (id : ℕ)
      (n : is_new (d.poller.heap id).index ≡ false)
      (idle : is_none_event (d.poller.heap id) ≡ true) where
    -- The channel is gone from the poller, and nothing else of the loop has changed.
    abbrev pub RemovesHere : Outcome Dispatch → Type 0
    RemovesHere o =
        (q : Poller epoll) × (o ≡ ok (record d { poller = q }))
        × Coherent epoll q
        × (has_channel epoll id q ≡ false)

    passes : (not d.event_handling || may_remove id d) ≡ true → checks_removal id d ≡ ok tt
    passes may = go d.event_handling (may_remove id d) may
      where
        go : (b c : Bool) → (not b || c) ≡ true → (if b then assert c else ok tt) ≡ ok tt
        go false c h = refl
        go true true h = refl
        go true false h = absurd (ground (arith, h))

    fails :
        (not d.event_handling || may_remove id d) ≡ false
        → checks_removal id d ≡ fault assertion_failed
    fails may_not = go d.event_handling (may_remove id d) may_not
      where
        go :
            (b c : Bool)
            → (not b || c) ≡ false
            → (if b then assert c else ok tt) ≡ fault assertion_failed
        go false c h = absurd (ground (arith, h))
        go true true h = absurd (ground (arith, h))
        go true false h = refl

    pub by_poller :
        (not d.event_handling || may_remove id d) ≡ true
        → remove_in_loop true id d
          ≡ (remove epoll id d.poller >>= λ q. ok (record d { poller = q }))
    unfolding remove_in_loop loop_remove_channel remove
    by_poller may = rw (idle, passes may) refl

    -- A channel of the loop that is registered and waits for nothing is removed in the loop's thread,
    -- unless the loop handles events and the channel is an active one that is not the current: then
    -- the assertion of `removeChannel` fails.
    pub remove_in_loop_lem :
        ((not d.event_handling || may_remove id d) ≡ true → RemovesHere (remove_in_loop true id d))
        × ((not d.event_handling || may_remove id d) ≡ false
            → remove_in_loop true id d ≡ fault assertion_failed)
    unfolding remove_in_loop loop_remove_channel
    remove_in_loop_lem = (
      λ may.
          let (q, e, w, gone, fresh) = remove-Removed epoll v id n idle in
          (q, by_poller may ∙ ap (λ o. o >>= λ q. ok (record d { poller = q })) e, w, gone),
      λ may_not. rw (idle, fails may_not) refl,
    )
