-- ===== src/Poller/Waiting.antt =====
-- `EPollPoller::poll` and `fillActiveChannels` of LuxPolaris/src/EPollPoller.cc: what epoll_wait(2)
-- reports goes into the channels and the list of active ones.
use lux_polaris.Prelude.{
  ℕ, ◌*◌, ◌≤◌, ◌≡◌, ◌≢◌, refl, ap, ◌∙◌, List, [], ◌∷◌, map, some, Outcome, ok, ◌>>=◌, ◌>>◌, assert,
  if◌then◌else◌, leb, ◌==◌, length, update_self, ==_self, is_some, holds, arith, le→leb, All,
  Option-cases, inl, inr,
}
use lux_polaris.Channel.{Channel, Mask}
use lux_polaris.Poller.{Epoll, Poller, put}
use lux_polaris.Poller.Coherence.{Coherent}

-- The reported pointers with their events, none of them on a timeout; or -1.
pub data Reply : Type 0 where
  ready : List (ℕ × Mask) → Reply
  failed : Reply

module _ (epoll : Epoll) where
  unfoldable pub fill_active_channels :
      List (ℕ × Mask) → Poller epoll → Outcome (List ℕ × Poller epoll)
  fill_active_channels [] p = ok ([], p)
  fill_active_channels ((id, events) ∷ rest) p =
      let c : Channel = p.heap id in
      do
        assert (is_some (p.channels c.fd))
        assert (holds (p.channels c.fd) id)
        (ids, q) ← fill_active_channels rest (put epoll id (record c { revents = events }) p)
        ok (id ∷ ids, q)

  -- `size` is `events_.size()`, which doubles when all of it was used. The result has the active
  -- channels, the new size and the poller.
  unfoldable pub poll : Reply → ℕ → Poller epoll → Outcome (List ℕ × ℕ × Poller epoll)
  unfolding fill_active_channels
  poll failed size p = ok ([], size, p)
  poll (ready []) size p = ok ([], size, p)
  poll (ready (e ∷ es)) size p = do
    assert (leb (length (e ∷ es)) size)
    (ids, q) ← fill_active_channels (e ∷ es) p
    ok (ids, if length (e ∷ es) == size then size * 2 else size, q)

  -- Every reported pointer is registered in the state `s` of the system.
  abbrev pub Reports : epoll.State → List (ℕ × Mask) → Type 0
  Reports s es = All (λ e. (fd : ℕ) × (m : Mask) × (epoll.registered s fd ≡ some (e.0, m))) es

  -- No report is about channel `id`.
  abbrev pub Silent : ℕ → List (ℕ × Mask) → Type 0
  Silent id es = All (λ e. e.0 ≢ id) es

  abbrev pub Distinct : List (ℕ × Mask) → Type 0
  Distinct [] = Unit {0}
  Distinct (e ∷ es) = Silent e.0 es × Distinct es

  -- What was reported stands in the channels.
  abbrev pub Received : List (ℕ × Mask) → Poller epoll → Type 0
  Received es q = All (λ e. (q.heap e.0).revents ≡ e.1) es

  module _ {p : Poller epoll} (v : Coherent epoll p) (id : ℕ) (events : Mask) where
    abbrev marked : Poller epoll
    marked = put epoll id (record (p.heap id) { revents = events }) p

    marked-Coherent : Coherent epoll marked
    marked-Coherent = record {
      filed = λ fd i h. ground (arith, v.filed fd i);
      listed = λ i h. ground (arith, v.listed i);
      watched = λ fd. elim (Option-cases (p.channels fd)) [
        | inl out ↦ ground (arith, v.watched fd)
        | inr (i, at) ↦ ground (arith, v.watched fd)
      ];
    }

    -- A registered pointer is that of the channel in the map.
    reported :
        (fd : ℕ) (m : Mask)
        → epoll.registered p.kernel fd ≡ some (id, m)
        → p.channels (p.heap id).fd ≡ some id
    reported fd m h = elim (Option-cases (p.channels fd)) [
      | inl out ↦ ground (arith, v.watched fd)
      | inr (i, at) ↦ ground (arith, v.watched fd, v.filed fd i)
    ]

  -- The call returns the reported channels, in order; the poller still agrees with the system, and
  -- the channels have their events; those of channels that were not reported stay.
  record Filled (p : Poller epoll) (es : List (ℕ × Mask)) (q : Poller epoll) : Type 0 where
    pub returns : fill_active_channels es p ≡ ok (map (λ e. e.0) es, q)
    pub coherent : Coherent epoll q
    pub received : Received es q
    pub silent : (i : ℕ) → Silent i es → q.heap i ≡ p.heap i

  fill_active_channels_lem :
      (es : List (ℕ × Mask)) (p : Poller epoll)
      → Coherent epoll p
      → Reports p.kernel es
      → Distinct es
      → (q : Poller epoll) × Filled p es q
  unfolding fill_active_channels
  fill_active_channels_lem [] p v r d =
      (p, record { returns = refl; coherent = v; received = tt; silent = λ i h. refl })
  fill_active_channels_lem ((id, events) ∷ es) p v ((fd, m, at), r) (apart, d) =
      let (q, f) =
        fill_active_channels_lem es (marked v id events) (marked-Coherent v id events) r d in
      (
        q,
        record {
          returns = rw (reported v id events fd m at, ==_self id, f.returns);
          coherent = f.coherent;
          received = (
            ap (λ (c : Channel). c.revents) (f.silent id apart)
                ∙ ap (λ (c : Channel). c.revents)
                    (update_self p.heap id (record (p.heap id) { revents = events })),
            f.received,
          );
          silent = λ i h. f.silent i h.1 ∙ ground arith;
        },
      )

  -- A wait that reports no more than was asked for returns the reported channels in order, with their
  -- events in them, and none of the assertions on the map fails; the event list doubles when it was
  -- full. A timeout and an error return no channel and change nothing.
  pub poll_lem :
      (es : List (ℕ × Mask)) (size : ℕ) (p : Poller epoll)
      → Coherent epoll p
      → Reports p.kernel es
      → Distinct es
      → length es ≤ size
      → (poll failed size p ≡ ok ([], size, p))
        × ((q : Poller epoll) × (poll (ready es) size p
              ≡ ok (map (λ e. e.0) es, (if length es == size then size * 2 else size), q))
            × Coherent epoll q
            × Received es q
            × ((i : ℕ) → Silent i es → q.heap i ≡ p.heap i))
  unfolding poll
  poll_lem [] size p v r d h = (refl, (p, ground arith, v, tt, λ i s. refl))
  poll_lem (e ∷ es) size p v r d h =
      let (q, f) = fill_active_channels_lem (e ∷ es) p v r d in
      (refl, (q, rw (le→leb (length (e ∷ es)) size h, f.returns), f.coherent, f.received, f.silent))
