-- ===== src/Poller/Coherence.antt =====
-- The poller's map, the channels' indices and what the system has registered agree.
use lux_polaris.Prelude.{
  ℕ, ◌≡◌, refl, ◌⊎◌, inl, inr, Bool, true, false, Option, none, some, Outcome, ok, fault, fatal_log,
  arith, if◌then◌else◌, update, Option-cases, Bool-cases, ==_self, update_self, ◌>>=◌, subst,
}
use lux_polaris.Channel.{Channel, Mask, Index, new, added, deleted, Change, change, is_none_event}
use lux_polaris.Poller.{
  Operation, add, modify, delete, Epoll, Poller, ctl_or_die, put, update_by, set_events,
}

abbrev pub is_new : Index → Bool
is_new new = true
is_new _ = false

abbrev pub is_added : Index → Bool
is_added added = true
is_added _ = false

-- What a channel's entry should be registered with.
abbrev pub entry : ℕ → Channel → Option (ℕ × Mask)
entry id c = if is_added c.index then some (id, c.events) else none

abbrev pub entry_of : (ℕ → Channel) → Option ℕ → Option (ℕ × Mask)
entry_of heap none = none
entry_of heap (some id) = entry id (heap id)

not_delete : (b : Bool) → delete ≡ (if b then modify else add) → ⊥
not_delete true e = cc
not_delete false e = cc

module _ (epoll : Epoll) where
  open epoll use {registered}

  -- A descriptor's entry is a channel of that descriptor which is no longer new; every such channel
  -- has an entry; and the system watches a descriptor exactly when its channel is added, for the
  -- channel's events and with a pointer to it.
  pub record Coherent (p : Poller epoll) : Type 0 where
    pub filed :
        (fd id : ℕ)
        → p.channels fd ≡ some id
        → ((p.heap id).fd ≡ fd) × (is_new (p.heap id).index ≡ false)
    pub listed : (id : ℕ) → is_new (p.heap id).index ≡ false → p.channels (p.heap id).fd ≡ some id
    pub watched : (fd : ℕ) → registered p.kernel fd ≡ entry_of p.heap (p.channels fd)

  module _ {p : Poller epoll} (v : Coherent p) (id : ℕ) where
    abbrev pub c : Channel
    c = p.heap id

    -- The channel gets the index and the events; its entry and the registration follow.
    pub entered :
        {q : Poller epoll} (c' : Channel)
        → c'.fd ≡ c.fd
        → is_new c'.index ≡ false
        → (p.channels c.fd ≡ none) ⊎ (p.channels c.fd ≡ some id)
        → ((j : ℕ) → q.channels j ≡ update p.channels c.fd (some id) j)
        → ((i : ℕ) → q.heap i ≡ update p.heap id c' i)
        → ((j : ℕ) → registered q.kernel j ≡ update (registered p.kernel) c.fd (entry id c') j)
        → Coherent q
    entered {q} c' e n was ch hp kn = record {
      filed = λ fd i h. ground (arith, v.filed fd i, ch fd, hp i);
      listed = λ i h. ground (arith, v.listed i, v.listed id, hp i, ch (p.heap i).fd, ch c.fd);
      watched = λ fd. elim (Option-cases (p.channels fd)) [
        | inl out ↦ ground (arith, v.watched fd, kn fd, ch fd, hp id)
        | inr (i, at) ↦ ground (arith, v.watched fd, kn fd, ch fd, hp i, hp id, v.filed fd i at)
      ];
    }

    -- The entry goes, the channel is new again, and nothing is registered.
    pub left :
        {q : Poller epoll} (c' : Channel)
        → c'.fd ≡ c.fd
        → is_new c'.index ≡ true
        → p.channels c.fd ≡ some id
        → ((j : ℕ) → q.channels j ≡ update p.channels c.fd none j)
        → ((i : ℕ) → q.heap i ≡ update p.heap id c' i)
        → ((j : ℕ) → registered q.kernel j ≡ update (registered p.kernel) c.fd none j)
        → Coherent q
    left {q} c' e n was ch hp kn = record {
      filed = λ fd i h. ground (arith, v.filed fd i, ch fd, hp i);
      listed = λ i h. ground (arith, v.listed i, v.listed id, hp i, ch (p.heap i).fd, ch c.fd);
      watched = λ fd. elim (Option-cases (p.channels fd)) [
        | inl out ↦ ground (arith, v.watched fd, kn fd, ch fd, hp id)
        | inr (i, at) ↦ ground (arith, v.watched fd, kn fd, ch fd, hp i, hp id, v.filed fd i at)
      ];
    }

    -- The call of epoll_ctl that adds or modifies the channel fails.
    abbrev pub Fails : Channel → Type 0
    Fails c' =
        epoll.ctl (if is_added c.index then modify else add) c.fd (id, c'.events) p.kernel ≡ none

    -- What the update may end in: the abort of a ctl_failure epoll_ctl, or agreement.
    abbrev pub Agrees : Channel → Outcome (Poller epoll) → Type 0
    Agrees c' o =
        ((o ≡ fault fatal_log) × Fails c')
        ⊎ ((q : Poller epoll) × (o ≡ ok q) × Coherent q × ((q.heap id).events ≡ c'.events))

    module _ (ch : Change) where
      abbrev changed : Channel
      changed = record c { events = change ch c.events; added_to_loop = true }

      abbrev before : Poller epoll
      before = put epoll id changed p

      abbrev now_added : Channel
      now_added = record changed { index = added }

      ctl_failure :
          (op : Operation) (q : Poller epoll)
          → op ≡ (if is_added c.index then modify else add)
          → q.kernel ≡ p.kernel
          → epoll.ctl op c.fd (id, changed.events) q.kernel ≡ none
          → Fails changed
      ctl_failure op q o k e =
          subst (λ x. epoll.ctl x c.fd (id, changed.events) p.kernel ≡ none) o
            (subst (λ x. epoll.ctl op c.fd (id, changed.events) x ≡ none) k e)

      -- `ADD` and `MOD`, from a poller that differs from `p` in the channel, in `channels_` perhaps.
      ctl-Agrees :
          (op : Operation) (q : Poller epoll)
          → op ≡ (if is_added c.index then modify else add)
          → q.kernel ≡ p.kernel
          → (p.channels c.fd ≡ none) ⊎ (p.channels c.fd ≡ some id)
          → ((j : ℕ) → q.channels j ≡ update p.channels c.fd (some id) j)
          → ((i : ℕ) → q.heap i ≡ update p.heap id now_added i)
          → Agrees changed (ctl_or_die epoll op id now_added q)
      unfolding ctl_or_die
      ctl-Agrees delete q o k was chs hp = absurd (not_delete (is_added c.index) o)
      ctl-Agrees add q o k was chs hp =
          elim (Option-cases (epoll.ctl add c.fd (id, changed.events) q.kernel)) [
            | inl fails ↦ inl (ground arith, ctl_failure add q o k fails)
            | inr (s, e) ↦ inr (
              record q { kernel = s },
              ground arith,
              entered now_added refl refl was chs hp
                  (λ j. ground (arith, epoll.ctl-add c.fd (id, changed.events) q.kernel e j)),
              ground (arith, hp id),
            )
          ]
      ctl-Agrees modify q o k was chs hp =
          elim (Option-cases (epoll.ctl modify c.fd (id, changed.events) q.kernel)) [
            | inl fails ↦ inl (ground arith, ctl_failure modify q o k fails)
            | inr (s, e) ↦ inr (
              record q { kernel = s },
              ground arith,
              entered now_added refl refl was chs hp
                  (λ j. ground (arith, epoll.ctl-modify c.fd (id, changed.events) q.kernel e j)),
              ground (arith, hp id),
            )
          ]

      update_by-new :
          c.index ≡ new
          → p.channels c.fd ≡ none
          → Agrees changed (update_by epoll new id changed before)
      unfolding update_by
      update_by-new is out = rw out (
          ctl-Agrees add
            (put epoll id now_added (record before { channels = update p.channels c.fd (some id) }))
            (rw is refl) refl (inl out) (λ j. refl) (λ j. ground arith))

      module _ (at : p.channels c.fd ≡ some id) where
        same_entry : (j : ℕ) → p.channels j ≡ update p.channels c.fd (some id) j
        same_entry j = ground arith

        update_by-deleted :
            c.index ≡ deleted → Agrees changed (update_by epoll deleted id changed before)
        unfolding update_by
        update_by-deleted is =
            rw (at, ==_self id)
              (ctl-Agrees add (put epoll id now_added before) (rw is refl) refl (inr at) same_entry
                (λ j. ground arith))

        module _ (is : c.index ≡ added) where
          unchanged : now_added ≡ changed
          unchanged = ground arith

          unregister : Agrees changed (
              ctl_or_die epoll delete id changed before
              >>= (λ q. ok (put epoll id (record changed { index = deleted }) q)))
          unfolding ctl_or_die
          unregister =
              let (s, e, gone) =
                epoll.ctl-delete c.fd (id, changed.events) p.kernel
                  (ground (arith, v.watched c.fd)) in
              inr (
                put epoll id (record changed { index = deleted }) (record before { kernel = s }),
                rw (e, ctl_or_die),
                entered (record changed { index = deleted }) refl refl (inr at) same_entry
                    (λ j. ground arith) gone,
                ground arith,
              )

          update_by-added : Agrees changed (update_by epoll added id changed before)
          unfolding update_by
          update_by-added =
              rw (at, ==_self id)
                (elim (Bool-cases (is_none_event changed)) [
                  | inl idle ↦ rw idle unregister
                  | inr busy ↦ rw busy (
                      subst (λ d. Agrees changed (ctl_or_die epoll modify id d before)) unchanged
                        (ctl-Agrees modify before (rw is refl) refl (inr at) same_entry
                          (λ j. ground (arith, unchanged))))
                ])

      -- The poller's part of `Channel::update`.
      pub set_events-Agrees :
          (c.index ≡ new → p.channels c.fd ≡ none) → Agrees changed (set_events epoll ch id p)
      unfolding set_events
      set_events-Agrees alone = rw (update_self p.heap id changed) (by_index c.index refl)
        where
          by_index :
              (i : Index) → c.index ≡ i → Agrees changed (update_by epoll i id changed before)
          by_index new e = update_by-new e (alone e)
          by_index deleted e = update_by-deleted (v.listed id (ground arith)) e
          by_index added e = update_by-added (v.listed id (ground arith)) e
