-- ===== src/Poller.antt =====
-- LuxPolaris/src/EPollPoller.cc and Poller.cc. The channels are a store, and a
-- pointer to one is its number there.
pub mod Coherence
pub mod Removal
pub mod Retiring
pub mod Waiting
use lux_polaris.Prelude.{
  ℕ, ◌+◌, ◌*◌, ◌≡◌, Bool, true, false, not, ◌&&◌, ◌||◌, List, [], ◌∷◌, ◌++◌, Option, none, some,
  Outcome, ok, fault, assertion_failed, fatal_log, ◌>>=◌, ◌>>◌, assert, if◌then◌else◌, ltb, leb,
  ◌==◌, length, update, is_some, holds,
}
use lux_polaris.Channel.{Channel, Mask, Index, new, added, deleted, is_none_event, Change, change}

-- EPOLL_CTL_ADD, EPOLL_CTL_MOD and EPOLL_CTL_DEL.
pub data Operation : Type 0 where
  add modify delete : Operation

-- epoll(7): what a descriptor is registered with, and epoll_ctl(2), which fails with `none`. The
-- laws say what a call that succeeds does, and that a registered descriptor can be deleted.
pub record Epoll : Type 1 where
  pub State : Type 0
  pub registered : State → ℕ → Option (ℕ × Mask)
  pub ctl : Operation → ℕ → ℕ × Mask → State → Option State
  pub ctl-add :
      (fd : ℕ) (e : ℕ × Mask) (s : State) {s' : State}
      → ctl add fd e s ≡ some s'
      → (j : ℕ) → registered s' j ≡ update (registered s) fd (some e) j
  pub ctl-modify :
      (fd : ℕ) (e : ℕ × Mask) (s : State) {s' : State}
      → ctl modify fd e s ≡ some s'
      → (j : ℕ) → registered s' j ≡ update (registered s) fd (some e) j
  pub ctl-delete :
      (fd : ℕ) (e : ℕ × Mask) (s : State)
      → is_some (registered s fd) ≡ true
      → (s' : State) × (ctl delete fd e s ≡ some s')
        × ((j : ℕ) → registered s' j ≡ update (registered s) fd none j)

module _ (epoll : Epoll) where
  open epoll use {State, ctl}

  -- `channels_`, the channels themselves, and what the system holds.
  pub record Poller : Type 0 where
    pub channels : ℕ → Option ℕ
    pub heap : ℕ → Channel
    pub kernel : State

  -- `EPollPoller::update` for the channel `c`: epoll_ctl, and the abort when anything but a deletion
  -- fails.
  unfoldable pub ctl_or_die : Operation → ℕ → Channel → Poller → Outcome Poller
  ctl_or_die op id c p = elim (ctl op c.fd (id, c.events) p.kernel) [
    | some s ↦ ok (record p { kernel = s })
    | none ↦ elim op [ delete ↦ ok p | add ↦ fault fatal_log | modify ↦ fault fatal_log ]
  ]

  abbrev pub put : ℕ → Channel → Poller → Poller
  put id c p = record p { heap = update p.heap id c }

  -- `EPollPoller::updateChannel` for the channel `c`, by its index.
  unfoldable pub update_by : Index → ℕ → Channel → Poller → Outcome Poller
  unfolding ctl_or_die
  update_by new id c p = do
    assert (not (is_some (p.channels c.fd)))
    let c' : Channel = record c { index = added }
    ctl_or_die add id c' (put id c' (record p { channels = update p.channels c.fd (some id) }))
  update_by deleted id c p = do
    assert (is_some (p.channels c.fd))
    assert (holds (p.channels c.fd) id)
    let c' : Channel = record c { index = added }
    ctl_or_die add id c' (put id c' p)
  update_by added id c p = do
    assert (is_some (p.channels c.fd))
    assert (holds (p.channels c.fd) id)
    if is_none_event c
        then ctl_or_die delete id c p >>= (λ q. ok (put id (record c { index = deleted }) q))
        else ctl_or_die modify id c p

  unfoldable pub update_channel : ℕ → Poller → Outcome Poller
  unfolding update_by
  update_channel id p = update_by (p.heap id).index id (p.heap id) p

  -- `EPollPoller::removeChannel` for the channel `c`, behind its first assertions, by its index; kNew
  -- fails the assertion on it.
  unfoldable pub remove_by : Index → ℕ → Channel → Poller → Outcome Poller
  unfolding ctl_or_die
  remove_by added id c p =
      ctl_or_die delete id c (record p { channels = update p.channels c.fd none })
      >>= (λ q. ok (put id (record c { index = new }) q))
  remove_by deleted id c p =
      ok (put id (record c { index = new }) (record p { channels = update p.channels c.fd none }))
  remove_by new id c p = fault assertion_failed

  unfoldable pub remove_from : ℕ → Channel → Poller → Outcome Poller
  unfolding remove_by
  remove_from id c p = do
    assert (is_some (p.channels c.fd))
    assert (holds (p.channels c.fd) id)
    assert (is_none_event c)
    remove_by c.index id c p

  unfoldable pub remove_channel : ℕ → Poller → Outcome Poller
  unfolding remove_from
  remove_channel id p = remove_from id (p.heap id) p

  -- `Poller::hasChannel`
  unfoldable pub has_channel : ℕ → Poller → Bool
  has_channel id p = holds (p.channels (p.heap id).fd) id

  -- What `Channel::update` does behind the loop's checks.
  unfoldable pub set_events : Change → ℕ → Poller → Outcome Poller
  unfolding update_channel
  set_events ch id p = update_channel id (put id c' p)
    where
      c' : Channel
      c' = record (p.heap id) { events = change ch (p.heap id).events; added_to_loop = true }

  -- What `Channel::remove` does besides the loop's checks.
  unfoldable pub remove : ℕ → Poller → Outcome Poller
  unfolding remove_channel
  remove id p = do
    assert (is_none_event (p.heap id))
    remove_channel id (put id (record (p.heap id) { added_to_loop = false }) p)
