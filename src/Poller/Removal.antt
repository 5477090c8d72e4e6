-- ===== src/Poller/Removal.antt =====
-- `Channel::remove`: the channel leaves the map and the system.
use lux_polaris.Prelude.{
  ℕ, ◌≡◌, refl, true, false, none, some, Outcome, ok, arith, update, update_self, ==_self,
}
use lux_polaris.Channel.{Channel, Index, new, added, deleted, is_none_event}
use lux_polaris.Poller.{Epoll, Poller, ctl_or_die, put, remove_by, remove_from, remove, has_channel}
use lux_polaris.Poller.Coherence.{is_new, Coherent, left}

module _ (epoll : Epoll) {p : Poller epoll} (v : Coherent epoll p) (id : ℕ) where
  abbrev pub c : Channel
  c = p.heap id

  abbrev pub unlinked : Channel
  unlinked = record c { added_to_loop = false }

  abbrev before : Poller epoll
  before = put epoll id unlinked p

  abbrev pub outside : Channel
  outside = record unlinked { index = new }

  -- The call returns to a poller that agrees with the system and no longer has the channel, which is
  -- new again and in no loop, and otherwise as it was.
  abbrev pub Removed : Outcome (Poller epoll) → Type 0
  Removed o =
      (q : Poller epoll) × (o ≡ ok q)
      × Coherent epoll q
      × (has_channel epoll id q ≡ false)
      × (q.heap id ≡ outside)

  module _ (at : p.channels c.fd ≡ some id) where
    remove_by-deleted : c.index ≡ deleted → Removed (remove_by epoll deleted id unlinked before)
    unfolding remove_by has_channel
    remove_by-deleted is =
        let q : Poller epoll =
          put epoll id outside (record before { channels = update p.channels c.fd none }) in
        (
          q,
          refl,
          left epoll v id outside refl refl at (λ j. refl) (λ j. ground arith)
              (λ j. ground (arith, v.watched c.fd)),
          ground arith,
          ground arith,
        )

    remove_by-added : c.index ≡ added → Removed (remove_by epoll added id unlinked before)
    unfolding remove_by has_channel ctl_or_die
    remove_by-added is =
        let (s, e, gone) =
          epoll.ctl-delete c.fd (id, c.events) p.kernel (ground (arith, v.watched c.fd)) in
        let q : Poller epoll =
          put epoll id outside
            (record before { channels = update p.channels c.fd none; kernel = s }) in
        (
          q,
          rw (e, remove_by, ctl_or_die),
          left epoll v id outside refl refl at (λ j. refl) (λ j. ground arith) gone,
          ground arith,
          ground arith,
        )

  -- A registered channel that waits for nothing is removed. No assertion fails.
  pub remove-Removed : is_new c.index ≡ false → is_none_event c ≡ true → Removed (remove epoll id p)
  unfolding remove remove_from
  remove-Removed n idle =
      rw (idle, update_self p.heap id unlinked, idle, at, ==_self id) (by_index c.index refl)
    where
      at : p.channels c.fd ≡ some id
      at = v.listed id n

      by_index : (i : Index) → c.index ≡ i → Removed (remove_by epoll i id unlinked before)
      by_index new e = absurd (ground arith)
      by_index deleted e = remove_by-deleted at e
      by_index added e = remove_by-added at e
