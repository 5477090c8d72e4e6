-- ===== src/Channel.antt =====
-- LuxPolaris/src/Channel.cc and include/Channel.h: which events a descriptor waits for, and the
-- dispatch of those that came. The owner loop is not part of the record: `update` and `remove` go on
-- in Poller, which holds the channels.
use lux_polaris.Prelude.{
  Bool, true, false, not, ◌&&◌, ◌||◌, Option, none, some, ℕ, Outcome, ok, ◌>>◌, assert,
  if◌then◌else◌,
}

-- An event mask of poll(2) as the set of its bits.
pub record Mask : Type 0 where
  pub pollin : Bool
  pub pollpri : Bool
  pub pollout : Bool
  pub pollerr : Bool
  pub pollhup : Bool
  pub pollnval : Bool
  pub pollrdhup : Bool

-- `kNoneEvent`
abbrev pub none_event : Mask
none_event = record {
  pollin = false;
  pollpri = false;
  pollout = false;
  pollerr = false;
  pollhup = false;
  pollnval = false;
  pollrdhup = false;
}

-- `index_`: -1, 1 and 2 are the poller's kNew, kAdded and kDeleted.
pub data Index : Type 0 where
  new added deleted : Index

pub record Channel : Type 0 where
  pub fd : ℕ
  pub events : Mask
  pub revents : Mask
  pub index : Index
  pub tied : Bool
  pub event_handling : Bool
  pub added_to_loop : Bool

-- The constructor.
abbrev pub make : ℕ → Channel
make fd = record {
  fd = fd;
  events = none_event;
  revents = none_event;
  index = new;
  tied = false;
  event_handling = false;
  added_to_loop = false;
}

-- The destructor; `has_channel` is what the loop says of it.
unfoldable pub destruct : Bool → Bool → Channel → Outcome (Unit {0})
destruct in_loop has_channel c = do
  assert (not c.event_handling)
  assert (not c.added_to_loop)
  if in_loop then assert (not has_channel) else ok tt

abbrev pub tie : Channel → Channel
tie c = record c { tied = true }

-- No bit but the three that are ever asked for can be set in `events`; all seven are looked at.
abbrev pub is_none : Mask → Bool
is_none m =
    not (m.pollin || m.pollpri || m.pollout || m.pollerr || m.pollhup || m.pollnval || m.pollrdhup)

abbrev pub is_none_event : Channel → Bool
is_none_event c = is_none c.events

-- `kReadEvent` is POLLIN | POLLPRI, `kWriteEvent` POLLOUT.
abbrev pub is_reading : Mask → Bool
is_reading m = m.pollin || m.pollpri

abbrev pub is_writing : Mask → Bool
is_writing m = m.pollout

-- What enableReading, disableReading, enableWriting, disableWriting and disableAll do to `events_`,
-- before they call `update`.
pub data Change : Type 0 where
  enable_reading disable_reading enable_writing disable_writing disable_all : Change

abbrev pub change : Change → Mask → Mask
change enable_reading m = record m { pollin = true; pollpri = true }
change disable_reading m = record m { pollin = false; pollpri = false }
change enable_writing m = record m { pollout = true }
change disable_writing m = record m { pollout = false }
change disable_all m = none_event

-- The callbacks that are set; each acts on the state `W` of the program, as does the assignment to
-- the channel's `eventHandling_`.
pub record Handlers (W : Type 0) : Type 0 where
  pub set_event_handling : Bool → W → W
  pub on_read : Option (W → W)
  pub on_write : Option (W → W)
  pub on_close : Option (W → W)
  pub on_error : Option (W → W)

module _ {W : Type 0} where
  -- `if (callback) callback();`
  abbrev pub call : Option (W → W) → W → W
  call none w = w
  call (some f) w = f w

  -- The four tests, in the order of the source. A callback does not change `revents_`.
  unfoldable pub handle_event_with_guard : Handlers W → Mask → W → W
  handle_event_with_guard h m w =
      let start = h.set_event_handling true w in
      let closed = if m.pollhup && not m.pollin then call h.on_close start else start in
      let failed = if m.pollerr || m.pollnval then call h.on_error closed else closed in
      let read = if m.pollin || m.pollpri || m.pollrdhup then call h.on_read failed else failed in
      let wrote = if m.pollout then call h.on_write read else read in
      h.set_event_handling false wrote

  -- `alive` says whether the owner that the channel is tied to still exists.
  unfoldable pub handle_event : Handlers W → Bool → Channel → W → W
  unfolding handle_event_with_guard
  handle_event h alive c w =
      if c.tied
      then if alive then handle_event_with_guard h c.revents w else w
      else handle_event_with_guard h c.revents w
