-- ===== src/Acceptor.antt =====
-- LuxPolaris/src/Acceptor.cc: the listening socket. What it does to the outside stands in `log`, newest
-- first; what accept4(2), accept(2) and open(2) return are arguments.
pub mod Descriptors
use lux_polaris.Prelude.{
  ℕ, Bool, true, false, List, [], ◌∷◌, Option, none, some, is_some, Outcome, ok, ◌>>=◌, ◌>>◌,
  assert, if◌then◌else◌,
}
use lux_polaris.Buffer.Ints.{Host}
use lux_polaris.InetAddress.{InetAddress, of_port}
use lux_polaris.Sockets.{
  Accepted, accepted, refused, emfile, accept, create_nonblocking_or_die, bind_or_die,
  listen_or_die,
}

pub data Action : Type 0 where
  accepts opens closes : ℕ → Action
  hands_over : ℕ → InetAddress → Action

-- `accept_fd` is the descriptor of `acceptSocket_`; `idle_fd` is `none` where the source has -1.
pub record Acceptor : Type 0 where
  pub accept_fd : ℕ
  pub listening : Bool
  pub reading : Bool
  pub idle_fd : Option ℕ
  pub has_callback : Bool
  pub log : List Action

abbrev pub opened_idle : Option ℕ → List Action → List Action
opened_idle none log = log
opened_idle (some fd) log = opens fd ∷ log

abbrev pub note : Action → Acceptor → Acceptor
note a c = record c { log = a ∷ c.log }

-- What the system answers in the constructor: socket(2), open(2) of /dev/null, and whether bind(2)
-- succeeded. The options that are set do not change the course of it.
pub record Answers : Type 0 where
  pub socket : Option ℕ
  pub idle : Option ℕ
  pub bound : Bool

-- The constructor, and `setNewConnectionCallback` by `has_callback`.
unfoldable pub make : Bool → Answers → Outcome Acceptor
make has_callback answers = do
  sockfd ← create_nonblocking_or_die answers.socket
  assert (is_some answers.idle)
  bind_or_die answers.bound
  ok (record {
    accept_fd = sockfd;
    listening = false;
    reading = false;
    idle_fd = answers.idle;
    has_callback = has_callback;
    log = opened_idle answers.idle (opens sockfd ∷ []);
  })

-- `::close(idleFd_)`; closing -1 does nothing.
abbrev pub close_idle : Acceptor → Acceptor
close_idle c = elim c.idle_fd [
  | none ↦ c
  | some fd ↦ record (note (closes fd) c) { idle_fd = none }
]

-- `listen`; `listens` is whether listen(2) succeeded.
unfoldable pub listen : Bool → Acceptor → Outcome Acceptor
listen listens c = do listen_or_die listens; ok (record c { listening = true; reading = true })

-- The destructor: the channel is disabled and removed, the idle descriptor closed, and then the
-- socket's destructor closes the listening one.
unfoldable pub destruct : Acceptor → Acceptor
destruct c =
    let quiet = close_idle (record c { reading = false }) in note (closes quiet.accept_fd) quiet

-- `idleFd_ = ::accept(...)`
abbrev pub accept_idle : Option ℕ → Acceptor → Acceptor
accept_idle none c = record c { idle_fd = none }
accept_idle (some fd) c = record (note (accepts fd) c) { idle_fd = some fd }

-- `idleFd_ = ::open("/dev/null", ...)`
abbrev pub open_idle : Option ℕ → Acceptor → Acceptor
open_idle none c = record c { idle_fd = none }
open_idle (some fd) c = record (note (opens fd) c) { idle_fd = some fd }

-- The idle descriptor makes room for the connection, which is closed at once.
unfoldable pub turn_away : Option ℕ → Option ℕ → Acceptor → Acceptor
turn_away taken reopened c = open_idle reopened (close_idle (accept_idle taken (close_idle c)))

-- What `handleRead` does with what `Socket::accept` returned.
abbrev pub answered : Accepted × InetAddress → Option ℕ → Option ℕ → Acceptor → Acceptor
answered (accepted connfd address, peer_addr) taken reopened c =
    let got = note (accepts connfd) c in
    if got.has_callback then note (hands_over connfd peer_addr) got else note (closes connfd) got
answered (refused emfile, peer_addr) taken reopened c = turn_away taken reopened c
answered (refused saved_errno, peer_addr) taken reopened c = c

module _ (host : Host) (storage : InetAddress) where
  -- `handleRead`; `reply` is what accept4(2) answers, `taken` and `reopened` are what accept(2) and
  -- open(2) return on EMFILE; `storage` is what the stack held at `peerAddr`.
  unfoldable pub handle_read : Accepted → Option ℕ → Option ℕ → Acceptor → Outcome Acceptor
  handle_read reply taken reopened c =
      accept reply (of_port host 0 false false storage) >>= λ a. ok (answered a taken reopened c)
