-- ===== src/Sockets.antt =====
-- LuxPolaris/src/Sockets.cc and include/Sockets.h: the wrappers of the system's calls. What a call
-- answers is an argument. The conversions of addresses stand in InetAddress.
pub mod SelfConnect
pub mod Options
use lux_polaris.Prelude.{
  ℕ, ◌≡◌, Bool, true, false, ◌&&◌, List, [], ◌∷◌, Option, none, some, Outcome, ok, fault, fatal_log,
  ◌>>=◌, if◌then◌else◌, ◌==◌,
}
use lux_polaris.Buffer.Ints.{Host}
use lux_polaris.InetAddress.{
  Family, unspecified, inet, inet6, is_inet, is_inet6, InetAddress, zeroed,
}

-- The errno of a failed accept4(2).
pub data AcceptErrno : Type 0 where
  eagain econnaborted eintr eproto eperm emfile : AcceptErrno
  ebadf efault einval enfile enobufs enomem enotsock eopnotsupp : AcceptErrno
  unknown : ℕ → AcceptErrno

pub data Accepted : Type 0 where
  accepted : ℕ → InetAddress → Accepted
  refused : AcceptErrno → Accepted

abbrev pub is_expected : AcceptErrno → Bool
is_expected eagain = true
is_expected econnaborted = true
is_expected eintr = true
is_expected eproto = true
is_expected eperm = true
is_expected emfile = true
is_expected _ = false

-- `createNonblockingOrDie`, `bindOrDie` and `listenOrDie`; the results are those of the system.
abbrev pub create_nonblocking_or_die : Option ℕ → Outcome ℕ
create_nonblocking_or_die none = fault fatal_log
create_nonblocking_or_die (some sockfd) = ok sockfd

abbrev pub bind_or_die : Bool → Outcome (Unit {0})
bind_or_die bound = if bound then ok tt else fault fatal_log

abbrev pub listen_or_die : Bool → Outcome (Unit {0})
listen_or_die listens = if listens then ok tt else fault fatal_log

-- `sockets::accept`: the descriptor, or -1 with errno. Behind a fatal message nothing runs.
unfoldable pub accept_or_die : Accepted → Outcome Accepted
accept_or_die (accepted connfd address) = ok (accepted connfd address)
accept_or_die (refused saved_errno) =
    if is_expected saved_errno then ok (refused saved_errno) else fault fatal_log

-- The address is set where there is a descriptor.
abbrev pub with_peer : InetAddress → Accepted → Accepted × InetAddress
with_peer peer (accepted connfd address) = (accepted connfd address, address)
with_peer peer (refused saved_errno) = (refused saved_errno, peer)

-- `Socket::accept`, with `*peeraddr` after it.
unfoldable pub accept : Accepted → InetAddress → Outcome (Accepted × InetAddress)
accept reply peer = accept_or_die reply >>= λ a. ok (with_peer peer a)

-- `getSocketError`: the value of SO_ERROR, or the errno of the failed call.
pub data SocketError : Type 0 where
  optval : ℕ → SocketError
  call_failed : ℕ → SocketError

abbrev pub get_socket_error : SocketError → ℕ
get_socket_error (optval value) = value
get_socket_error (call_failed errno) = errno

-- `memcmp` of two addresses
abbrev pub same_bytes : List ℕ → List ℕ → Bool
same_bytes [] [] = true
same_bytes (x ∷ xs) (y ∷ ys) = (x == y) && same_bytes xs ys
same_bytes _ _ = false

module _ (host : Host) where
  -- `getLocalAddr` and `getPeerAddr`; where the call fails the address stays zero.
  abbrev pub get_local_addr : Option InetAddress → InetAddress
  get_local_addr none = zeroed host
  get_local_addr (some local) = local

  abbrev pub get_peer_addr : Option InetAddress → InetAddress
  get_peer_addr none = zeroed host
  get_peer_addr (some peer) = peer

  unfoldable pub is_self_connect : Option InetAddress → Option InetAddress → Bool
  is_self_connect getsockname getpeername =
      let local = get_local_addr getsockname in
      let peer = get_peer_addr getpeername in
      if is_inet local.family
      then (local.port == peer.port) && (local.word == peer.word)
      else if is_inet6 local.family
      then (local.port == peer.port) && same_bytes local.addr6 peer.addr6
      else false
