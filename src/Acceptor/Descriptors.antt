-- ===== src/Acceptor/Descriptors.antt =====
-- The descriptors of an acceptor.
use lux_polaris.Prelude.{
  ℕ, ◌+◌, ◌≡◌, List, [], ◌∷◌, Option, none, some, Bool, true, false, ok, fault, fatal_log, arith,
  Outcome, ◌>>=◌, ◌&&◌, ◌⊎◌, inl, inr, ap, ◌∙◌, refl, Bool-cases, if◌then◌else◌, ◌==◌,
}
use lux_polaris.Acceptor.{
  Action, accepts, opens, closes, hands_over, Acceptor, answered, handle_read, turn_away, Answers,
  make, listen, destruct,
}
use lux_polaris.Buffer.Ints.{Host}
use lux_polaris.InetAddress.{InetAddress, of_port}
use lux_polaris.Sockets.{
  Accepted, with_peer, accepted, refused, is_expected, accept, accept_or_die, eagain, econnaborted,
  eintr, eproto, eperm, emfile, ebadf, efault, einval, enfile, enobufs, enomem, enotsock,
  eopnotsupp, unknown,
}

-- How often a descriptor was got, and how often it was closed or handed over.
abbrev pub gained : ℕ → List Action → ℕ
gained n [] = 0
gained n (accepts fd ∷ log) = (if fd == n then 1 else 0) + gained n log
gained n (opens fd ∷ log) = (if fd == n then 1 else 0) + gained n log
gained n (_ ∷ log) = gained n log

abbrev pub let_go : ℕ → List Action → ℕ
let_go n [] = 0
let_go n (closes fd ∷ log) = (if fd == n then 1 else 0) + let_go n log
let_go n (hands_over fd peer ∷ log) = (if fd == n then 1 else 0) + let_go n log
let_go n (_ ∷ log) = let_go n log

abbrev held : ℕ → Option ℕ → ℕ
held n none = 0
held n (some fd) = if fd == n then 1 else 0

-- A descriptor was got as often as it was closed or handed over, and once more if it is the listening
-- one or the idle one.
abbrev IsBalanced : ℕ → Acceptor → Type 0
IsBalanced n c =
    gained n c.log ≡ let_go n c.log + (if c.accept_fd == n then 1 else 0) + held n c.idle_fd

-- `handleRead` leaks no descriptor: each connection that it accepts is handed over or closed, also
-- when the process has no descriptor left.
answered-IsBalanced :
    (n : ℕ) (a : Accepted × InetAddress) (taken reopened : Option ℕ) (c : Acceptor)
    → IsBalanced n c
    → IsBalanced n (answered a taken reopened c)
unfolding turn_away
answered-IsBalanced n (accepted fd address, peer) taken reopened c v = ground (arith, v)
answered-IsBalanced n (refused emfile, peer) taken reopened c v = ground (arith, v)
answered-IsBalanced n (refused eagain, peer) taken reopened c v = v
answered-IsBalanced n (refused econnaborted, peer) taken reopened c v = v
answered-IsBalanced n (refused eintr, peer) taken reopened c v = v
answered-IsBalanced n (refused eproto, peer) taken reopened c v = v
answered-IsBalanced n (refused eperm, peer) taken reopened c v = v
answered-IsBalanced n (refused ebadf, peer) taken reopened c v = v
answered-IsBalanced n (refused efault, peer) taken reopened c v = v
answered-IsBalanced n (refused einval, peer) taken reopened c v = v
answered-IsBalanced n (refused enfile, peer) taken reopened c v = v
answered-IsBalanced n (refused enobufs, peer) taken reopened c v = v
answered-IsBalanced n (refused enomem, peer) taken reopened c v = v
answered-IsBalanced n (refused enotsock, peer) taken reopened c v = v
answered-IsBalanced n (refused eopnotsupp, peer) taken reopened c v = v
answered-IsBalanced n (refused (unknown errno), peer) taken reopened c v = v

-- What accept4(2), and accept(2) and open(2), answer in one call of `handleRead`.
abbrev pub Read : Type 0
Read = Accepted × Option ℕ × Option ℕ

-- The errno is none that ends the program.
abbrev pub survives : Accepted → Bool
survives (accepted fd address) = true
survives (refused saved_errno) = is_expected saved_errno

abbrev pub survives_all : List Read → Bool
survives_all [] = true
survives_all ((reply, taken, reopened) ∷ reads) = survives reply && survives_all reads

survives_lem : (reply : Accepted) → survives reply ≡ true → accept_or_die reply ≡ ok reply
unfolding accept_or_die
survives_lem (accepted fd address) h = refl
survives_lem (refused e) h = ap (λ b. if b then ok (refused e) else fault fatal_log) h

dies_lem : (reply : Accepted) → survives reply ≡ false → accept_or_die reply ≡ fault fatal_log
unfolding accept_or_die
dies_lem (accepted fd address) h = cc
dies_lem (refused e) h = ap (λ b. if b then ok (refused e) else fault fatal_log) h

module _ (host : Host) (storage : InetAddress) where
  abbrev pub handle_reads : List Read → Acceptor → Outcome Acceptor
  handle_reads [] c = ok c
  handle_reads ((reply, taken, reopened) ∷ reads) c =
      handle_read host storage reply taken reopened c >>= handle_reads reads

  handle_read_returns :
      (reply : Accepted) (taken reopened : Option ℕ) (c : Acceptor)
      → survives reply ≡ true
      → (a : Accepted × InetAddress) × (handle_read host storage reply taken reopened c
          ≡ ok (answered a taken reopened c))
  unfolding handle_read accept
  handle_read_returns reply taken reopened c h =
      (with_peer (of_port host 0 false false storage) reply, rw (survives_lem reply h) refl)

  handle_read_dies :
      (reply : Accepted) (taken reopened : Option ℕ) (c : Acceptor)
      → survives reply ≡ false
      → handle_read host storage reply taken reopened c ≡ fault fatal_log
  unfolding handle_read accept
  handle_read_dies reply taken reopened c h = rw (dies_lem reply h) refl

  -- The calls of `handleRead` all return and leak nothing, or an errno ends the program.
  abbrev Outlives : List Read → Acceptor → Type 0
  Outlives reads c =
      ((survives_all reads ≡ true)
        × (d : Acceptor) × (handle_reads reads c ≡ ok d)
        × ((n : ℕ) → IsBalanced n d))
      ⊎ ((survives_all reads ≡ false) × (handle_reads reads c ≡ fault fatal_log))

  handle_reads_lem :
      (reads : List Read) (c : Acceptor) → ((n : ℕ) → IsBalanced n c) → Outlives reads c
  handle_reads_lem [] c v = inl (refl, c, refl, v)
  handle_reads_lem ((reply, taken, reopened) ∷ reads) c v = elim (Bool-cases (survives reply)) [
    | inr dead ↦ inr (
      rw dead refl,
      ap (λ o. o >>= handle_reads reads) (handle_read_dies reply taken reopened c dead),
    )
    | inl alive ↦
        let (a, returns) = handle_read_returns reply taken reopened c alive in
        let rest =
          handle_reads_lem reads (answered a taken reopened c)
            (λ n. answered-IsBalanced n a taken reopened c (v n)) in
        elim rest [
          | inl (all, d, e, w) ↦
              inl (rw alive all, d, ap (λ o. o >>= handle_reads reads) returns ∙ e, w)
          | inr (one, e) ↦ inr (rw alive one, ap (λ o. o >>= handle_reads reads) returns ∙ e)
        ]
  ]

make-IsBalanced :
    (n : ℕ) (has_callback : Bool) (answers : Answers) (c : Acceptor)
    → make has_callback answers ≡ ok c
    → IsBalanced n c
unfolding make
make-IsBalanced n has_callback answers c e = ground (arith, e)

listen-IsBalanced :
    (n : ℕ) (listens : Bool) (c d : Acceptor)
    → listen listens c ≡ ok d
    → IsBalanced n c
    → IsBalanced n d
unfolding listen
listen-IsBalanced n listens c d e v = ground (arith, e, v)

-- What an acceptor that was constructed has when it is gone.
closed_lem :
    (n : ℕ) (c : Acceptor) → IsBalanced n c → gained n (destruct c).log ≡ let_go n (destruct c).log
unfolding destruct
closed_lem n c v = ground (arith, v)

-- From its constructor to its destructor an acceptor leaks no descriptor, whatever accept4(2),
-- accept(2) and open(2) answer in the meantime: each descriptor was closed or handed over exactly as
-- often as the system gave it, the listening and the idle one included, also when the process has no
-- descriptor left. Only an errno that `sockets::accept` does not expect ends the program.
pub life_lem :
    (host : Host) (storage : InetAddress) (has_callback listens : Bool) (answers : Answers)
    (reads : List Read) {c d : Acceptor}
    → make has_callback answers ≡ ok c
    → listen listens c ≡ ok d
    → ((survives_all reads ≡ true)
        × (e : Acceptor) × (handle_reads host storage reads d ≡ ok e)
        × ((fd : ℕ) → gained fd (destruct e).log ≡ let_go fd (destruct e).log))
      ⊎ ((survives_all reads ≡ false) × (handle_reads host storage reads d ≡ fault fatal_log))
life_lem host storage has_callback listens answers reads {c} {d} made listening =
    elim (handle_reads_lem host storage reads d (λ n.
      listen-IsBalanced n listens c d listening (make-IsBalanced n has_callback answers c made))) [
        | inl (all, e, returns, v) ↦ inl (all, e, returns, λ n. closed_lem n e (v n))
        | inr dead ↦ inr dead
      ]
