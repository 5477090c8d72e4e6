-- ===== src/Connector/Delay.antt =====
-- The delays between the attempts of a connector.
use lux_polaris.Prelude.{ℕ, ◌*◌, ◌^◌, ◌≡◌, ◌∙◌, true, arith, min, List, [], ◌∷◌, length}
use native.Mathlib.Numerals.{unary_clauses}
use lux_polaris.Connector.{Connector, retry, init_retry_delay_ms, max_retry_delay_ms}

-- One attempt after the other fails; the last descriptor stands first.
abbrev pub retries : List ℕ → Connector → Connector
retries [] c = c
retries (sockfd ∷ fds) c = retry sockfd (retries fds c)

module _ (sockfd : ℕ) (c : Connector) (wanted : c.connect ≡ true) where
  retry-wanted : (retry sockfd c).connect ≡ true
  unfolding retry
  retry-wanted = ground arith

  retry-delay : (retry sockfd c).retry_delay_ms ≡ min (c.retry_delay_ms * 2) max_retry_delay_ms
  unfolding retry
  retry-delay = ground arith

retries-wanted : (fds : List ℕ) (c : Connector) → c.connect ≡ true → (retries fds c).connect ≡ true
retries-wanted [] c h = h
retries-wanted (sockfd ∷ fds) c h = retry-wanted sockfd (retries fds c) (retries-wanted fds c h)

doubled : (p d m : ℕ) → d ≡ min (500 * p) m → min (d * 2) m ≡ min (500 * (p * 2)) m
doubled p d m h = omega arith

-- Every failed attempt doubles the delay, from 500 ms up to 30 s, where it stays: after `n` of them
-- the next delay is the smaller one of 500 * 2 ^ n and 30000.
pub retries_lem :
    (fds : List ℕ) (c : Connector)
    → c.connect ≡ true
    → c.retry_delay_ms ≡ init_retry_delay_ms
    → (retries fds c).retry_delay_ms ≡ min (init_retry_delay_ms * 2 ^ length fds) max_retry_delay_ms
retries_lem [] c wanted first = first
retries_lem (sockfd ∷ fds) c wanted first = simp unary_clauses (
    retry-delay sockfd (retries fds c) (retries-wanted fds c wanted)
    ∙ doubled (2 ^ length fds) _ max_retry_delay_ms (retries_lem fds c wanted first))
