-- ===== src/Buffer/Refinement.antt =====
-- LuxPolaris/src/include/Buffer.h as a queue of bytes: what its users may rely on, whatever the
-- indices and the storage are.
use lux_polaris.Prelude.{
  ℕ, ◌+◌, ◌-◌, ◌^◌, ◌≤◌, ◌<◌, ◌≡◌, refl, sym, ap, ◌∙◌, subst, List, [], ◌∷◌, ◌++◌, Outcome, ok,
  ◌>>=◌, arith, length, take, drop,
}
use lux_polaris.Prelude.Words.{max_size}
use lux_polaris.Buffer.{
  Buffer, cheap_prepend, readable_bytes, append, prepend, retrieve, retrieve_all,
  retrieve_as_string, unwrite, shrink,
}
use lux_polaris.Buffer.Ints.{Host, append_int, prepend_int, big_endian}
use lux_polaris.Buffer.Invariant.{IsValid, contents, length-contents, Yields}
use lux_polaris.Buffer.Contents.Queue.{
  append_lem, prepend_lem, retrieve_lem, retrieve_as_string_lem, unwrite_lem, shrink_lem,
}
use lux_polaris.Buffer.Contents.Network.{append_int_lem, prepend_int_lem}

pub data Operation : Type 0 where
  appends prepends : List ℕ → Operation
  appends_int prepends_int : ℕ → ℕ → Operation
  retrieves reads unwrites shrinks : ℕ → Operation
  clears : Operation

-- The abstract queue: what a call returns, and the bytes after it.
abbrev pub serve : Operation → List ℕ → List ℕ × List ℕ
serve (appends bytes) q = ([], q ++ bytes)
serve (prepends bytes) q = ([], bytes ++ q)
serve (appends_int w x) q = ([], q ++ big_endian w x)
serve (prepends_int w x) q = ([], big_endian w x ++ q)
serve (retrieves n) q = ([], drop n q)
serve (reads n) q = (take n q, drop n q)
serve (unwrites n) q = ([], take (length q - n) q)
serve (shrinks n) q = ([], q)
serve clears q = ([], [])

abbrev pub serve_all : List Operation → List ℕ → List ℕ × List ℕ
serve_all [] q = ([], q)
serve_all (o ∷ os) q =
    let first = serve o q in let rest = serve_all os first.1 in (first.0 ++ rest.0, rest.1)

-- What the asserts ask of the caller, and that a vector can hold the bytes.
abbrev pub Allowed : Operation → Buffer → Type 0
Allowed (appends bytes) b = b.writer_index + length bytes ≤ max_size
Allowed (prepends bytes) b = length bytes ≤ b.reader_index
Allowed (appends_int w x) b = (x < 256 ^ w) × (b.writer_index + w ≤ max_size)
Allowed (prepends_int w x) b = (x < 256 ^ w) × (w ≤ b.reader_index)
Allowed (retrieves n) b = n ≤ readable_bytes b
Allowed (reads n) b = n ≤ readable_bytes b
Allowed (unwrites n) b = n ≤ readable_bytes b
Allowed (shrinks n) b = readable_bytes b + n + cheap_prepend ≤ max_size
Allowed clears b = Unit {0}

abbrev silent : Outcome Buffer → Outcome (List ℕ × Buffer)
silent o = o >>= λ b. ok ([], b)

module _ (host : Host) where
  abbrev pub call : Operation → Buffer → Outcome (List ℕ × Buffer)
  call (appends bytes) b = silent (append bytes b)
  call (prepends bytes) b = silent (prepend bytes b)
  call (appends_int w x) b = silent (append_int host w x b)
  call (prepends_int w x) b = silent (prepend_int host w x b)
  call (retrieves n) b = silent (retrieve n b)
  call (reads n) b = retrieve_as_string n b
  call (unwrites n) b = silent (unwrite n b)
  call (shrinks n) b = silent (shrink n b)
  call clears b = ok ([], retrieve_all b)

  abbrev pub call_each : List Operation → Buffer → Outcome (List ℕ × Buffer)
  call_each [] b = ok ([], b)
  call_each (o ∷ os) b =
      call o b >>= λ first. call_each os first.1 >>= λ rest. ok (first.0 ++ rest.0, rest.1)

  abbrev pub AllAllowed : List Operation → Buffer → Type 0
  AllAllowed [] b = Unit {0}
  AllAllowed (o ∷ os) b =
      Allowed o b × ((out : List ℕ) (r : Buffer) → call o b ≡ ok (out, r) → AllAllowed os r)

  -- The call returns what the queue returns, to a valid buffer that holds what the queue holds.
  abbrev pub Refines : List ℕ × List ℕ → Outcome (List ℕ × Buffer) → Type 0
  Refines s o = (r : Buffer) × (o ≡ ok (s.0, r)) × IsValid r × (contents r ≡ s.1)

  silently : {o : Outcome Buffer} (q : List ℕ) → Yields o q → Refines ([], q) (silent o)
  silently q (r, e, w, all) = (r, ap silent e, w, all)

  module _ {b : Buffer} (v : IsValid b) where
    emptied : IsValid (retrieve_all b) × (contents (retrieve_all b) ≡ [])
    unfolding retrieve_all
    emptied = (omega (arith, v), refl)

    call-Refines : (o : Operation) → Allowed o b → Refines (serve o (contents b)) (call o b)
    call-Refines (appends bytes) fits = silently _ (append_lem v bytes fits)
    call-Refines (prepends bytes) fits = silently _ (prepend_lem v bytes fits)
    call-Refines (appends_int w x) (small, fits) = silently _ (append_int_lem host v w x small fits)
    call-Refines (prepends_int w x) (small, fits) =
        silently _ (prepend_int_lem host v w x small fits)
    call-Refines (retrieves n) fits = silently _ (retrieve_lem v n fits)
    call-Refines (reads n) fits = retrieve_as_string_lem v n fits
    call-Refines (unwrites n) fits = silently _ (
        subst (λ l. Yields (unwrite n b) (take (l - n) (contents b))) (sym (length-contents v))
          (unwrite_lem v n fits))
    call-Refines (shrinks n) fits = silently _ (shrink_lem v n fits)
    call-Refines clears fits = (retrieve_all b, refl, emptied.0, emptied.1)

  abbrev and_rest : List Operation → Outcome (List ℕ × Buffer) → Outcome (List ℕ × Buffer)
  and_rest os o = o >>= λ first. call_each os first.1 >>= λ rest. ok (first.0 ++ rest.0, rest.1)

  first_then :
      (o : Operation) (os : List Operation) (b : Buffer)
      → Refines (serve o (contents b)) (call o b)
      → ((out : List ℕ) (r : Buffer)
          → call o b ≡ ok (out, r)
          → IsValid r
          → Refines (serve_all os (contents r)) (call_each os r))
      → Refines (serve_all (o ∷ os) (contents b)) (call_each (o ∷ os) b)
  first_then o os b (r, e, w, all) rest =
      let (last, e', w', all') =
        subst (λ q. Refines (serve_all os q) (call_each os r)) all (rest _ r e w) in
      (
        last,
        ap (and_rest os) e
            ∙ ap (λ x. x >>= λ next. ok ((serve o (contents b)).0 ++ next.0, next.1)) e',
        w',
        all',
      )

  -- Every sequence of calls of a buffer returns what the same calls of a plain queue of bytes return,
  -- and leaves a valid buffer whose readable bytes are those of the queue, however the storage was
  -- grown, moved or shrunk on the way. Each call keeps what its assertions ask of the caller, and
  -- what a vector can hold.
  pub call_each-Refines :
      (os : List Operation) {b : Buffer} (v : IsValid b)
      → AllAllowed os b
      → Refines (serve_all os (contents b)) (call_each os b)
  call_each-Refines [] {b} v allowed = (b, refl, v, refl)
  call_each-Refines (o ∷ os) {b} v (fits, allowed) =
      first_then o os b (call-Refines v o fits)
        (λ out r e w. call_each-Refines os w (allowed out r e))
