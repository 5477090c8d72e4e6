-- ===== src/Buffer/Contents/Queue.antt =====
-- The buffer as a queue of bytes: what each operation does to the readable ones.
use native.Mathlib.Decide.{dec_lt}
use lux_polaris.Prelude.{
  ℕ, ◌+◌, ◌-◌, ◌≤◌, ◌<◌, ◌≡◌, refl, sym, ap, ap₂, ◌∙◌, List, [], ◌++◌, take, drop, Outcome, ok,
  fault, assertion_failed, arith, length, slice, slice-add, length-write_at, slice-write_at_self,
  le→ltb_false, slice-write_at_before, slice-write_at_after, drop-slice, take-slice, drop-all,
  take-all, length-replicate, replicate, write_at,
}
use lux_polaris.Prelude.Words.{max_size, add_size}
use lux_polaris.Buffer.{
  Buffer, cheap_prepend, initial_size, readable_bytes, retrieve, retrieve_all, retrieve_as_string,
  retrieve_all_as_string, to_string_piece, unwrite, append, prepend, shrink, new,
  ensure_writable_bytes, resize,
}
use lux_polaris.Buffer.Invariant.{IsValid, contents, Yields, length-contents}
use lux_polaris.Buffer.Contents.Space.{MakesRoom, ensure_writable_bytes_lem}

module _ {b : Buffer} (v : IsValid b) (bytes : List ℕ) where
  -- `bytes` written behind the readable ones, where there is room
  abbrev pub filled : Buffer
  filled = record b {
    buffer = write_at b.writer_index bytes b.buffer;
    writer_index = b.writer_index + length bytes;
  }

  module _ (room : b.writer_index + length bytes ≤ length b.buffer) where
    pub filled-IsValid : IsValid filled
    filled-IsValid = omega (arith, length-write_at b.writer_index bytes b.buffer)

    pub filled-contents : contents filled ≡ contents b ++ bytes
    filled-contents =
        ap (λ n. slice b.reader_index n filled.buffer) count
        ∙ slice-add b.reader_index (b.writer_index - b.reader_index) (length bytes) filled.buffer
        ∙ ap₂ ◌++◌
            (slice-write_at_before b.reader_index (b.writer_index - b.reader_index) b.writer_index
              bytes b.buffer (omega arith))
            (ap (λ i. slice i (length bytes) filled.buffer) place
              ∙ slice-write_at_self b.writer_index bytes b.buffer room)
      where
        count :
            b.writer_index + length bytes - b.reader_index
            ≡ b.writer_index - b.reader_index + length bytes
        count = omega arith

        place : b.reader_index + (b.writer_index - b.reader_index) ≡ b.writer_index
        place = omega arith

module _ {b : Buffer} (v : IsValid b) where
  -- `append` puts the bytes behind those that are readable, if the storage that this takes in the
  -- worst case is one that a vector can have. No assertion fails and no copy leaves the storage.
  pub append_lem :
      (bytes : List ℕ)
      → b.writer_index + length bytes ≤ max_size
      → Yields (append bytes b) (contents b ++ bytes)
  unfolding append
  append_lem bytes fits =
      let (r, e, w, same, room) = ensure_writable_bytes_lem v (length bytes) fits in
      (
        filled w bytes,
        rw (e, append) (ground (arith, length-write_at r.writer_index bytes r.buffer)),
        filled-IsValid w bytes room,
        filled-contents w bytes room ∙ ap (λ c. c ++ bytes) same,
      )

  -- `retrieve` drops the oldest bytes, and resets both indices when none is left.
  pub retrieve_lem :
      (len : ℕ) → len ≤ readable_bytes b → Yields (retrieve len b) (drop len (contents b))
  unfolding retrieve
  retrieve_lem len h = elim (dec_lt len (readable_bytes b)) [
    | yes some_left ↦ (
      record b { reader_index = b.reader_index + len },
      ground arith,
      omega arith,
      ap (λ n. slice (b.reader_index + len) n b.buffer) (omega arith)
          ∙ sym (
              drop-slice len b.reader_index (b.writer_index - b.reader_index) b.buffer
                (omega arith)),
    )
    | no none_left ↦ (
      retrieve_all b,
      ground arith,
      omega arith,
      sym (drop-all len (contents b) (omega (arith, length-contents v))),
    )
  ]

  -- `prepend` puts the bytes in front of those that are readable.
  pub prepend_lem :
      (bytes : List ℕ)
      → length bytes ≤ b.reader_index
      → Yields (prepend bytes b) (bytes ++ contents b)
  unfolding prepend
  prepend_lem bytes h = (
    fronted,
    ground arith,
    omega (arith, length-write_at start bytes b.buffer),
    ap (λ n. slice start n fronted.buffer) count
        ∙ slice-add start (length bytes) (b.writer_index - b.reader_index) fronted.buffer
        ∙ ap₂ ◌++◌ (slice-write_at_self start bytes b.buffer (omega arith)) (
            slice-write_at_after _ _ start bytes b.buffer (omega arith)
            ∙ ap (λ i. slice i (b.writer_index - b.reader_index) b.buffer) place),
  )
    where
      start : ℕ
      start = b.reader_index - length bytes

      fronted : Buffer
      fronted = record b { buffer = write_at start bytes b.buffer; reader_index = start }

      count : b.writer_index - start ≡ length bytes + (b.writer_index - b.reader_index)
      count = omega arith

      place : start + length bytes ≡ b.reader_index
      place = omega arith

  -- `unwrite` takes back the newest bytes.
  pub unwrite_lem :
      (len : ℕ)
      → len ≤ readable_bytes b
      → Yields (unwrite len b) (take (readable_bytes b - len) (contents b))
  unfolding unwrite
  unwrite_lem len h = (
    record b { writer_index = b.writer_index - len },
    ground arith,
    omega arith,
    ap (λ n. slice b.reader_index n b.buffer) (omega arith)
        ∙ sym (
            take-slice (readable_bytes b - len) b.reader_index (b.writer_index - b.reader_index)
              b.buffer (omega arith)),
  )

  -- More bytes than are readable are refused by the assertion.
  pub retrieve_too_many :
      (len : ℕ) → readable_bytes b < len → retrieve len b ≡ fault assertion_failed
  unfolding retrieve
  retrieve_too_many len h = ground arith

  pub to_string_piece_lem : to_string_piece b ≡ ok (contents b)
  unfolding to_string_piece
  to_string_piece_lem = ground arith

  -- `retrieveAsString` returns the oldest bytes and drops them.
  pub retrieve_as_string_lem :
      (len : ℕ)
      → len ≤ readable_bytes b
      → (r : Buffer) × (retrieve_as_string len b ≡ ok (take len (contents b), r))
        × IsValid r
        × (contents r ≡ drop len (contents b))
  unfolding retrieve_as_string
  retrieve_as_string_lem len h =
      let (r, e, w, rest) = retrieve_lem len h in
      (
        r,
        ground (arith, take-slice len b.reader_index (b.writer_index - b.reader_index) b.buffer),
        w,
        rest,
      )

  -- `retrieveAllAsString` returns the readable bytes, and leaves none.
  pub retrieve_all_as_string_lem :
      (r : Buffer) × (retrieve_all_as_string b ≡ ok (contents b, r)) × IsValid r × (contents r ≡ [])
  unfolding retrieve_all_as_string
  retrieve_all_as_string_lem =
      let (r, e, w, rest) = retrieve_as_string_lem (readable_bytes b) (omega arith) in
      (
        r,
        ground (arith, take-all (readable_bytes b) (contents b), length-contents v),
        w,
        rest ∙ drop-all (readable_bytes b) (contents b) (omega (arith, length-contents v)),
      )

  retrieve_all-Yields : Yields (ok (retrieve_all b)) []
  unfolding retrieve_all
  retrieve_all-Yields = (retrieve_all b, refl, omega arith, refl)

resize_empty : (n : ℕ) → n ≤ max_size → resize n [] ≡ ok (replicate n 0)
resize_empty n h =
    rw (le→ltb_false max_size n h)
      (ap ok (ap₂ ◌++◌ (take-all n [] (omega arith)) (ap (λ k. replicate k 0) (omega arith))))

-- The call returns, to a valid buffer with no byte but the front area before its indices.
abbrev pub IsNew : Outcome Buffer → Type 0
IsNew o =
    (b : Buffer) × (o ≡ ok b) × IsValid b × (contents b ≡ []) × (b.writer_index ≡ cheap_prepend)

new_on :
    (size : ℕ) (buffer : List ℕ)
    → cheap_prepend + size ≤ max_size
    → resize (add_size cheap_prepend size) [] ≡ ok buffer
    → length buffer ≡ cheap_prepend + size
    → IsNew (new size)
unfolding new
new_on size buffer h e n = (
  record { buffer = buffer; reader_index = cheap_prepend; writer_index = cheap_prepend },
  rw e (ground arith),
  omega arith,
  refl,
  refl,
)

-- A new buffer is valid and empty.
pub new_lem : (size : ℕ) → cheap_prepend + size ≤ max_size → IsNew (new size)
new_lem size h =
    new_on size (replicate (cheap_prepend + size) 0) h
      (rw same (resize_empty (cheap_prepend + size) h))
      (length-replicate {A = ℕ} (cheap_prepend + size) 0)
  where
    same : add_size cheap_prepend size ≡ cheap_prepend + size
    same = omega arith

module _ {b : Buffer} (v : IsValid b) (reserve : ℕ) where
  shrink_into :
      {fresh : Buffer}
      → new initial_size ≡ ok fresh
      → contents fresh ≡ []
      → MakesRoom fresh
          (readable_bytes b + reserve)
          (ensure_writable_bytes (readable_bytes b + reserve) fresh)
      → readable_bytes b + reserve ≤ max_size
      → Yields (shrink reserve b) (contents b)
  unfolding shrink
  shrink_into made none_yet (roomy, e, w, same, room) h =
      let (full, filled, w', all) = append_lem w (contents b) (omega (arith, length-contents v)) in
      (
        full,
        ground (arith, to_string_piece_lem v),
        w',
        all ∙ ap (λ c. c ++ contents b) (same ∙ none_yet),
      )

  shrink_from :
      readable_bytes b + reserve + cheap_prepend ≤ max_size
      → IsNew (new initial_size)
      → Yields (shrink reserve b) (contents b)
  shrink_from h (fresh, e, w, none_yet, start) =
      shrink_into e none_yet
        (ensure_writable_bytes_lem w (readable_bytes b + reserve) (omega arith)) (omega arith)

  -- `shrink` keeps the readable bytes, if they, the reserve and the front area fit a vector.
  pub shrink_lem :
      readable_bytes b + reserve + cheap_prepend ≤ max_size → Yields (shrink reserve b) (contents b)
  shrink_lem h = shrink_from h (new_lem initial_size (omega arith))
