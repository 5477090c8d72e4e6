-- ===== src/Buffer/Contents/Filling.antt =====
-- `Buffer::readFd`: what the socket delivered stands behind what was readable.
use lux_polaris.Prelude.{
  ℕ, ◌+◌, ◌-◌, ◌≤◌, ◌≡◌, sym, ap, ◌∙◌, subst, List, ◌++◌, take, drop, ok, arith, length,
  append_assoc, take-append-drop, length-take, length-drop, length-write_at, take-all, write_at,
  ◌<◌, le→leb, lt→leb_false,
}
use native.Mathlib.Decide.{dec_le}
use lux_polaris.Prelude.Words.{max_size}
use lux_polaris.Buffer.{Buffer, writable_bytes, append}
use lux_polaris.Buffer.Fill.{Reply, got, extra_size, requested, take_in, read_fd}
use lux_polaris.Buffer.Invariant.{IsValid, contents, Yields, sizes}
use lux_polaris.Buffer.Contents.Queue.{filled, filled-IsValid, filled-contents, append_lem}

requested-le : (b : Buffer) → requested b ≤ writable_bytes b + extra_size
requested-le b = ground arith

module _ {b : Buffer} (v : IsValid b) (bytes : List ℕ) where
  take_in_room : length bytes ≤ writable_bytes b → Yields (take_in bytes b) (contents b ++ bytes)
  unfolding take_in
  take_in_room h = (
    filled v bytes,
    ground (arith, take-all (writable_bytes b) bytes),
    filled-IsValid v bytes (omega arith),
    filled-contents v bytes (omega arith),
  )

  abbrev room : ℕ
  room = length b.buffer - b.writer_index

  abbrev first : List ℕ
  first = take room bytes

  abbrev rest : List ℕ
  rest = drop room bytes

  -- the storage filled to its end, before what went to `extrabuf` is appended
  abbrev brim : Buffer
  brim = record b {
    buffer = write_at b.writer_index first b.buffer;
    writer_index = length (write_at b.writer_index first b.buffer);
  }

  module _ (spills : writable_bytes b < length bytes) where
    length-first : b.writer_index + length first ≡ length b.buffer
    length-first = omega (arith, length-take room bytes)

    take_in-append : take_in bytes b ≡ append rest brim
    unfolding take_in
    take_in-append = rw (
      (sizes v).1,
      le→leb (b.writer_index + length first) (length b.buffer) (omega (arith, length-first)),
      lt→leb_false (length bytes) room (omega arith),
    )

    brim-eq : brim ≡ filled v first
    brim-eq =
        ap (λ (n : ℕ). record (filled v first) { writer_index = n })
          (omega (arith, length-first, length-write_at b.writer_index first b.buffer))

    brim-IsValid : IsValid brim
    brim-IsValid =
        subst IsValid (sym brim-eq) (filled-IsValid v first (omega (arith, length-first)))

    brim-contents : contents brim ≡ contents b ++ first
    brim-contents = ap contents brim-eq ∙ filled-contents v first (omega (arith, length-first))

    take_in_spill :
        length b.buffer + length rest ≤ max_size → Yields (take_in bytes b) (contents b ++ bytes)
    take_in_spill small =
        let (r, e, w, all) =
          append_lem brim-IsValid rest
            (omega (arith, length-write_at b.writer_index first b.buffer)) in
        (
          r,
          take_in-append ∙ e,
          w,
          all
              ∙ ap (λ c. c ++ rest) brim-contents
              ∙ append_assoc (contents b) first rest
              ∙ ap (λ c. contents b ++ c) (take-append-drop room bytes),
        )

-- When readv(2) delivers `bytes`, no more than the two areas take, and the storage is not within
-- 64 KiB of the largest that a vector can have, `readFd` returns their number, and they stand behind
-- the bytes that were readable. No assertion fails and nothing is copied outside the storage.
pub read_fd_lem :
    {b : Buffer} (v : IsValid b) (readv : ℕ → Reply) (bytes : List ℕ)
    → readv (requested b) ≡ got bytes
    → length bytes ≤ requested b
    → length b.buffer + extra_size ≤ max_size
    → (r : Buffer) × (read_fd readv b ≡ ok (got bytes, r))
      × IsValid r
      × (contents r ≡ contents b ++ bytes)
unfolding read_fd
read_fd_lem {b} v readv bytes e few small = elim (dec_le (length bytes) (writable_bytes b)) [
  | yes h ↦ finish (take_in_room v bytes h)
  | no h ↦ finish (
      take_in_spill v bytes (omega arith)
        (omega (arith, length-drop (room v bytes) bytes, requested-le b, sizes v)))
]
  where
    finish :
        Yields (take_in bytes b) (contents b ++ bytes)
        → (r : Buffer) × (read_fd readv b ≡ ok (got bytes, r))
          × IsValid r
          × (contents r ≡ contents b ++ bytes)
    finish (r, e', w, all) = (r, ground arith, w, all)
