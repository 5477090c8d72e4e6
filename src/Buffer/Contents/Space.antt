-- ===== src/Buffer/Contents/Space.antt =====
-- `makeSpace` and `ensureWritableBytes`: room is made, and the readable bytes stay.
use lux_polaris.Prelude.{
  ℕ, ◌+◌, ◌-◌, ◌≤◌, ◌<◌, ◌≡◌, refl, subst, ◌++◌, replicate, Outcome, ok, arith, length, slice,
  length-append, length-replicate, length-write_at, slice-write_at_self, slice-append_left,
  write_at, take-all,
}
use native.Mathlib.Decide.{dec_lt}
use lux_polaris.Prelude.Words.{max_size}
use lux_polaris.Buffer.{Buffer, cheap_prepend, move_to_front, make_space, ensure_writable_bytes}
use lux_polaris.Buffer.Invariant.{IsValid, contents, length-contents}

-- The call returns; the buffer is valid, holds what `b` held, and has room for `len` more bytes.
abbrev pub MakesRoom : Buffer → ℕ → Outcome Buffer → Type 0
MakesRoom b len o =
    (r : Buffer) × (o ≡ ok r)
    × IsValid r
    × (contents r ≡ contents b)
    × (r.writer_index + len ≤ length r.buffer)

module _ {b : Buffer} (v : IsValid b) where
  abbrev moved : Buffer
  moved = record {
    buffer = write_at cheap_prepend (contents b) b.buffer;
    reader_index = cheap_prepend;
    writer_index = cheap_prepend + (b.writer_index - b.reader_index);
  }

  moved-eq : cheap_prepend < b.reader_index → move_to_front b ≡ ok moved
  unfolding move_to_front
  moved-eq k = ground (arith, length-contents v)

  moved-IsValid : cheap_prepend < b.reader_index → IsValid moved
  moved-IsValid k = omega (arith, length-write_at cheap_prepend (contents b) b.buffer)

  moved-contents : cheap_prepend < b.reader_index → contents moved ≡ contents b
  moved-contents k =
      subst (λ n. slice cheap_prepend n moved.buffer ≡ contents b)
        (omega (arith, length-contents v))
        (slice-write_at_self cheap_prepend (contents b) b.buffer (omega (arith, length-contents v)))

  module _ (len : ℕ) (fits : b.writer_index + len ≤ max_size) where
    abbrev grown : Buffer
    grown = record b { buffer = b.buffer ++ replicate (b.writer_index + len - length b.buffer) 0 }

    module _ (short : length b.buffer < b.writer_index + len) where
      length-grown : length grown.buffer ≡ b.writer_index + len
      length-grown = omega (
        arith,
        length-append b.buffer (replicate (b.writer_index + len - length b.buffer) 0),
        length-replicate {A = ℕ} (b.writer_index + len - length b.buffer) 0,
      )

      grown-IsValid : IsValid grown
      grown-IsValid = omega (arith, length-grown)

      grown-contents : contents grown ≡ contents b
      grown-contents = slice-append_left _ _ b.buffer _ (omega arith)

      grown-eq :
          length b.buffer - b.writer_index + b.reader_index < len + cheap_prepend
          → make_space len b ≡ ok grown
      unfolding make_space
      grown-eq h = ground (arith, take-all (b.writer_index + len) b.buffer)

    make_space_grows :
        length b.buffer < b.writer_index + len
        → length b.buffer - b.writer_index + b.reader_index < len + cheap_prepend
        → MakesRoom b len (make_space len b)
    make_space_grows short h = (
      grown,
      grown-eq short h,
      grown-IsValid short,
      grown-contents short,
      omega (arith, length-grown short),
    )

    make_space_moves :
        length b.buffer < b.writer_index + len
        → len + cheap_prepend ≤ length b.buffer - b.writer_index + b.reader_index
        → MakesRoom b len (make_space len b)
    unfolding make_space
    make_space_moves short h = (
      moved,
      ground (arith, moved-eq),
      moved-IsValid (omega arith),
      moved-contents (omega arith),
      omega (arith, length-write_at cheap_prepend (contents b) b.buffer),
    )

    -- `makeSpace` makes room on both of its branches, whether it grows the storage or moves the
    -- readable bytes to the front, and loses none of these.
    pub make_space_lem : length b.buffer < b.writer_index + len → MakesRoom b len (make_space len b)
    make_space_lem short =
        elim (dec_lt (length b.buffer - b.writer_index + b.reader_index) (len + cheap_prepend)) [
          | yes h ↦ make_space_grows short h
          | no h ↦ make_space_moves short (omega arith)
        ]

    -- `ensureWritableBytes` returns with room for `len` bytes, and no assertion fails.
    pub ensure_writable_bytes_lem : MakesRoom b len (ensure_writable_bytes len b)
    unfolding ensure_writable_bytes
    ensure_writable_bytes_lem = elim (dec_lt (length b.buffer) (b.writer_index + len)) [
      | yes short ↦
          let (r, e, w, same, room) = make_space_lem short in (r, ground arith, w, same, room)
      | no h ↦ (b, ground arith, v, refl, omega arith)
    ]
