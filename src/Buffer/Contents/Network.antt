-- ===== src/Buffer/Contents/Network.antt =====
-- Integers written to a buffer and read back.
use lux_polaris.Prelude.{
  ℕ, suc, ◌+◌, ◌*◌, ◌-◌, ◌^◌, ◌%◌, ◌≤◌, ◌<◌, ◌≡◌, sym, ap, ◌∙◌, subst, List, ◌++◌, take, drop, ok,
  fault, assertion_failed, arith, length, length-append, take-append, drop-append, take-slice, ltb,
  le→leb, if◌then◌else◌,
}
use lux_polaris.Prelude.Words.{max_size}
use lux_polaris.Buffer.{Buffer, readable_bytes, copy_from}
use lux_polaris.Buffer.Ints.{Host, big_endian, append_int, prepend_int, peek_int, read_int}
use lux_polaris.Buffer.LittleEndian.{little_endian, length-big_endian, htobe_top}
use lux_polaris.Buffer.Invariant.{IsValid, contents, Yields, length-contents}
use lux_polaris.Buffer.Contents.Queue.{append_lem, prepend_lem, retrieve_lem}

module _ (host : Host) {b : Buffer} (v : IsValid b) (w x : ℕ) (fits : x < 256 ^ w) where
  -- An integer of `w` bytes is appended as its bytes in network order.
  pub append_int_lem :
      b.writer_index + w ≤ max_size → Yields (append_int host w x b) (contents b ++ big_endian w x)
  unfolding append_int
  append_int_lem h =
      rw (host.store-htobe w x fits)
        (append_lem v (big_endian w x) (omega (arith, length-big_endian w x)))

  -- Likewise in front.
  pub prepend_int_lem :
      w ≤ b.reader_index → Yields (prepend_int host w x b) (big_endian w x ++ contents b)
  unfolding prepend_int
  prepend_int_lem h =
      rw (host.store-htobe w x fits)
        (prepend_lem v (big_endian w x) (omega (arith, length-big_endian w x)))

  loaded : host.load w (big_endian w x) ≡ host.htobe w x
  loaded =
      ap (host.load w) (sym (host.store-htobe w x fits))
      ∙ host.load-store w (host.htobe w x) (host.htobe-lt w x fits)

  module _ (rest : List ℕ) (e : contents b ≡ big_endian w x ++ rest) where
    enough : w ≤ readable_bytes b
    enough = omega (
      arith,
      length-contents v,
      ap length e,
      length-append (big_endian w x) rest,
      length-big_endian w x,
    )

    front : copy_from b.reader_index w b.buffer ≡ ok (big_endian w x)
    front = rw (le→leb (b.reader_index + w) (length b.buffer) (omega (arith, enough))) (
        ap ok (
          sym (
            take-slice w b.reader_index (b.writer_index - b.reader_index) b.buffer
              (omega (arith, enough)))
          ∙ ap (take w) e
          ∙ subst (λ n. take n (big_endian w x ++ rest) ≡ big_endian w x) (length-big_endian w x)
              (take-append (big_endian w x) rest)))

    -- What peeking gives when the integer stands in front: the integer, or an abort, by the sign bit
    -- of the value before its conversion.
    pub peek_int_lem :
        peek_int host w b
        ≡ (if ltb (host.htobe w x * 2) (256 ^ w) then ok x else fault assertion_failed)
    unfolding peek_int
    peek_int_lem =
        rw (le→leb w (readable_bytes b) enough, front, loaded)
          (rw (host.betoh-htobe w x fits) (ground arith))

    -- An integer is read back as it was written, and its bytes are dropped, where the sign bit of
    -- its network form is clear.
    pub read_int_lem :
        host.htobe w x * 2 < 256 ^ w
        → (r : Buffer) × (read_int host w b ≡ ok (x, r)) × IsValid r × (contents r ≡ rest)
    unfolding read_int
    read_int_lem h =
        let (r, e', valid, dropped) = retrieve_lem v w enough in
        (
          r,
          ground (arith, peek_int_lem),
          valid,
          dropped
              ∙ ap (drop w) e
              ∙ subst (λ n. drop n (big_endian w x ++ rest) ≡ rest) (length-big_endian w x)
                  (drop-append (big_endian w x) rest),
        )

-- On a machine that stores the low byte first, an integer whose low byte is 128 or more cannot be
-- read back: the assertion on the unconverted value fails.
pub read_int_aborts :
    {b : Buffer} (v : IsValid b) (w x : ℕ) (rest : List ℕ)
    → x < 256 ^ suc w
    → 128 ≤ x % 256
    → contents b ≡ big_endian (suc w) x ++ rest
    → read_int little_endian (suc w) b ≡ fault assertion_failed
unfolding read_int
read_int_aborts v w x rest fits high e =
    ground (arith, peek_int_lem little_endian v (suc w) x fits rest e, htobe_top w x high)
