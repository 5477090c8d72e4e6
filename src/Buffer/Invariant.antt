-- ===== src/Buffer/Invariant.antt =====
-- What every reachable state of LuxPolaris/src/include/Buffer.h satisfies, and the readable bytes
-- that a buffer stands for.
use lux_polaris.Prelude.{ℕ, ◌-◌, ◌≤◌, ◌≡◌, List, Outcome, ok, arith, length, slice, length-slice}
use lux_polaris.Prelude.Words.{max_size}
use lux_polaris.Buffer.{Buffer, cheap_prepend, readable_bytes, writable_bytes}

-- 0 <= readerIndex <= writerIndex <= size, as in the picture above the class; the front area is
-- there, and the storage is one that a vector can have.
pub record IsValid (b : Buffer) : Type 0 where
  pub front : cheap_prepend ≤ length b.buffer
  pub ordered : b.reader_index ≤ b.writer_index
  pub within : b.writer_index ≤ length b.buffer
  pub small : length b.buffer ≤ max_size

-- The bytes between the two indices.
abbrev pub contents : Buffer → List ℕ
contents b = slice b.reader_index (b.writer_index - b.reader_index) b.buffer

-- The call returns, to a valid buffer that holds `bytes`.
abbrev pub Yields : Outcome Buffer → List ℕ → Type 0
Yields o bytes = (b : Buffer) × (o ≡ ok b) × IsValid b × (contents b ≡ bytes)

-- On a valid buffer no `size_t` subtraction wraps.
pub sizes :
    {b : Buffer}
    → IsValid b
    → (readable_bytes b ≡ b.writer_index - b.reader_index)
      × (writable_bytes b ≡ length b.buffer - b.writer_index)
sizes v = omega arith

pub length-contents : {b : Buffer} → IsValid b → length (contents b) ≡ readable_bytes b
length-contents {b} v =
    omega
      (arith, length-slice b.reader_index (b.writer_index - b.reader_index) b.buffer (omega arith))
