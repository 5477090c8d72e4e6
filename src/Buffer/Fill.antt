-- ===== src/Buffer/Fill.antt =====
-- `Buffer::readFd` of LuxPolaris/src/Buffer.cc. The system's readv(2) is a parameter: what it
-- answers to a request for at most so many bytes.
use lux_polaris.Prelude.{
  ℕ, ◌+◌, List, Outcome, ok, ◌>>=◌, ltb, leb, if◌then◌else◌, length, take, drop,
}
use lux_polaris.Prelude.Words.{add_size}
use lux_polaris.Buffer.{Buffer, writable_bytes, copy_to, append}

-- -1 with errno, or the bytes that were read; none of them is the end of the stream.
pub data Reply : Type 0 where
  failed : ℕ → Reply
  got : List ℕ → Reply

-- `sizeof extrabuf`
abbrev pub extra_size : ℕ
extra_size = 65536

-- What the two `iovec`s, or the first alone, can take.
abbrev pub requested : Buffer → ℕ
requested b =
    if ltb (writable_bytes b) extra_size then writable_bytes b + extra_size else writable_bytes b

-- readv(2) fills the storage behind `writer_index` first, and `extrabuf` with the rest.
unfoldable pub take_in : List ℕ → Buffer → Outcome Buffer
take_in bytes b = do
  let writable = writable_bytes b
  buffer ← copy_to b.writer_index (take writable bytes) b.buffer
  if leb (length bytes) writable
      then ok (record b { buffer = buffer; writer_index = add_size b.writer_index (length bytes) })
      else append (drop writable bytes) (record b { buffer = buffer; writer_index = length buffer })

-- The result and the saved errno are the reply.
unfoldable pub read_fd : (ℕ → Reply) → Buffer → Outcome (Reply × Buffer)
unfolding take_in
read_fd readv b = elim (readv (requested b)) [
  | failed errno ↦ ok (failed errno, b)
  | got bytes ↦ take_in bytes b >>= (λ b'. ok (got bytes, b'))
]
