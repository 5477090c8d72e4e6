-- ===== src/Buffer.antt =====
-- LuxPolaris/src/include/Buffer.h: the byte buffer, its indices and its storage. A method that
-- changes the buffer returns the new one. The children hold the search functions (Find), the
-- integers in network order (Ints), `readFd` of Buffer.cc (Fill), and the proofs.
pub mod Find
pub mod Ints
pub mod LittleEndian
pub mod Fill
pub mod Invariant
pub mod Contents
pub mod Refinement
use lux_polaris.Prelude.{
  ℕ, ◌+◌, ◌-◌, List, [], ◌++◌, Outcome, ok, fault, length_error, out_of_bounds, ◌>>=◌, ◌>>◌, assert,
  ltb, leb, ◌==◌, if◌then◌else◌, length, take, replicate, slice, write_at,
}
use lux_polaris.Prelude.Words.{add_size, sub_size, max_size}

-- `buffer` is the vector's elements, so its length is `buffer_.size()`. Bytes are only moved.
pub record Buffer : Type 0 where
  pub buffer : List ℕ
  pub reader_index : ℕ
  pub writer_index : ℕ

-- `kCheapPrepend`
abbrev pub cheap_prepend : ℕ
cheap_prepend = 8

-- `kInitialSize`
abbrev pub initial_size : ℕ
initial_size = 1024

abbrev pub readable_bytes : Buffer → ℕ
readable_bytes b = sub_size b.writer_index b.reader_index

abbrev pub writable_bytes : Buffer → ℕ
writable_bytes b = sub_size (length b.buffer) b.writer_index

abbrev pub prependable_bytes : Buffer → ℕ
prependable_bytes b = b.reader_index

-- std::copy of `bytes` to index `i` of an array.
abbrev pub copy_to : ℕ → List ℕ → List ℕ → Outcome (List ℕ)
copy_to i bytes array =
    if leb (i + length bytes) (length array)
    then ok (write_at i bytes array)
    else fault out_of_bounds

-- The `n` bytes at index `i` of an array, as a read through a pointer.
abbrev pub copy_from : ℕ → ℕ → List ℕ → Outcome (List ℕ)
copy_from i n array =
    if leb (i + n) (length array) then ok (slice i n array) else fault out_of_bounds

-- std::vector::resize; what is added is zero.
abbrev pub resize : ℕ → List ℕ → Outcome (List ℕ)
resize n array =
    if ltb max_size n
    then fault length_error
    else ok (take n array ++ replicate (n - length array) 0)

-- The constructor.
unfoldable pub new : ℕ → Outcome Buffer
new size = do
  buffer ← resize (add_size cheap_prepend size) []
  let b : Buffer = record {
    buffer = buffer;
    reader_index = cheap_prepend;
    writer_index = cheap_prepend;
  }
  assert (readable_bytes b == 0)
  assert (writable_bytes b == size)
  assert (prependable_bytes b == cheap_prepend)
  ok b

-- `a.swap(b)`: the two buffers after it.
unfoldable pub swap : Buffer → Buffer → Buffer × Buffer
swap a b = (b, a)

unfoldable pub retrieve_all : Buffer → Buffer
retrieve_all b = record b { reader_index = cheap_prepend; writer_index = cheap_prepend }

unfoldable pub retrieve : ℕ → Buffer → Outcome Buffer
unfolding retrieve_all
retrieve len b = do
  assert (leb len (readable_bytes b))
  if ltb len (readable_bytes b)
      then ok (record b { reader_index = add_size b.reader_index len })
      else ok (retrieve_all b)

-- `end` is the index of the pointer that the caller passes.
unfoldable pub retrieve_until : ℕ → Buffer → Outcome Buffer
unfolding retrieve
retrieve_until end b = do
  assert (leb b.reader_index end)
  assert (leb end b.writer_index)
  retrieve (sub_size end b.reader_index) b

unfoldable pub retrieve_as_string : ℕ → Buffer → Outcome (List ℕ × Buffer)
retrieve_as_string len b = do
  assert (leb len (readable_bytes b))
  result ← copy_from b.reader_index len b.buffer
  rest ← retrieve len b
  ok (result, rest)

unfoldable pub retrieve_all_as_string : Buffer → Outcome (List ℕ × Buffer)
unfolding retrieve_as_string
retrieve_all_as_string b = retrieve_as_string (readable_bytes b) b

-- The view of the readable bytes; what it points to is read.
unfoldable pub to_string_piece : Buffer → Outcome (List ℕ)
to_string_piece b = copy_from b.reader_index (readable_bytes b) b.buffer

-- The branch of `makeSpace` that moves the readable bytes to the front.
unfoldable pub move_to_front : Buffer → Outcome Buffer
move_to_front b = do
  assert (ltb cheap_prepend b.reader_index)
  let readable = readable_bytes b
  content ← copy_from b.reader_index readable b.buffer
  buffer ← copy_to cheap_prepend content b.buffer
  let moved : Buffer = record {
    buffer = buffer;
    reader_index = cheap_prepend;
    writer_index = add_size cheap_prepend readable;
  }
  assert (readable == readable_bytes moved)
  ok moved

unfoldable pub make_space : ℕ → Buffer → Outcome Buffer
make_space len b =
    if ltb (add_size (writable_bytes b) (prependable_bytes b)) (add_size len cheap_prepend)
    then resize (add_size b.writer_index len) b.buffer
      >>= (λ buffer. ok (record b { buffer = buffer }))
    else move_to_front b

unfoldable pub ensure_writable_bytes : ℕ → Buffer → Outcome Buffer
ensure_writable_bytes len b = do
  roomy ← if ltb (writable_bytes b) len then make_space len b else ok b
  assert (leb len (writable_bytes roomy))
  ok roomy

unfoldable pub has_written : ℕ → Buffer → Outcome Buffer
has_written len b = do
  assert (leb len (writable_bytes b))
  ok (record b { writer_index = add_size b.writer_index len })

unfoldable pub unwrite : ℕ → Buffer → Outcome Buffer
unwrite len b = do
  assert (leb len (readable_bytes b))
  ok (record b { writer_index = sub_size b.writer_index len })

unfoldable pub append : List ℕ → Buffer → Outcome Buffer
unfolding has_written
append bytes b = do
  roomy ← ensure_writable_bytes (length bytes) b
  buffer ← copy_to roomy.writer_index bytes roomy.buffer
  has_written (length bytes) (record roomy { buffer = buffer })

unfoldable pub prepend : List ℕ → Buffer → Outcome Buffer
prepend bytes b = do
  assert (leb (length bytes) (prependable_bytes b))
  let start = sub_size b.reader_index (length bytes)
  buffer ← copy_to start bytes b.buffer
  ok (record b { buffer = buffer; reader_index = start })

-- The buffer that `other` is swapped with goes away.
unfoldable pub shrink : ℕ → Buffer → Outcome Buffer
unfolding new swap
shrink reserve b = do
  fresh ← new initial_size
  roomy ← ensure_writable_bytes (add_size (readable_bytes b) reserve) fresh
  content ← to_string_piece b
  other ← append content roomy
  ok (swap b other).0
